-- ===== src/Json/Progress/Value.antt =====
-- The lemmas for runs on the reader of a parser, and the reader of values.
use azure_sdk_for_c.Base.{
  ℕ, ◌+◌, ◌/◌, ◌^◌, ◌≤◌, true, false, ◌==◌, arith, Bool-cases, inl, inr, length, Bytes, Option,
  none, some,
}
use azure_sdk_for_c.Double.{Doubles}
use azure_sdk_for_c.Json.Parser.{
  az_span_reader_skip_json_white_space, az_span_reader_get_json_string_rest, Parser, on_reader,
  on_stack, push_stack, true_text, false_text, null_text, value_from, az_json_parser_get_value,
  az_json_parser_get_value_space,
}
use azure_sdk_for_c.Json.Progress.Number.{number-Takes}
use azure_sdk_for_c.Json.Number.{az_span_reader_get_json_number_digit_rest}
use azure_sdk_for_c.Json.Stack.{
  StackItem, stack_object, stack_array, json_stack_size, az_json_parser_push_stack,
}
use azure_sdk_for_c.Json.Token.{Token, boolean, null, string, number, object, array}
use azure_sdk_for_c.Memory.{Memory}
use azure_sdk_for_c.Result.Progress.{Takes, Takes-bind, Takes-later, loss}
use azure_sdk_for_c.Result.{
  Run, Outcome, fault, hang, fail, done, ◌>>=◌, ◌>>◌, return, when◌then◌else◌, Error, eof,
}
use azure_sdk_for_c.Span.Progress.{size, Takes-if_at_end, Takes-skip, expected_span-Takes}
use azure_sdk_for_c.Span.Read.{isdigit, az_is_expected_span}
use azure_sdk_for_c.Span.{Span, peek, skip, at_end, fail_at_end, if_at_end◌else◌}
use azure_sdk_for_c.Json.Progress.Strings.{white_space-Takes, string_rest-Takes}

-- The size of a parser is that of its reader.
abbrev pub left : Parser → ℕ
left self = self.reader.len

module _ {A : Type 0} (r j n : ℕ) where
  pub on_reader-Takes :
      (run : Run Span A) (self : Parser)
      → Takes size r j n (run self.reader)
      → Takes left r j n (on_reader run self)
  on_reader-Takes run self t = go (run self.reader) t
    where
      go :
          (o : Outcome Span A)
          → Takes size r j n o
          → Takes left r j n (elim o [
            | fault ↦ fault
            | hang ↦ hang
            | fail e reader ↦ fail e (record self { reader = reader })
            | done a reader ↦ done a (record self { reader = reader })
          ])
      go fault u = tt
      go hang u = elim u [ ]
      go (fail e s') u = u
      go (done a s') u = u

module _ {A : Type 0} (r j n : ℕ) where
  -- The steps at parser level.
  pub parser_fail_at_end :
      (e : Error) (next : Run Parser A) (self : Parser)
      → self.reader.len + loss j e ≤ n
      → (1 ≤ self.reader.len → Takes left r j n (next self))
      → Takes left r j n ((on_reader (fail_at_end e) >> next) self)
  parser_fail_at_end e next self h f = elim (Bool-cases (self.reader.len == 0)) [
    | inl end' ↦ rw (end', ◌>>=◌, fail_at_end, on_reader, at_end) h
    | inr more ↦ rw (more, ◌>>=◌, fail_at_end, on_reader, at_end) (f (ground arith))
  ]

  pub parser_peek :
      (m : Memory) (next : ℕ → Run Parser A) (self : Parser)
      → ((c : ℕ) → Takes left r j n (next c self))
      → Takes left r j n ((on_reader (peek m) >>= next) self)
  unfolding peek
  parser_peek m next self f = go (m self.reader.ptr)
    where
      go :
          (o : Option ℕ)
          → Takes left r j n
              (elim (elim (elim o as (λ x. Outcome Span ℕ) [
                | none ↦ fault
                | some c ↦ done c self.reader
              ])
                as (λ x. Outcome Parser ℕ) [
                  | fault ↦ fault
                  | hang ↦ hang
                  | fail e reader ↦ fail e (record self { reader = reader })
                  | done a reader ↦ done a (record self { reader = reader })
                ]) [ fault ↦ fault | hang ↦ hang | fail e s' ↦ fail e s' | done a s' ↦ next a s' ])
      go none = tt
      go (some c) = f c

  -- A part that runs on the reader, and what follows it.
  pub parser_then :
      {B : Type 0} (q : ℕ) (run : Run Span B) (next : B → Run Parser A) (self : Parser)
      → Takes size q j n (run self.reader)
      → ((b : B) (self' : Parser) → self'.reader.len + q ≤ n → Takes left r j n (next b self'))
      → Takes left r j n ((on_reader run >>= next) self)
  parser_then q run next self t f =
      Takes-bind left q r j n (on_reader run) next self (on_reader-Takes q j n run self t) f

push_stack-Takes :
    (item : StackItem) (j n : ℕ) (self : Parser)
    → self.reader.len ≤ n
    → Takes left 0 j n (push_stack item self)
unfolding az_json_parser_push_stack
push_stack-Takes item j n self h = elim (Bool-cases (self.stack / 2 ^ json_stack_size == 0)) [
  | inl room ↦ rw (room, on_stack) (omega arith)
  | inr full ↦ rw (full, on_stack) (omega arith)
]

module _ (fp : Doubles) (m : Memory) (j : ℕ) where
  container-Takes :
      (item : StackItem) (token : Token fp.Double) (n : ℕ) (self : Parser)
      → self.reader.len ≤ n
      → 1 ≤ self.reader.len
      → Takes left 1 j n ((on_reader (skip 1) >> (push_stack item >> return token)) self)
  container-Takes item token n self h k =
      parser_then 1 j n 1 (skip 1) (λ _. push_stack item >> return token) self
        (Takes-skip 1 1 j n self.reader (omega arith))
        (λ u s' h'.
          Takes-bind left 1 1 j n (push_stack item) (λ _. return token) s'
            (Takes-later left 0 j s'.reader.len 1 j n _ (omega arith) (omega arith) (omega arith)
              (push_stack-Takes item j s'.reader.len s' (omega arith)))
            (λ u' s'' h''. h''))

  word-Takes :
      (text : Bytes) (token : Token fp.Double) (self : Parser)
      → 1 ≤ length text
      → Takes left 1 j self.reader.len
          ((on_reader (az_is_expected_span m text) >> return token) self)
  word-Takes text token self h =
      parser_then 1 j self.reader.len (length text) (az_is_expected_span m text) (λ _. return token)
        self (expected_span-Takes m text j self.reader) (λ u s' h'. omega arith)

  number_token-Takes :
      (self : Parser)
      → 1 ≤ self.reader.len
      → Takes left {A = Token fp.Double} 1 j self.reader.len (
          (on_reader (az_span_reader_get_json_number_digit_rest fp m) >>= λ d. return (number d))
            self)
  number_token-Takes self h =
      parser_then 1 j self.reader.len 1 (az_span_reader_get_json_number_digit_rest fp m)
        (λ d. return (number d)) self (number-Takes m j fp self.reader h) (λ d s' h'. h')

  string_token-Takes :
      (self : Parser)
      → 1 ≤ self.reader.len
      → Takes left {A = Token fp.Double} 1 j self.reader.len (
          (on_reader (skip 1)
              >> (on_reader (az_span_reader_get_json_string_rest m) >>= λ x. return (string x)))
            self)
  string_token-Takes self h =
      parser_then 1 j self.reader.len 1 (skip 1)
        (λ _. on_reader (az_span_reader_get_json_string_rest m) >>= λ x. return (string x)) self
        (Takes-skip 1 1 j self.reader.len self.reader (omega arith))
        (λ u s' h'.
          parser_then 1 j self.reader.len 1 (az_span_reader_get_json_string_rest m)
            (λ x. return (string x)) s'
            (Takes-later size 0 j s'.reader.len 1 j self.reader.len _ (omega arith) (omega arith)
              (omega arith) (string_rest-Takes m j s'.reader))
            (λ x s'' h''. h''))

  value_from-Takes :
      (c : ℕ) (self : Parser)
      → 1 ≤ self.reader.len
      → Takes left 1 j self.reader.len (value_from fp m c self)
  unfolding value_from
  value_from-Takes c self h = elim (Bool-cases (c == b't')) [
    | inl e ↦ rw e (word-Takes true_text (boolean true) self (omega arith))
    | inr e1 ↦ rw e1 (elim (Bool-cases (c == b'f')) [
      | inl e ↦ rw e (word-Takes false_text (boolean false) self (omega arith))
      | inr e2 ↦ rw e2 (elim (Bool-cases (c == b'n')) [
        | inl e ↦ rw e (word-Takes null_text null self (omega arith))
        | inr e3 ↦ rw e3 (elim (Bool-cases (c == b'"')) [
          | inl e ↦ rw e (string_token-Takes self h)
          | inr e4 ↦ rw e4 (elim (Bool-cases (c == b'-')) [
            | inl e ↦ rw e (number_token-Takes self h)
            | inr e5 ↦ rw e5 (elim (Bool-cases (c == b'{')) [
              | inl e ↦
                  rw e (container-Takes stack_object object self.reader.len self (omega arith) h)
              | inr e6 ↦ rw e6 (elim (Bool-cases (c == b'[')) [
                | inl e ↦
                    rw e (container-Takes stack_array array self.reader.len self (omega arith) h)
                | inr e7 ↦ rw e7 (omega arith)
              ])
            ])
          ])
        ])
      ])
    ])
  ]

  value-Takes :
      (self : Parser) → Takes left 1 j self.reader.len (az_json_parser_get_value fp m self)
  unfolding az_json_parser_get_value
  value-Takes self = parser_fail_at_end 1 j self.reader.len eof _ self (omega arith) (λ h.
      parser_peek 1 j self.reader.len m _ self (λ c. elim (Bool-cases (isdigit c)) [
        | inl e ↦ rw e (number_token-Takes self h)
        | inr e ↦ rw e (value_from-Takes c self h)
      ]))

  pub value_space-Takes :
      (self : Parser) → Takes left 1 j self.reader.len (az_json_parser_get_value_space fp m self)
  unfolding az_json_parser_get_value_space
  value_space-Takes self =
      let n = self.reader.len in
      Takes-bind left 1 1 j n (az_json_parser_get_value fp m)
        (λ token.
          on_reader (if_at_end return tt else az_span_reader_skip_json_white_space m)
          >> return token)
        self (value-Takes self)
        (λ token s' h.
          parser_then 1 j n 1 (if_at_end return tt else az_span_reader_skip_json_white_space m)
            (λ _. return token) s'
            (Takes-if_at_end 1 j n (return tt) (az_span_reader_skip_json_white_space m) s'.reader h
              (λ more.
                Takes-later size 0 j s'.reader.len 1 j n _ (omega arith) (omega arith) (omega arith)
                  (white_space-Takes m j s'.reader)))
            (λ u s'' h''. h''))
