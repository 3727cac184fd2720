-- ===== src/Json/Progress/Item.antt =====
-- The readers of members and items, and the skipping of children.
use azure_sdk_for_c.Base.{
  ℕ, ◌+◌, ◌≤◌, Bool, true, false, not, leb, ◌==◌, arith, ◌||◌, Bool-cases, inl, inr, [], ◌∷◌,
}
use azure_sdk_for_c.Double.{Doubles}
use azure_sdk_for_c.Json.Parser.{
  Parser, on_reader, on_stack, az_json_parser_pop_stack, az_span_reader_skip_json_white_space,
  az_span_reader_get_json_string_rest, az_json_stack_item_to_close, is_same_item,
  az_json_parser_read_comma_or_close, az_json_parser_check_item_begin,
  az_json_parser_get_value_space, is_container, az_json_parser_check_item_end,
  az_json_parser_parse_token_member, az_json_parser_parse_array_item,
}
use azure_sdk_for_c.Json.Progress.Value.{
  left, on_reader-Takes, parser_fail_at_end, parser_peek, parser_then, value_space-Takes,
}
use azure_sdk_for_c.Json.Progress.Strings.{white_space-Takes, string_rest-Takes}
use azure_sdk_for_c.Json.Stack.{
  StackItem, stack_object, stack_array, az_json_parser_stack_is_empty, az_json_parser_stack_last,
  az_json_stack_pop,
}
use azure_sdk_for_c.Json.Token.{Token, TokenMember}
use azure_sdk_for_c.Memory.{Memory}
use azure_sdk_for_c.Result.Progress.{Takes, Takes-bind, Takes-later, loss}
use azure_sdk_for_c.Result.{
  Run, ◌>>=◌, ◌>>◌, return, throw, when◌then◌else◌, Error, eof, item_not_found, json_invalid_state,
}
use azure_sdk_for_c.Span.Progress.{size, Takes-skip, expected_span-Takes}
use azure_sdk_for_c.Span.Read.{az_is_expected_span}
use azure_sdk_for_c.Span.{peek, skip, fail_at_end}

pop_stack-Takes :
    (j n : ℕ) (self : Parser)
    → self.reader.len ≤ n
    → Takes left 0 j n (az_json_parser_pop_stack self)
unfolding az_json_stack_pop
pop_stack-Takes j n self h = elim (Bool-cases (leb self.stack 1)) [
  | inl bottom ↦ rw (bottom, az_json_parser_pop_stack, on_stack) (omega arith)
  | inr more ↦ rw (more, az_json_parser_pop_stack, on_stack) (omega arith)
]

-- `if (b) { return e; }`
pub parser_check :
    {A : Type 0} (r j n : ℕ) (b : Bool) (e : Error) (next : Run Parser A) (self : Parser)
    → self.reader.len + loss j e ≤ n
    → Takes left r j n (next self)
    → Takes left r j n (((when b then throw e else return tt) >> next) self)
parser_check r j n true e next self h t = h
parser_check r j n false e next self h t = t

module _ (m : Memory) where
  pub space-Takes :
      (r j n : ℕ) (self : Parser)
      → self.reader.len + r ≤ n
      → Takes left r j n (on_reader (az_span_reader_skip_json_white_space m) self)
  space-Takes r j n self h = on_reader-Takes r j n (az_span_reader_skip_json_white_space m) self (
      Takes-later size 0 j self.reader.len r j n _ (omega arith) (omega arith) (omega arith)
        (white_space-Takes m j self.reader))

  comma_or_close-Takes :
      (r j n : ℕ) (self : Parser)
      → self.reader.len + r ≤ n
      → Takes left r j n (az_json_parser_read_comma_or_close m self)
  unfolding az_json_parser_read_comma_or_close
  comma_or_close-Takes r j n self h = parser_peek r j n m _ self (λ c.
      elim (Bool-cases (c == b',')) [
        | inl comma ↦ rw comma (
            parser_then r j n r (skip 1) (λ _. on_reader (az_span_reader_skip_json_white_space m))
              self (Takes-skip 1 r j n self.reader (omega arith))
              (λ u s' h'. space-Takes r j n s' h'))
        | inr other ↦
            rw other
              (elim (Bool-cases
                (c == az_json_stack_item_to_close (az_json_parser_stack_last self.stack))) [
                  | inl close ↦ rw close h
                  | inr bad ↦ rw bad (omega arith)
                ])
      ])

  -- Inside of another container, a comma or its end follows.
  between : Run Parser (Unit {0})
  between self =
      (when not (az_json_parser_stack_is_empty self.stack)
          then az_json_parser_read_comma_or_close m
          else return tt)
        self

  -- What follows a closing bracket: nothing is found, but a byte was taken.
  after_close : Run Parser (Unit {0})
  after_close = do on_reader (az_span_reader_skip_json_white_space m); between; throw item_not_found

  after_close-Takes :
      (n : ℕ) (self : Parser) → self.reader.len + 1 ≤ n → Takes left 0 1 n (after_close self)
  unfolding after_close between
  after_close-Takes n self h =
      Takes-bind left 1 0 1 n (on_reader (az_span_reader_skip_json_white_space m)) _ self
        (space-Takes 1 1 n self h)
        (λ u s' h'.
          Takes-bind left 1 0 1 n between (λ _. throw item_not_found) s'
            (elim (Bool-cases (az_json_parser_stack_is_empty s'.stack)) [
              | inl empty ↦ rw empty h'
              | inr inside ↦ rw inside (comma_or_close-Takes 1 1 n s' h')
            ])
            (λ u' s'' h''. h''))

  -- The first byte of an item, or the bracket that closes the container.
  closes : StackItem → ℕ → Run Parser (Unit {0})
  closes item c =
      when not (c == az_json_stack_item_to_close item)
      then return tt
      else (do az_json_parser_pop_stack; on_reader (skip 1); after_close)

  closes-Takes :
      (item : StackItem) (c n : ℕ) (self : Parser)
      → self.reader.len ≤ n
      → 1 ≤ n
      → Takes left 0 1 n (closes item c self)
  unfolding closes
  closes-Takes item c n self h k = elim (Bool-cases (c == az_json_stack_item_to_close item)) [
    | inr other ↦ rw other (omega arith)
    | inl close ↦ rw close (
        Takes-bind left 0 0 1 n az_json_parser_pop_stack (λ _. on_reader (skip 1) >> after_close)
          self (pop_stack-Takes 1 n self h)
          (λ u s' h'.
            parser_then 0 1 n 1 (skip 1) (λ _. after_close) s'
              (Takes-skip 1 1 1 n s'.reader (omega arith))
              (λ u' s'' h''. after_close-Takes n s'' h'')))
  ]

  first_byte : StackItem → Run Parser (Unit {0})
  first_byte item = do on_reader (fail_at_end eof); c ← on_reader (peek m); closes item c

  first_byte-Takes :
      (item : StackItem) (self : Parser) → Takes left 0 1 self.reader.len (first_byte item self)
  unfolding first_byte
  first_byte-Takes item self =
      parser_fail_at_end 0 1 self.reader.len eof (on_reader (peek m) >>= closes item) self
        (omega arith)
        (λ h.
          parser_peek 0 1 self.reader.len m (closes item) self
            (λ c. closes-Takes item c self.reader.len self (omega arith) h))

  item_begin-Takes :
      (item : StackItem) (self : Parser)
      → Takes left 0 1 self.reader.len (az_json_parser_check_item_begin m item self)
  unfolding az_json_parser_check_item_begin first_byte closes after_close between
  item_begin-Takes item self =
      parser_check 0 1 self.reader.len
        (az_json_parser_stack_is_empty self.stack
          || not (is_same_item (az_json_parser_stack_last self.stack) item))
        json_invalid_state (first_byte item) self (omega arith) (first_byte-Takes item self)

module _ (fp : Doubles) (m : Memory) where
  item_end-Takes :
      (r j n : ℕ) (token : Token fp.Double) (self : Parser)
      → self.reader.len + r ≤ n
      → Takes left r j n (az_json_parser_check_item_end fp m token self)
  unfolding az_json_parser_check_item_end
  item_end-Takes r j n token self h = elim (Bool-cases (is_container fp token)) [
    | inl container ↦ rw container h
    | inr other ↦ rw other (comma_or_close-Takes m r j n self h)
  ]

  value_later :
      (n : ℕ) (self : Parser)
      → self.reader.len ≤ n
      → Takes left 1 1 n (az_json_parser_get_value_space fp m self)
  value_later n self h =
      Takes-later left 1 1 self.reader.len 1 1 n _ (omega arith) (omega arith) h
        (value_space-Takes fp m 1 self)

  pub array_item-Takes :
      (self : Parser) → Takes left 1 1 self.reader.len (az_json_parser_parse_array_item fp m self)
  unfolding az_json_parser_parse_array_item
  array_item-Takes self =
      let n = self.reader.len in
      Takes-bind left 0 1 1 n (az_json_parser_check_item_begin m stack_array) _ self
        (item_begin-Takes m stack_array self)
        (λ u s' h.
          Takes-bind left 1 1 1 n (az_json_parser_get_value_space fp m)
            (λ token. az_json_parser_check_item_end fp m token >> return token) s'
            (value_later n s' (omega arith))
            (λ token s'' h'.
              Takes-bind left 1 1 1 n (az_json_parser_check_item_end fp m token) (λ _. return token)
                s'' (item_end-Takes 1 1 n token s'' h') (λ u' s3 h3. h3)))

  -- What follows the opening quote of a name.
  member_rest : Run Parser (TokenMember fp.Double)
  member_rest = do
    name ← on_reader (az_span_reader_get_json_string_rest m)
    on_reader (az_span_reader_skip_json_white_space m)
    on_reader (az_is_expected_span m (b':' ∷ []))
    on_reader (az_span_reader_skip_json_white_space m)
    token ← az_json_parser_get_value_space fp m
    az_json_parser_check_item_end fp m token
    return (record { name = name; token = token })

  member_rest-Takes :
      (n : ℕ) (self : Parser) → self.reader.len + 1 ≤ n → Takes left 1 1 n (member_rest self)
  unfolding member_rest
  member_rest-Takes n self h =
      parser_then 1 1 n 1 (az_span_reader_get_json_string_rest m) _ self
        (Takes-later size 0 1 self.reader.len 1 1 n _ (omega arith) (omega arith) (omega arith)
          (string_rest-Takes m 1 self.reader))
        (λ name s1 h1.
          Takes-bind left 1 1 1 n (on_reader (az_span_reader_skip_json_white_space m)) _ s1
            (space-Takes m 1 1 n s1 h1)
            (λ u s2 h2.
              parser_then 1 1 n 1 (az_is_expected_span m (b':' ∷ [])) _ s2
                (Takes-later size 1 1 s2.reader.len 1 1 n _ (omega arith) (omega arith)
                  (omega arith) (expected_span-Takes m (b':' ∷ []) 1 s2.reader))
                (λ u' s3 h3.
                  Takes-bind left 1 1 1 n (on_reader (az_span_reader_skip_json_white_space m)) _ s3
                    (space-Takes m 1 1 n s3 h3)
                    (λ u3 s4 h4.
                      Takes-bind left 1 1 1 n (az_json_parser_get_value_space fp m) _ s4
                        (value_later n s4 (omega arith))
                        (λ token s5 h5.
                          Takes-bind left 1 1 1 n (az_json_parser_check_item_end fp m token) _ s5
                            (item_end-Takes 1 1 n token s5 h5) (λ u6 s6 h6. h6))))))

  pub member-Takes :
      (self : Parser) → Takes left 1 1 self.reader.len (az_json_parser_parse_token_member fp m self)
  unfolding az_json_parser_parse_token_member member_rest
  member-Takes self =
      let n = self.reader.len in
      Takes-bind left 0 1 1 n (az_json_parser_check_item_begin m stack_object)
        (λ _. on_reader (az_is_expected_span m (b'"' ∷ [])) >> member_rest) self
        (item_begin-Takes m stack_object self)
        (λ u s1 h1.
          parser_then 1 1 n 1 (az_is_expected_span m (b'"' ∷ [])) (λ _. member_rest) s1
            (Takes-later size 1 1 s1.reader.len 1 1 n _ (omega arith) (omega arith) (omega arith)
              (expected_span-Takes m (b'"' ∷ []) 1 s1.reader))
            (λ u2 s2 h2. member_rest-Takes n s2 h2))
