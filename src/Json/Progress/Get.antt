-- ===== src/Json/Progress/Get.antt =====
-- The lookup by a JSON pointer ends: the rounds that its loops are given are enough.
use azure_sdk_for_c.Base.{
  ℕ, zero, suc, ◌+◌, ◌-◌, ◌*◌, ◌/◌, ◌<◌, Bool, false, not, ◌&&◌, ltb, ◌==◌, ◌≡◌, refl, arith,
  Bool-cases, inl, inr, Option, some, none,
}
use azure_sdk_for_c.Double.{Doubles}
use azure_sdk_for_c.Json.Get.{
  is_not_found, eq_from, az_json_pointer_token_eq_json_string, get_item_from, get_member_from,
  az_json_parser_get_by_pointer_token,
}
use azure_sdk_for_c.Json.Parser.{
  Parser, az_json_parser_parse_token_member, az_json_parser_parse_array_item,
}
use azure_sdk_for_c.Json.Pointer.{az_span_reader_read_json_pointer_token_char}
use azure_sdk_for_c.Json.Progress.Item.{array_item-Takes, member-Takes}
use azure_sdk_for_c.Json.Progress.Skip.{skip_children-Takes}
use azure_sdk_for_c.Json.Progress.Pointer.{token_char-Takes}
use azure_sdk_for_c.Json.Progress.Text.{string_char-Takes}
use azure_sdk_for_c.Json.Progress.Value.{left}
use azure_sdk_for_c.Json.Skip.{az_json_parser_skip_children}
use azure_sdk_for_c.Json.Text.{az_span_reader_read_json_string_char}
use azure_sdk_for_c.Json.Token.{
  Token, TokenMember, null, boolean, number, string, object, array, span,
}
use azure_sdk_for_c.Memory.{Memory}
use azure_sdk_for_c.Result.Progress.{Takes, Takes-bind, Takes-when, Takes-later}
use azure_sdk_for_c.Result.{
  Run, Outcome, fault, hang, fail, done, ◌>>=◌, ◌>>◌, return, throw, when◌then◌else◌, eof,
  parser_unexpected_char,
}
use azure_sdk_for_c.Source.{Source, at, byte_at, demand}
use azure_sdk_for_c.Span.Progress.{size}
use azure_sdk_for_c.Span.Read.{isdigit, u64_max, to_uint64_from, az_span_to_uint64}
use azure_sdk_for_c.Span.{Span}

-- A run that keeps the state and ends, with no error.
abbrev Same : {S A : Type 0} → S → Outcome S A → Type 0
Same s fault = Unit {0}
Same s hang = ⊥
Same s (fail e s') = ⊥
Same s (done a s') = s' ≡ s

module _ {S : Type 0} (m : Memory) where
  eq_from-Same : (fuel : ℕ) (pt js : Span) (s : S) → pt.len < fuel → Same s (eq_from m fuel pt js s)
  unfolding eq_from
  eq_from-Same zero pt js s f = absurd (omega arith)
  eq_from-Same (suc fuel) pt js s f =
      go (λ pt' js' h. eq_from-Same fuel pt' js' s h)
        (az_span_reader_read_json_pointer_token_char m pt) (token_char-Takes m pt)
        (az_span_reader_read_json_string_char m js) (string_char-Takes m js)
    where
      go :
          ((pt' js' : Span) → pt'.len < fuel → Same s (eq_from m fuel pt' js' s))
          → (o : Outcome Span ℕ) → Takes size 1 0 pt.len o
          → (q : Outcome Span ℕ) → Takes size 1 0 js.len q
          → Same s (
              (elim o as (λ x. Run S Bool) [
                | fault ↦ λ s. fault
                | hang ↦ λ s. hang
                | fail pt_e pt_reader' ↦ elim q as (λ x. Run S Bool) [
                  | fault ↦ λ s. fault
                  | hang ↦ λ s. hang
                  | fail js_e js_reader' ↦ return (is_not_found js_e && is_not_found pt_e)
                  | done js_c js_reader' ↦ return false
                ]
                | done pt_c pt_reader' ↦ elim q as (λ x. Run S Bool) [
                  | fault ↦ λ s. fault
                  | hang ↦ λ s. hang
                  | fail js_e js_reader' ↦ return false
                  | done js_c js_reader' ↦
                      when not (pt_c == js_c)
                      then return false
                      else eq_from m fuel pt_reader' js_reader'
                ]
              ])
                s)
      go next fault t q u = tt
      go next hang t q u = elim t [ ]
      go next (fail e p') t fault u = tt
      go next (fail e p') t hang u = elim u [ ]
      go next (fail e p') t (fail e' j') u = refl
      go next (fail e p') t (done c j') u = refl
      go next (done c p') t fault u = tt
      go next (done c p') t hang u = elim u [ ]
      go next (done c p') t (fail e' j') u = refl
      go next (done c p') t (done c' j') u = elim (Bool-cases (c == c')) [
        | inr other ↦ rw other refl
        | inl same ↦ rw same (next p' j' (omega arith))
      ]

  eq-Same : (pt js : Span) (s : S) → Same s (az_json_pointer_token_eq_json_string m pt js s)
  unfolding az_json_pointer_token_eq_json_string
  eq-Same pt js s = eq_from-Same (suc pt.len) pt js s (omega arith)

Same-Takes :
    {A : Type 0} (j : ℕ) (self : Parser) (o : Outcome Parser A)
    → Same self o
    → Takes left 0 j self.reader.len o
Same-Takes j self fault t = tt
Same-Takes j self hang t = elim t [ ]
Same-Takes j self (fail e s') t = elim t [ ]
Same-Takes j self (done a s') t = rw t (omega arith)

-- The number of an index.
uint64-Takes :
    (m : Memory) (src : Source) (n i value j : ℕ) (self : Parser)
    → Takes left 0 j self.reader.len (to_uint64_from m src n i value self)
unfolding to_uint64_from
uint64-Takes m src zero i value j self = omega arith
uint64-Takes m src (suc n) i value j self =
    go (λ v. uint64-Takes m src n (suc i) v j self) (byte_at m src i)
  where
    go :
        ((v : ℕ) → Takes left 0 j self.reader.len (to_uint64_from m src n (suc i) v self))
        → (o : Option ℕ)
        → Takes left 0 j self.reader.len (
            (demand o >>= λ result.
            when not (isdigit result)
            then throw parser_unexpected_char
            else let d = result - b'0' in
              when ltb ((u64_max - d) / 10) value
              then throw parser_unexpected_char
              else to_uint64_from m src n (suc i) (value * 10 + d))
              self)
    go next none = tt
    go next (some c) = elim (Bool-cases (isdigit c)) [
      | inr other ↦ rw other (omega arith)
      | inl digit ↦ rw digit (
          Takes-when left 0 j self.reader.len (ltb ((u64_max - (c - b'0')) / 10) value)
            (throw parser_unexpected_char)
            (to_uint64_from m src n (suc i) (value * 10 + (c - b'0'))) self (omega arith)
            (next (value * 10 + (c - b'0'))))
    ]

module _ (fp : Doubles) (m : Memory) where
  item_taken :
      (self : Parser) → Takes left 1 0 self.reader.len (az_json_parser_parse_array_item fp m self)
  item_taken self =
      let n = self.reader.len in
      Takes-later left 1 1 n 1 0 n _ (omega arith) (omega arith) (omega arith)
        (array_item-Takes fp m self)

  member_taken :
      (self : Parser) → Takes left 1 0 self.reader.len (az_json_parser_parse_token_member fp m self)
  member_taken self =
      let n = self.reader.len in
      Takes-later left 1 1 n 1 0 n _ (omega arith) (omega arith) (omega arith)
        (member-Takes fp m self)

  get_item-Takes :
      (fuel i : ℕ) (self : Parser)
      → self.reader.len < fuel
      → Takes left 0 0 self.reader.len (get_item_from fp m fuel i self)
  unfolding get_item_from
  get_item-Takes zero i self f = absurd (omega arith)
  get_item-Takes (suc fuel) i self f =
      let n = self.reader.len in
      Takes-bind left 1 0 0 n (az_json_parser_parse_array_item fp m)
        (λ token.
          when i == 0
          then return token
          else (az_json_parser_skip_children fp m token >> get_item_from fp m fuel (i - 1)))
        self (item_taken self)
        (λ token s1 h1.
          Takes-when left 0 0 n (i == 0) (return token)
            (az_json_parser_skip_children fp m token >> get_item_from fp m fuel (i - 1)) s1
            (omega arith)
            (Takes-bind left 1 0 0 n (az_json_parser_skip_children fp m token)
              (λ _. get_item_from fp m fuel (i - 1)) s1
              (Takes-later left 0 0 s1.reader.len 1 0 n _ (omega arith) (omega arith) (omega arith)
                (skip_children-Takes fp m token 0 s1))
              (λ u s2 h2.
                Takes-later left 0 0 s2.reader.len 0 0 n _ (omega arith) (omega arith) (omega arith)
                  (get_item-Takes fuel (i - 1) s2 (omega arith)))))

  get_member-Takes :
      (fuel : ℕ) (pt : Span) (self : Parser)
      → self.reader.len < fuel
      → Takes left 0 0 self.reader.len (get_member_from fp m fuel pt self)
  unfolding get_member_from
  get_member-Takes zero pt self f = absurd (omega arith)
  get_member-Takes (suc fuel) pt self f =
      let n = self.reader.len in
      let other : TokenMember fp.Double → Run Parser (Token fp.Double) =
        λ member. az_json_parser_skip_children fp m member.token >> get_member_from fp m fuel pt in
      Takes-bind left 1 0 0 n (az_json_parser_parse_token_member fp m)
        (λ member. az_json_pointer_token_eq_json_string m pt member.name >>= λ found.
          when found then return member.token else other member)
        self (member_taken self)
        (λ member s1 h1.
          Takes-bind left 1 0 0 n (az_json_pointer_token_eq_json_string m pt member.name)
            (λ found. when found then return member.token else other member) s1
            (Takes-later left 0 0 s1.reader.len 1 0 n _ (omega arith) (omega arith) (omega arith)
              (Same-Takes 0 s1 _ (eq-Same m pt member.name s1)))
            (λ found s2 h2.
              Takes-when left 0 0 n found (return member.token) (other member) s2 (omega arith) (
                Takes-bind left 1 0 0 n (az_json_parser_skip_children fp m member.token)
                  (λ _. get_member_from fp m fuel pt) s2
                  (Takes-later left 0 0 s2.reader.len 1 0 n _ (omega arith) (omega arith)
                    (omega arith) (skip_children-Takes fp m member.token 0 s2))
                  (λ u s3 h3.
                    Takes-later left 0 0 s3.reader.len 0 0 n _ (omega arith) (omega arith)
                      (omega arith) (get_member-Takes fuel pt s3 (omega arith))))))

  pub by_token-Takes :
      (pt : Span) (token : Token fp.Double) (self : Parser)
      → Takes left 0 0 self.reader.len (az_json_parser_get_by_pointer_token fp m pt token self)
  unfolding az_json_parser_get_by_pointer_token az_span_to_uint64
  by_token-Takes pt array self =
      let n = self.reader.len in
      Takes-bind left 0 0 0 n (az_span_to_uint64 m (at pt))
        (λ i s. get_item_from fp m (suc s.reader.len) i s) self
        (Takes-when left 0 0 n (pt.len == 0) (throw eof) (to_uint64_from m (at pt) pt.len 0 0) self
          (omega arith) (uint64-Takes m (at pt) pt.len 0 0 0 self))
        (λ i s1 h1.
          Takes-later left 0 0 s1.reader.len 0 0 n _ (omega arith) (omega arith) (omega arith)
            (get_item-Takes (suc s1.reader.len) i s1 (omega arith)))
  by_token-Takes pt object self = get_member-Takes (suc self.reader.len) pt self (omega arith)
  by_token-Takes pt null self = omega arith
  by_token-Takes pt (boolean b) self = omega arith
  by_token-Takes pt (number d) self = omega arith
  by_token-Takes pt (string s) self = omega arith
  by_token-Takes pt (span s) self = omega arith
