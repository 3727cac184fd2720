-- ===== src/Json/Progress/Ends.antt =====
-- `az_json_parse_by_pointer` ends.
use azure_sdk_for_c.Base.{ℕ, zero, suc, ◌≤◌, ◌<◌, not, ◌≡◌, subst, arith}
use azure_sdk_for_c.Double.{Doubles}
use azure_sdk_for_c.Json.Get.{
  is_not_found, az_json_parser_get_by_pointer_token, by_pointer_from, az_json_parse_by_pointer,
}
use azure_sdk_for_c.Json.Parser.{
  Parser, az_json_parser_init, on_reader, az_span_reader_skip_json_white_space,
  az_json_parser_get_value_space, is_container, az_json_parser_parse_token,
}
use azure_sdk_for_c.Json.Pointer.{az_span_reader_read_json_pointer_token}
use azure_sdk_for_c.Json.Progress.Pointer.{pointer_token-Takes}
use azure_sdk_for_c.Json.Progress.Value.{left}
use azure_sdk_for_c.Json.Token.{Token}
use azure_sdk_for_c.Memory.{Memory}
use azure_sdk_for_c.Result.Progress.{Takes, Takes-bind, Takes-when, Takes-later}
use azure_sdk_for_c.Result.{
  Run, Outcome, fault, hang, fail, done, ◌>>=◌, ◌>>◌, return, throw, when◌then◌else◌, eof,
  item_not_found, parser_unexpected_char,
}
use azure_sdk_for_c.Span.Progress.{size}
use azure_sdk_for_c.Span.{Span}
use azure_sdk_for_c.Json.Progress.Get.{by_token-Takes}
use azure_sdk_for_c.Json.Progress.Value.{on_reader-Takes, value_space-Takes}
use azure_sdk_for_c.Json.Progress.Item.{parser_check, space-Takes}
use azure_sdk_for_c.Json.Stack.{az_json_parser_stack_is_empty}
use azure_sdk_for_c.Result.{json_invalid_state}
use azure_sdk_for_c.Span.Progress.{Takes-if_at_end}
use azure_sdk_for_c.Span.{if_at_end◌else◌}

module _ (fp : Doubles) (m : Memory) where
  -- A run that does not go on for longer than the model allows for.
  abbrev Ends : {S A : Type 0} → Outcome S A → Type 0
  Ends hang = ⊥
  Ends o = Unit {0}

  by_pointer-Ends :
      {S : Type 0} (fuel : ℕ) (pointer : Span) (parser : Parser) (token : Token fp.Double) (s : S)
      → pointer.len < fuel
      → Ends (by_pointer_from fp m fuel pointer parser token s)
  unfolding by_pointer_from
  by_pointer-Ends zero pointer parser token s f = absurd (omega arith)
  by_pointer-Ends {S} (suc fuel) pointer parser token s f =
      go (λ pointer' parser' token' h. by_pointer-Ends fuel pointer' parser' token' s h)
        (az_span_reader_read_json_pointer_token m pointer) (pointer_token-Takes m pointer)
    where
      next_step :
          (pointer' : Span)
          → ((parser' : Parser) (token' : Token fp.Double)
              → Ends (by_pointer_from fp m fuel pointer' parser' token' s))
          → (o : Outcome Parser (Token fp.Double)) → Takes left 0 0 parser.reader.len o
          → Ends (
              (elim o as (λ x. Run S (Token fp.Double)) [
                | fault ↦ λ s. fault
                | hang ↦ λ s. hang
                | fail e json_parser' ↦ throw e
                | done token' json_parser' ↦ by_pointer_from fp m fuel pointer' json_parser' token'
              ])
                s)
      next_step pointer' next fault t = tt
      next_step pointer' next hang t = elim t [ ]
      next_step pointer' next (fail e p') t = tt
      next_step pointer' next (done token' p') t = next p' token'

      go :
          ((pointer' : Span) (parser' : Parser) (token' : Token fp.Double)
            → pointer'.len < fuel
            → Ends (by_pointer_from fp m fuel pointer' parser' token' s))
          → (o : Outcome Span Span) → Takes size 1 0 pointer.len o
          → Ends (
              (elim o as (λ x. Run S (Token fp.Double)) [
                | fault ↦ λ s. fault
                | hang ↦ λ s. hang
                | fail e pointer_parser' ↦ when is_not_found e then return token else throw e
                | done pointer_token pointer_parser' ↦
                    elim (az_json_parser_get_by_pointer_token fp m pointer_token token parser)
                      as (λ x. Run S (Token fp.Double)) [
                        | fault ↦ λ s. fault
                        | hang ↦ λ s. hang
                        | fail e json_parser' ↦ throw e
                        | done token' json_parser' ↦
                            by_pointer_from fp m fuel pointer_parser' json_parser' token'
                      ]
              ])
                s)
      go next fault t = tt
      go next hang t = elim t [ ]
      go next (fail item_not_found p') t = tt
      go next (fail _ p') t = tt
      go next (done pt p') t =
          next_step p' (λ parser' token'. next p' parser' token' (omega arith)) _
            (by_token-Takes fp m pt token parser)

  -- What `az_json_parser_parse_token` does at the end: a container is not the whole input, and any
  -- other value is.
  token_end : Token fp.Double → Run Span (Token fp.Double)
  token_end token =
      if_at_end (when is_container fp token then throw eof else return token)
      else (when is_container fp token then return token else throw parser_unexpected_char)

  token_end-Takes :
      (token : Token fp.Double) (n : ℕ) (s : Span)
      → s.len ≤ n
      → Takes size 0 0 n (token_end token s)
  unfolding token_end
  token_end-Takes token n s h =
      Takes-if_at_end 0 0 n (when is_container fp token then throw eof else return token)
        (when is_container fp token then return token else throw parser_unexpected_char) s
        (Takes-when size 0 0 n (is_container fp token) (throw eof) (return token) s (omega arith)
          (omega arith))
        (λ more.
          Takes-when size 0 0 n (is_container fp token) (return token)
            (throw parser_unexpected_char) s (omega arith) (omega arith))

  parse_token-Takes :
      (self : Parser) → Takes left 0 0 self.reader.len (az_json_parser_parse_token fp m self)
  unfolding az_json_parser_parse_token token_end
  parse_token-Takes self =
      let n = self.reader.len in
      let rest : Run Parser (Token fp.Double) =
        on_reader (az_span_reader_skip_json_white_space m)
        >> (az_json_parser_get_value_space fp m >>= λ token. on_reader (token_end token)) in
      parser_check 0 0 n (not (az_json_parser_stack_is_empty self.stack)) json_invalid_state rest
        self (omega arith)
        (Takes-bind left 0 0 0 n (on_reader (az_span_reader_skip_json_white_space m))
          (λ _. az_json_parser_get_value_space fp m >>= λ token. on_reader (token_end token)) self
          (space-Takes m 0 0 n self (omega arith))
          (λ u s1 h1.
            Takes-bind left 0 0 0 n (az_json_parser_get_value_space fp m)
              (λ token. on_reader (token_end token)) s1
              (Takes-later left 1 0 s1.reader.len 0 0 n _ (omega arith) (omega arith) (omega arith)
                (value_space-Takes fp m 0 s1))
              (λ token s2 h2.
                on_reader-Takes 0 0 n (token_end token) s2
                  (token_end-Takes token n s2.reader (omega arith)))))

  parse-Ends :
      {S : Type 0} (json pointer : Span) (s : S)
      → Ends (az_json_parse_by_pointer fp m json pointer s)
  unfolding az_json_parse_by_pointer
  parse-Ends {S} json pointer s =
      go (az_json_parser_parse_token fp m (az_json_parser_init json))
        (parse_token-Takes (az_json_parser_init json))
    where
      go :
          (o : Outcome Parser (Token fp.Double))
          → Takes left 0 0 json.len o
          → Ends (
              (elim o as (λ x. Run S (Token fp.Double)) [
                | fault ↦ λ s. fault
                | hang ↦ λ s. hang
                | fail e json_parser ↦ throw e
                | done token json_parser ↦
                    by_pointer_from fp m (suc pointer.len) pointer json_parser token
              ])
                s)
      go fault t = tt
      go hang t = elim t [ ]
      go (fail e p) t = tt
      go (done token p) t = by_pointer-Ends (suc pointer.len) pointer p token s (omega arith)

  -- The lookup by a pointer ends, whatever the memory, the JSON text and the pointer are: none of
  -- its loops makes more rounds than the bytes that are left for it, and one.
  pub az_json_parse_by_pointer-ends :
      {S : Type 0} (json pointer : Span) (s : S)
      → ¬ (az_json_parse_by_pointer fp m json pointer s ≡ hang)
  az_json_parse_by_pointer-ends json pointer s e = subst Ends e (parse-Ends json pointer s)
