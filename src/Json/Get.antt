-- ===== src/Json/Get.antt =====
-- sdk/core/core/src/az_json_get.c: the value that a JSON pointer refers to.
use azure_sdk_for_c.Base.{ℕ, zero, suc, ◌-◌, Bool, true, false, not, ◌&&◌, ◌==◌}
use azure_sdk_for_c.Double.{Doubles}
use azure_sdk_for_c.Json.Parser.{
  Parser, az_json_parser_init, az_json_parser_parse_token, az_json_parser_parse_token_member,
  az_json_parser_parse_array_item,
}
use azure_sdk_for_c.Json.Pointer.{
  az_span_reader_read_json_pointer_token, az_span_reader_read_json_pointer_token_char,
}
use azure_sdk_for_c.Json.Skip.{az_json_parser_skip_children}
use azure_sdk_for_c.Json.Text.{az_span_reader_read_json_string_char}
use azure_sdk_for_c.Json.Token.{Token, object, array}
use azure_sdk_for_c.Memory.{Memory}
use azure_sdk_for_c.Result.{
  Run, fault, hang, fail, done, ◌>>=◌, ◌>>◌, when◌then◌else◌, return, throw, too_long, Error,
  item_not_found,
}
use azure_sdk_for_c.Source.{at}
use azure_sdk_for_c.Span.Read.{az_span_to_uint64}
use azure_sdk_for_c.Span.{Span}

abbrev pub is_not_found : Error → Bool
is_not_found item_not_found = true
is_not_found e = false

-- Both readers are read before their results are looked at.
unfoldable pub eq_from : {S : Type 0} → Memory → ℕ → Span → Span → Run S Bool
eq_from m zero pt_reader js_reader = too_long
eq_from m (suc fuel) pt_reader js_reader =
    elim (az_span_reader_read_json_pointer_token_char m pt_reader) [
      | fault ↦ λ s. fault
      | hang ↦ λ s. hang
      | fail pt_e pt_reader' ↦ elim (az_span_reader_read_json_string_char m js_reader) [
        | fault ↦ λ s. fault
        | hang ↦ λ s. hang
        | fail js_e js_reader' ↦ return (is_not_found js_e && is_not_found pt_e)
        | done js_c js_reader' ↦ return false
      ]
      | done pt_c pt_reader' ↦ elim (az_span_reader_read_json_string_char m js_reader) [
        | fault ↦ λ s. fault
        | hang ↦ λ s. hang
        | fail js_e js_reader' ↦ return false
        | done js_c js_reader' ↦
            when not (pt_c == js_c) then return false else eq_from m fuel pt_reader' js_reader'
      ]
    ]

-- A round that goes on takes a byte of the token.
unfoldable pub az_json_pointer_token_eq_json_string :
    {S : Type 0} → Memory → Span → Span → Run S Bool
unfolding eq_from
az_json_pointer_token_eq_json_string m pointer_token json_string =
    eq_from m (suc pointer_token.len) pointer_token json_string

module _ (fp : Doubles) where
  -- `case AZ_JSON_TOKEN_ARRAY`: the item with the index `i`, with at most `fuel` rounds.
  unfoldable pub get_item_from : Memory → ℕ → ℕ → Run Parser (Token fp.Double)
  unfolding az_json_parser_skip_children
  get_item_from m zero i = too_long
  get_item_from m (suc fuel) i = do
    token ← az_json_parser_parse_array_item fp m
    when i == 0
        then return token
        else (do az_json_parser_skip_children fp m token; get_item_from m fuel (i - 1))

  -- `case AZ_JSON_TOKEN_OBJECT`: the member with the name, with at most `fuel` rounds.
  unfoldable pub get_member_from : Memory → ℕ → Span → Run Parser (Token fp.Double)
  unfolding az_json_parser_skip_children az_json_pointer_token_eq_json_string
  get_member_from m zero pointer_token = too_long
  get_member_from m (suc fuel) pointer_token = do
    member ← az_json_parser_parse_token_member fp m
    found ← az_json_pointer_token_eq_json_string m pointer_token member.name
    when found then return member.token else (do
      az_json_parser_skip_children fp m member.token
      get_member_from m fuel pointer_token)

  -- A round that goes on takes a byte.
  unfoldable pub az_json_parser_get_by_pointer_token :
      Memory → Span → Token fp.Double → Run Parser (Token fp.Double)
  unfolding get_item_from get_member_from
  az_json_parser_get_by_pointer_token m pointer_token array = do
    i ← az_span_to_uint64 m (at pointer_token)
    (λ self. get_item_from m (suc self.reader.len) i self)
  az_json_parser_get_by_pointer_token m pointer_token object =
      λ self. get_member_from m (suc self.reader.len) pointer_token self
  az_json_parser_get_by_pointer_token m pointer_token _ = throw item_not_found

  -- The loop of `az_json_parse_by_pointer`: the pointer's reader, the parser and the token.
  unfoldable pub by_pointer_from :
      {S : Type 0} → Memory → ℕ → Span → Parser → Token fp.Double → Run S (Token fp.Double)
  unfolding az_json_parser_get_by_pointer_token
  by_pointer_from m zero pointer_parser json_parser token = too_long
  by_pointer_from m (suc fuel) pointer_parser json_parser token =
      elim (az_span_reader_read_json_pointer_token m pointer_parser) [
        | fault ↦ λ s. fault
        | hang ↦ λ s. hang
        | fail e pointer_parser' ↦ when is_not_found e then return token else throw e
        | done pointer_token pointer_parser' ↦
            elim (az_json_parser_get_by_pointer_token m pointer_token token json_parser) [
              | fault ↦ λ s. fault
              | hang ↦ λ s. hang
              | fail e json_parser' ↦ throw e
              | done token' json_parser' ↦
                  by_pointer_from m fuel pointer_parser' json_parser' token'
            ]
      ]

  -- A round that goes on takes a byte of the pointer.
  unfoldable pub az_json_parse_by_pointer :
      {S : Type 0} → Memory → Span → Span → Run S (Token fp.Double)
  unfolding by_pointer_from az_json_parser_parse_token
  az_json_parse_by_pointer m json pointer =
      elim (az_json_parser_parse_token fp m (az_json_parser_init json)) [
        | fault ↦ λ s. fault
        | hang ↦ λ s. hang
        | fail e json_parser ↦ throw e
        | done token json_parser ↦ by_pointer_from m (suc pointer.len) pointer json_parser token
      ]
