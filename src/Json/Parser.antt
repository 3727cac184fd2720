-- ===== src/Json/Parser.antt =====
-- sdk/core/core/src/az_json_parser.c: the pull parser. Null pointer arguments are not modelled, and
-- an out parameter is the value of the run, which there is on success only.
use azure_sdk_for_c.Base.{
  ℕ, zero, suc, ◌-◌, Bool, true, false, not, ◌||◌, ◌==◌, if◌then◌else◌, Bytes, [], ◌∷◌,
}
use azure_sdk_for_c.Double.{Doubles}
use azure_sdk_for_c.Json.Number.{az_span_reader_get_json_number_digit_rest}
use azure_sdk_for_c.Json.Stack.{
  StackItem, stack_object, stack_array, az_json_parser_stack_is_empty, az_json_parser_stack_last,
  az_json_parser_push_stack, az_json_stack_pop,
}
use azure_sdk_for_c.Json.Text.{az_span_reader_read_json_string_char}
use azure_sdk_for_c.Json.Token.{Token, null, boolean, number, string, object, array, TokenMember}
use azure_sdk_for_c.Memory.{Memory}
use azure_sdk_for_c.Result.{
  Run, fault, hang, fail, done, ◌>>=◌, ◌>>◌, when◌then◌else◌, return, throw, too_long, Error, eof,
  item_not_found, json_string_end, json_invalid_state, parser_unexpected_char,
}
use azure_sdk_for_c.Span.Read.{isdigit, az_is_expected_span}
use azure_sdk_for_c.Span.{Span, az_span_init, peek, skip, at_end, fail_at_end, if_at_end◌else◌}

unfoldable pub az_json_is_white_space : ℕ → Bool
az_json_is_white_space c = c == b' ' || c == b'\t' || c == b'\n' || c == b'\r'

-- The loop of `az_span_reader_skip_json_white_space`, with at most `fuel` rounds.
unfoldable pub skip_white_space_from : Memory → ℕ → Run Span (Unit {0})
unfolding az_json_is_white_space
skip_white_space_from m zero = too_long
skip_white_space_from m (suc fuel) = do
  c ← peek m
  when not (az_json_is_white_space c)
      then return tt
      else (do skip 1; if_at_end return tt else skip_white_space_from m fuel)

-- A round takes a byte.
unfoldable pub az_span_reader_skip_json_white_space : Memory → Run Span (Unit {0})
unfolding skip_white_space_from
az_span_reader_skip_json_white_space m self = elim (at_end self) [
  | true ↦ done tt self
  | false ↦ skip_white_space_from m self.len self
]

-- What the loop below does with an error of the character reader: at the quote the string ends.
unfoldable pub string_ends : ℕ → ℕ → Error → Run Span Span
string_ends p_reader reader_initial_length json_string_end self =
    let read_count = reader_initial_length - self.capacity in
    (do skip 1; return (az_span_init p_reader read_count read_count)) self
string_ends p_reader reader_initial_length item_not_found self = fail eof self
string_ends p_reader reader_initial_length e self = fail e self

-- The loop of `az_span_reader_get_json_string_rest`, with at most `fuel` rounds.
unfoldable pub string_rest_from : Memory → ℕ → ℕ → ℕ → Run Span Span
string_rest_from m zero p_reader reader_initial_length self = hang
string_rest_from m (suc fuel) p_reader reader_initial_length self =
    elim (az_span_reader_read_json_string_char m self) [
      | fault ↦ fault
      | hang ↦ hang
      | fail e self' ↦ string_ends p_reader reader_initial_length e self'
      | done c self' ↦ string_rest_from m fuel p_reader reader_initial_length self'
    ]

-- A round that goes on takes a byte, and the last one none.
unfoldable pub az_span_reader_get_json_string_rest : Memory → Run Span Span
unfolding string_rest_from string_ends
az_span_reader_get_json_string_rest m self =
    string_rest_from m (suc self.len) self.ptr self.capacity self

pub record Parser : Type 0 where
  pub reader : Span
  pub stack : ℕ

abbrev pub az_json_parser_init : Span → Parser
az_json_parser_init json_buffer = record { reader = json_buffer; stack = 1 }

-- A run on the reader of a parser, and one on its stack.
abbrev pub on_reader : {A : Type 0} → Run Span A → Run Parser A
on_reader run self = elim (run self.reader) [
  | fault ↦ fault
  | hang ↦ hang
  | fail e reader ↦ fail e (record self { reader = reader })
  | done a reader ↦ done a (record self { reader = reader })
]

abbrev pub on_stack : (ℕ → Run (Unit {0}) ℕ) → Run Parser (Unit {0})
on_stack run self = elim (run self.stack tt) [
  | fault ↦ fault
  | hang ↦ hang
  | fail e u ↦ fail e self
  | done stack u ↦ done tt (record self { stack = stack })
]

abbrev pub push_stack : StackItem → Run Parser (Unit {0})
push_stack item = on_stack (az_json_parser_push_stack item)

abbrev pub az_json_parser_pop_stack : Run Parser (Unit {0})
az_json_parser_pop_stack = on_stack az_json_stack_pop

unfoldable pub az_json_stack_item_to_close : StackItem → ℕ
az_json_stack_item_to_close stack_object = b'}'
az_json_stack_item_to_close stack_array = b']'

abbrev pub true_text : Bytes
true_text = b't' ∷ b'r' ∷ b'u' ∷ b'e' ∷ []

abbrev pub false_text : Bytes
false_text = b'f' ∷ b'a' ∷ b'l' ∷ b's' ∷ b'e' ∷ []

abbrev pub null_text : Bytes
null_text = b'n' ∷ b'u' ∷ b'l' ∷ b'l' ∷ []

-- `self` is read first: `az_span_ptr(*p_reader)[0]` behind a comma or the end of an item.
unfoldable pub az_json_parser_read_comma_or_close : Memory → Run Parser (Unit {0})
unfolding az_span_reader_skip_json_white_space az_json_stack_item_to_close
az_json_parser_read_comma_or_close m = do
  c ← on_reader (peek m)
  when c == b','
      then (do on_reader (skip 1); on_reader (az_span_reader_skip_json_white_space m))
      else (λ self.
          (when not (c == az_json_stack_item_to_close (az_json_parser_stack_last self.stack))
              then throw parser_unexpected_char
              else return tt)
            self)

unfoldable pub is_same_item : StackItem → StackItem → Bool
is_same_item stack_object stack_object = true
is_same_item stack_array stack_array = true
is_same_item _ _ = false

unfoldable pub az_json_parser_check_item_begin : Memory → StackItem → Run Parser (Unit {0})
unfolding az_json_parser_read_comma_or_close is_same_item
az_json_parser_check_item_begin m stack_item = do
  (λ self.
      (when az_json_parser_stack_is_empty self.stack
            || not (is_same_item (az_json_parser_stack_last self.stack) stack_item)
          then throw json_invalid_state
          else return tt)
        self)
  on_reader (fail_at_end eof)
  c ← on_reader (peek m)
  when not (c == az_json_stack_item_to_close stack_item) then return tt else (do
    az_json_parser_pop_stack
    on_reader (skip 1)
    on_reader (az_span_reader_skip_json_white_space m)
    (λ self.
        (when not (az_json_parser_stack_is_empty self.stack)
            then az_json_parser_read_comma_or_close m
            else return tt)
          self)
    throw item_not_found)

unfoldable pub az_json_parser_done : Run Parser (Unit {0})
az_json_parser_done self =
    (when not (self.reader.len == 0) || not (az_json_parser_stack_is_empty self.stack)
        then throw json_invalid_state
        else return tt)
      self

module _ (fp : Doubles) where
  -- The `switch` of `az_json_parser_get_value` on a byte that is no digit.
  unfoldable pub value_from : Memory → ℕ → Run Parser (Token fp.Double)
  unfolding az_span_reader_get_json_string_rest az_span_reader_get_json_number_digit_rest
      az_is_expected_span
  value_from m c =
      when c == b't'
      then (do on_reader (az_is_expected_span m true_text); return (boolean true))
      else when c == b'f'
      then (do on_reader (az_is_expected_span m false_text); return (boolean false))
      else when c == b'n'
      then (do on_reader (az_is_expected_span m null_text); return null)
      else when c == b'"'
      then (do
        on_reader (skip 1)
        s ← on_reader (az_span_reader_get_json_string_rest m)
        return (string s))
      else when c == b'-'
      then (do n ← on_reader (az_span_reader_get_json_number_digit_rest fp m); return (number n))
      else when c == b'{'
      then (do on_reader (skip 1); push_stack stack_object; return object)
      else when c == b'['
      then (do on_reader (skip 1); push_stack stack_array; return array)
      else throw parser_unexpected_char

  unfoldable pub az_json_parser_get_value : Memory → Run Parser (Token fp.Double)
  unfolding value_from
  az_json_parser_get_value m = do
    on_reader (fail_at_end eof)
    c ← on_reader (peek m)
    when isdigit c
        then (do n ← on_reader (az_span_reader_get_json_number_digit_rest fp m); return (number n))
        else value_from m c

  unfoldable pub az_json_parser_get_value_space : Memory → Run Parser (Token fp.Double)
  unfolding az_json_parser_get_value
  az_json_parser_get_value_space m = do
    token ← az_json_parser_get_value m
    on_reader (if_at_end return tt else az_span_reader_skip_json_white_space m)
    return token

  -- `case AZ_JSON_TOKEN_ARRAY: case AZ_JSON_TOKEN_OBJECT:`
  abbrev pub is_container : Token fp.Double → Bool
  is_container array = true
  is_container object = true
  is_container _ = false

  unfoldable pub az_json_parser_parse_token : Memory → Run Parser (Token fp.Double)
  unfolding az_json_parser_get_value_space
  az_json_parser_parse_token m = do
    (λ self.
        (when not (az_json_parser_stack_is_empty self.stack)
            then throw json_invalid_state
            else return tt)
          self)
    on_reader (az_span_reader_skip_json_white_space m)
    token ← az_json_parser_get_value_space m
    on_reader (
        if_at_end (when is_container token then throw eof else return token)
        else (when is_container token then return token else throw parser_unexpected_char))

  unfoldable pub az_json_parser_check_item_end : Memory → Token fp.Double → Run Parser (Unit {0})
  unfolding az_json_parser_read_comma_or_close
  az_json_parser_check_item_end m value =
      when is_container value then return tt else az_json_parser_read_comma_or_close m

  unfoldable pub az_json_parser_parse_token_member : Memory → Run Parser (TokenMember fp.Double)
  unfolding az_json_parser_check_item_begin az_json_parser_get_value_space
      az_json_parser_check_item_end
  az_json_parser_parse_token_member m = do
    az_json_parser_check_item_begin m stack_object
    on_reader (az_is_expected_span m (b'"' ∷ []))
    name ← on_reader (az_span_reader_get_json_string_rest m)
    on_reader (az_span_reader_skip_json_white_space m)
    on_reader (az_is_expected_span m (b':' ∷ []))
    on_reader (az_span_reader_skip_json_white_space m)
    token ← az_json_parser_get_value_space m
    az_json_parser_check_item_end m token
    return (record { name = name; token = token })

  unfoldable pub az_json_parser_parse_array_item : Memory → Run Parser (Token fp.Double)
  unfolding az_json_parser_check_item_begin az_json_parser_get_value_space
      az_json_parser_check_item_end
  az_json_parser_parse_array_item m = do
    az_json_parser_check_item_begin m stack_array
    token ← az_json_parser_get_value_space m
    az_json_parser_check_item_end m token
    return token
