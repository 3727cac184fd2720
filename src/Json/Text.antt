-- ===== src/Json/Text.antt =====
-- sdk/core/core/src/az_json_string.c, and `az_json_builder_write_span` of src/az_json_builder.c:
-- the escape sequences of JSON strings, read and written.
pub mod Escape
pub mod RoundTrip
pub mod Written
use azure_sdk_for_c.Base.{
  ℕ, zero, suc, ◌+◌, ◌*◌, ◌/◌, ◌%◌, ◌^◌, Bool, true, false, not, ◌||◌, ltb, ◌==◌, if◌then◌else◌,
  Bytes, [], ◌∷◌, length,
}
use azure_sdk_for_c.Hex.{az_number_to_upper_hex, az_hex_to_digit}
use azure_sdk_for_c.Memory.{Memory}
use azure_sdk_for_c.Result.{
  Run, Outcome, fault, hang, fail, done, ◌>>=◌, ◌>>◌, when◌then◌else◌, return, throw, Error, eof,
  item_not_found, json_string_end, parser_unexpected_char,
}
use azure_sdk_for_c.Source.{Source, literal, source_len, item_at}
use azure_sdk_for_c.Span.{Span, peek, skip, fail_at_end}
use azure_sdk_for_c.Span.Write.{Target, append_to, fetch}

unfoldable pub az_json_esc_decode : {S : Type 0} → ℕ → Run S ℕ
az_json_esc_decode c =
    when c == b'\\' || c == b'"' || c == b'/'
    then return c
    else when c == b'b'
    then return 0x08
    else when c == b'f'
    then return 0x0c
    else when c == b'n'
    then return 0x0a
    else when c == b'r'
    then return 0x0d
    else when c == b't'
    then return 0x09
    else throw parser_unexpected_char

-- The empty span is returned for a byte that has no short escape sequence.
unfoldable pub az_json_esc_encode : ℕ → Bytes
az_json_esc_encode c =
    if c == b'\\'
    then b'\\' ∷ b'\\' ∷ []
    else if c == b'"'
    then b'\\' ∷ b'"' ∷ []
    else if c == 0x08
    then b'\\' ∷ b'b' ∷ []
    else if c == 0x0c
    then b'\\' ∷ b'f' ∷ []
    else if c == 0x0a
    then b'\\' ∷ b'n' ∷ []
    else if c == 0x0d
    then b'\\' ∷ b'r' ∷ []
    else if c == 0x09
    then b'\\' ∷ b't' ∷ []
    else []

-- The loop over the four digits of `\u`, with `n` rounds left.
unfoldable pub read_hex_digits : Memory → ℕ → ℕ → Run Span ℕ
read_hex_digits m zero r = return r
read_hex_digits m (suc n) r = do
  fail_at_end eof
  c ← peek m
  digit ← az_hex_to_digit c
  skip 1
  read_hex_digits m n ((r * 2 ^ 4 + digit) % 2 ^ 32)

unfoldable pub az_span_reader_read_json_string_char : Memory → Run Span ℕ
az_span_reader_read_json_string_char m = do
  fail_at_end item_not_found
  result ← peek m
  when result == b'"'
      then throw json_string_end
      else when result == b'\\'
      then (do
        skip 1
        fail_at_end eof
        c ← peek m
        skip 1
        when c == b'u' then read_hex_digits m 4 0 else az_json_esc_decode c)
      else when ltb result 0x20
      then throw parser_unexpected_char
      else (do skip 1; return result)

-- The six bytes of `\u00XX`.
abbrev pub unicode_escape : ℕ → Bytes
unicode_escape c =
    b'\\'
    ∷ b'u'
    ∷ b'0'
    ∷ b'0'
    ∷ az_number_to_upper_hex (c / 16)
    ∷ az_number_to_upper_hex (c % 16)
    ∷ []

-- One round of the loop of `az_json_builder_write_span`; `continue` goes on to the next.
unfoldable pub write_char : Source → ℕ → ℕ → Run Target (Unit {0})
write_char value i c =
    let esc = az_json_esc_encode c in
    when not (length esc == 0)
    then append_to (literal esc)
    else when ltb c 0x20
    then append_to (literal (unicode_escape c))
    else append_to (item_at value i)

unfoldable pub write_chars : Source → ℕ → ℕ → Run Target (Unit {0})
write_chars value zero i = return tt
write_chars value (suc n) i = do
  c ← fetch value i
  write_char value i c
  write_chars value n (suc i)

unfoldable pub az_json_builder_write_span : Source → Run Target (Unit {0})
az_json_builder_write_span value = do
  append_to (literal (b'"' ∷ []))
  write_chars value (source_len value) 0
  append_to (literal (b'"' ∷ []))
