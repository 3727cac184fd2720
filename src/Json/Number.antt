-- ===== src/Json/Number.antt =====
-- The numbers of sdk/core/core/src/az_json_parser.c, up to the conversion to `double`.
use azure_sdk_for_c.Base.{
  ℕ, zero, suc, ◌+◌, ◌-◌, ◌*◌, ◌/◌, ◌%◌, ◌^◌, Bool, true, false, not, ◌||◌, leb, ◌==◌,
  if◌then◌else◌,
}
use azure_sdk_for_c.Double.{DecNumber, Doubles}
use azure_sdk_for_c.Memory.{Memory}
use azure_sdk_for_c.Result.{
  Run, ◌>>=◌, ◌>>◌, when◌then◌else◌, return, throw, eof, parser_unexpected_char, too_long,
}
use azure_sdk_for_c.Span.Read.{isdigit}
use azure_sdk_for_c.Span.{Span, peek, skip, fail_at_end, if_at_end◌else◌}

-- 18 decimal digits
abbrev pub dec_number_max : ℕ
dec_number_max = 999_999_999_999_999_999

unfoldable pub az_json_is_e : ℕ → Bool
az_json_is_e c = c == b'e' || c == b'E'

-- An `int16_t` is its bit pattern: this is -1.
abbrev pub minus_one : ℕ
minus_one = 2 ^ 16 - 1

-- A digit joins the value as long as 18 digits are enough; later ones only count in the exponent.
unfoldable pub add_digit : ℕ → ℕ → DecNumber → DecNumber
add_digit e_offset c n =
    let d = c - b'0' in
    if leb n.value ((dec_number_max - d) / 10)
    then record n { value = (n.value * 10 + d) % 2 ^ 64; exp = (n.exp + e_offset) % 2 ^ 16 }
    else record n { remainder = n.remainder || not (d == 0); exp = (n.exp + e_offset + 1) % 2 ^ 16 }

-- The loop of `az_span_reader_get_json_number_int`, with at most `fuel` rounds.
unfoldable pub number_int_from : Memory → ℕ → ℕ → ℕ → DecNumber → Run Span DecNumber
unfolding add_digit
number_int_from m zero e_offset c n = too_long
number_int_from m (suc fuel) e_offset c n = do
  let n' = add_digit e_offset c n
  skip 1
  if_at_end return n' else (do
    c' ← peek m
    when not (isdigit c') then return n' else number_int_from m fuel e_offset c' n')

-- A round takes a byte.
unfoldable pub az_span_reader_get_json_number_int : Memory → ℕ → ℕ → DecNumber → Run Span DecNumber
unfolding number_int_from
az_span_reader_get_json_number_int m e_offset first n self =
    number_int_from m self.len e_offset first n self

-- The digits of an exponent, with at most `fuel` rounds of the loop.
unfoldable pub exponent_from : Memory → ℕ → ℕ → ℕ → Run Span ℕ
exponent_from m zero c e_int = too_long
exponent_from m (suc fuel) c e_int = do
  let e_int' = (e_int * 10 + (c - b'0')) % 2 ^ 16
  skip 1
  if_at_end return e_int'
      else (do c' ← peek m; when isdigit c' then exponent_from m fuel c' e_int' else return e_int')

-- The digits before the point: a zero stands alone.
unfoldable pub read_magnitude : Memory → Bool → ℕ → Run Span DecNumber
unfolding az_span_reader_get_json_number_int
read_magnitude m negative o =
    let i : DecNumber = record { negative = negative; value = 0; remainder = false; exp = 0 } in
    when not (o == b'0') then az_span_reader_get_json_number_int m 0 o i else (do skip 1; return i)

-- `// integer part`
unfoldable pub read_integer_part : Memory → Run Span DecNumber
unfolding read_magnitude
read_integer_part m = do
  o ← peek m
  when o == b'-'
      then (do
        skip 1
        fail_at_end eof
        o' ← peek m
        when not (isdigit o') then throw parser_unexpected_char else read_magnitude m true o')
      else read_magnitude m false o

-- `// fraction`, where the reader is not at its end
unfoldable pub read_fraction : Memory → DecNumber → Run Span DecNumber
unfolding az_span_reader_get_json_number_int
read_fraction m i = do
  c ← peek m
  when c == b'.'
      then (do
        skip 1
        fail_at_end eof
        o ← peek m
        when not (isdigit o)
            then throw parser_unexpected_char
            else az_span_reader_get_json_number_int m minus_one o i)
      else return i

-- The loop over the digits of an exponent, and `i.exp += e_int * e_sign`.
unfoldable pub read_exponent_digits : Memory → Bool → ℕ → DecNumber → Run Span DecNumber
unfolding exponent_from
read_exponent_digits m minus c i self =
    (do
      when not (isdigit c) then throw parser_unexpected_char else return tt
      e_int ← exponent_from m self.len c 0
      return
          (record i { exp = (if minus then i.exp + (2 ^ 16 - e_int) else i.exp + e_int) % 2 ^ 16 }))
      self

-- `// exp`, where the reader is not at its end
unfoldable pub read_exponent : Memory → DecNumber → Run Span DecNumber
unfolding read_exponent_digits az_json_is_e
read_exponent m i = do
  e ← peek m
  when not (az_json_is_e e) then return i else (do
    skip 1
    fail_at_end eof
    c ← peek m
    when c == b'-' || c == b'+'
        then (do skip 1; fail_at_end eof; c' ← peek m; read_exponent_digits m (c == b'-') c' i)
        else read_exponent_digits m false c i)

-- The decimal number in front of the reader.
unfoldable pub read_dec_number : Memory → Run Span DecNumber
unfolding read_integer_part read_fraction read_exponent
read_dec_number m = do
  i ← read_integer_part m
  if_at_end return i else (do i' ← read_fraction m i; if_at_end return i' else read_exponent m i')

unfoldable pub az_span_reader_get_json_number_digit_rest :
    (fp : Doubles) → Memory → Run Span fp.Double
unfolding read_dec_number
az_span_reader_get_json_number_digit_rest fp m = do
  i ← read_dec_number m
  return (fp.from_decimal i)
