-- ===== src/Hex.antt =====
-- sdk/core/core/src/az_hex_private.h, and `az_hex_to_digit` of src/az_json_string.c.
use azure_sdk_for_c.Base.{ℕ, ◌+◌, ◌-◌, ◌%◌, ◌<◌, ◌≤◌, leb, ltb, ◌&&◌, if◌then◌else◌, ◌≡◌, arith}
use azure_sdk_for_c.Result.{Run, done, when◌then◌else◌, return, throw, parser_unexpected_char}
use azure_sdk_for_c.Span.Read.{isdigit}

abbrev pub hex_lower_offset : ℕ
hex_lower_offset = b'a' - 10

abbrev pub hex_upper_offset : ℕ
hex_upper_offset = b'A' - 10

unfoldable pub az_number_to_upper_hex : ℕ → ℕ
az_number_to_upper_hex number = (number + (if ltb number 10 then b'0' else hex_upper_offset)) % 256

unfoldable pub az_hex_to_digit : {S : Type 0} → ℕ → Run S ℕ
az_hex_to_digit c =
    when isdigit c
    then return (c - b'0')
    else when leb b'a' c && leb c b'f'
    then return (c - hex_lower_offset)
    else when leb b'A' c && leb c b'F'
    then return (c - hex_upper_offset)
    else throw parser_unexpected_char

-- A digit that was written is read back.
pub az_hex_to_digit-az_number_to_upper_hex :
    {S : Type 0} (d : ℕ) (s : S) → d < 16 → az_hex_to_digit (az_number_to_upper_hex d) s ≡ done d s
unfolding az_hex_to_digit az_number_to_upper_hex
az_hex_to_digit-az_number_to_upper_hex d s h = ground arith

-- An upper case hexadecimal digit.
pub az_number_to_upper_hex_bounds :
    (d : ℕ) → d < 16 → (b'0' ≤ az_number_to_upper_hex d) × (az_number_to_upper_hex d ≤ b'F')
unfolding az_number_to_upper_hex
az_number_to_upper_hex_bounds d h = ground arith
