-- ===== src/Span/Decimal.antt =====
-- `az_span_append_uint64` and `az_span_append_int64` of sdk/core/core/src/az_span.c.
pub mod Digits
pub mod Print
pub mod RoundTrip
use azure_sdk_for_c.Base.{
  ℕ, zero, suc, ◌+◌, ◌*◌, ◌/◌, ◌%◌, ◌^◌, Bool, true, false, ltb, ◌==◌, [], ◌∷◌,
}
use azure_sdk_for_c.Base.Int.{ℤ, pos, negsuc}
use azure_sdk_for_c.Result.{
  Run, Outcome, fault, hang, fail, done, ◌>>=◌, ◌>>◌, when◌then◌else◌, return, too_long,
}
use azure_sdk_for_c.Source.{literal}
use azure_sdk_for_c.Span.Write.{Target, append_to}

-- `'0' + d`, on a `uint8_t`
unfoldable pub az_decimal_to_ascii : ℕ → ℕ
az_decimal_to_ascii d = (b'0' + d) % 256

-- `while (nn / div == 0) { div /= 10; }`, with at most the given number of tests
unfoldable pub find_divisor : {S : Type 0} → ℕ → ℕ → ℕ → Run S ℕ
find_divisor zero nn div = too_long
find_divisor (suc fuel) nn div =
    when nn / div == 0 then find_divisor fuel nn (div / 10) else return div

-- `az_span_append(*self, az_span_init(&value_to_append, 1, 1), self)`
abbrev pub append_digit : ℕ → Run Target (Unit {0})
append_digit d = append_to (literal (az_decimal_to_ascii (d % 256) ∷ []))

-- `while (div > 1)` and what follows it
unfoldable pub append_digits : ℕ → ℕ → ℕ → Run Target (Unit {0})
append_digits zero nn div = too_long
append_digits (suc fuel) nn div =
    when ltb 1 div
    then (do append_digit (nn / div); append_digits fuel (nn % div) (div / 10))
    else append_digit nn

-- A `uint64_t` has at most 20 digits.
abbrev pub rounds : ℕ
rounds = 20

unfoldable pub az_span_builder_append_uint64 : ℕ → Run Target (Unit {0})
az_span_builder_append_uint64 n =
    when n == 0
    then append_to (literal (b'0' ∷ []))
    else (do div ← find_divisor rounds n 10_000_000_000_000_000_000; append_digits rounds n div)

unfoldable pub az_span_append_uint64 : ℕ → Run Target (Unit {0})
az_span_append_uint64 n = az_span_builder_append_uint64 n

-- `-n` is the number that `negsuc` counts from 1.
unfoldable pub az_span_append_int64 : ℤ → Run Target (Unit {0})
az_span_append_int64 (pos n) = az_span_builder_append_uint64 n
az_span_append_int64 (negsuc k) = do
  append_to (literal (b'-' ∷ []))
  az_span_builder_append_uint64 (suc k)
