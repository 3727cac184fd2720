-- ===== src/Double.antt =====
-- Floating point numbers, which stand outside of the model: what the code does with a `double`.
use azure_sdk_for_c.Base.{ℕ, Bool}

-- `az_dec_number` of sdk/core/core/src/az_json_parser.c. The exponent is an `int16_t`, kept as its
-- bit pattern below 2 ^ 16; the sign is -1 if `negative`, else 1.
pub record DecNumber : Type 0 where
  pub negative : Bool
  pub value : ℕ
  pub remainder : Bool
  pub exp : ℕ

-- `from_decimal` is `az_json_number_to_double`, which multiplies by a power that <math.h> computes.
-- The others are `value == 0`, `value < 0`, `-value`, the conversion to `uint64_t`, the test
-- `value == (double)u`, and `value < 0.001`.
pub record Doubles : Type 1 where
  pub Double : Type 0
  pub from_decimal : DecNumber → Double
  pub is_zero : Double → Bool
  pub is_negative : Double → Bool
  pub negate : Double → Double
  pub to_uint64 : Double → ℕ
  pub equals_uint64 : Double → ℕ → Bool
