-- ===== src/Json/Builder.antt =====
-- sdk/core/core/src/az_json_builder.c, and `az_span_append_double` of src/az_span.c. A `Target` is
-- the `json` span of a builder with the memory it points into.
pub mod Writes
pub mod Items
pub mod Values
use azure_sdk_for_c.Base.{
  ℕ, zero, suc, ◌+◌, ◌*◌, ◌/◌, ◌%◌, ◌^◌, Bool, true, false, leb, Bytes, [], ◌∷◌,
}
use azure_sdk_for_c.Double.{Doubles}
use azure_sdk_for_c.Json.Text.{az_json_builder_write_span}
use azure_sdk_for_c.Json.Token.{Token, null, boolean, number, string, object, array, span}
use azure_sdk_for_c.Result.{
  Run, fault, hang, fail, done, ◌>>=◌, ◌>>◌, when◌then◌else◌, return, throw, too_long,
  not_implemented,
}
use azure_sdk_for_c.Source.{Source, at, literal}
use azure_sdk_for_c.Span.Write.{Target, append_to}

-- The `base` of the highest digit: `while (10 <= i) { i /= 10; base *= 10; }`, with at most `fuel`
-- tests.
unfoldable pub find_base : {S : Type 0} → ℕ → ℕ → ℕ → Run S ℕ
find_base zero i base = too_long
find_base (suc fuel) i base =
    when leb 10 i then find_base fuel (i / 10) (base * 10 % 2 ^ 64) else return base

-- `do { … } while (1 <= base)`, with at most `fuel` rounds
unfoldable pub double_digits : ℕ → ℕ → ℕ → Run Target (Unit {0})
double_digits zero u base = too_long
double_digits (suc fuel) u base = do
  append_to (literal (((u / base) % 256 + b'0') % 256 ∷ []))
  when leb 1 (base / 10) then double_digits fuel (u % base) (base / 10) else return tt

-- A `uint64_t` has at most 20 digits.
abbrev pub double_rounds : ℕ
double_rounds = 20

module _ (fp : Doubles) where
  -- The digits of a number that is a `uint64_t`; no other is implemented.
  unfoldable pub append_magnitude : fp.Double → Run Target (Unit {0})
  unfolding find_base double_digits
  append_magnitude value =
      let u = fp.to_uint64 value in
      when fp.equals_uint64 value u
      then (do base ← find_base double_rounds u 1; double_digits double_rounds u base)
      else throw not_implemented

  -- `az_span_append_double(*json, value, json)`
  unfoldable pub az_span_append_double : fp.Double → Run Target (Unit {0})
  unfolding append_magnitude
  az_span_append_double value =
      when fp.is_zero value
      then append_to (literal (b'0' ∷ []))
      else when fp.is_negative value
      then (do append_to (literal (b'-' ∷ [])); append_magnitude (fp.negate value))
      else append_magnitude value

-- `az_json_builder`
pub record Builder : Type 0 where
  pub json : Target
  pub need_comma : Bool

-- A run on the `json` span of a builder.
abbrev pub on_json : Run Target (Unit {0}) → Run Builder (Unit {0})
on_json run self = elim (run self.json) [
  | fault ↦ fault
  | hang ↦ hang
  | fail e json ↦ fail e (record self { json = json })
  | done u json ↦ done tt (record self { json = json })
]

-- `self->_internal.need_comma = value;`
abbrev pub set_need_comma : Bool → Run Builder (Unit {0})
set_need_comma value self = done tt (record self { need_comma = value })

unfoldable pub az_json_builder_append_str : Source → Run Target (Unit {0})
az_json_builder_append_str value = do
  append_to (literal (b'"' ∷ []))
  append_to value
  append_to (literal (b'"' ∷ []))

abbrev pub bool_text : Bool → Bytes
bool_text true = b't' ∷ b'r' ∷ b'u' ∷ b'e' ∷ []
bool_text false = b'f' ∷ b'a' ∷ b'l' ∷ b's' ∷ b'e' ∷ []

module _ (fp : Doubles) where
  -- The `switch` of `az_json_builder_append_token`: the flag it sets, and the text.
  unfoldable pub token_needs_comma : Token fp.Double → Bool
  token_needs_comma object = false
  token_needs_comma array = false
  token_needs_comma _ = true

  unfoldable pub append_token_text : Token fp.Double → Run Target (Unit {0})
  unfolding az_json_builder_append_str az_span_append_double
  append_token_text null = append_to (literal (b'n' ∷ b'u' ∷ b'l' ∷ b'l' ∷ []))
  append_token_text (boolean b) = append_to (literal (bool_text b))
  append_token_text (string s) = az_json_builder_append_str (at s)
  append_token_text (number d) = az_span_append_double fp d
  append_token_text object = append_to (literal (b'{' ∷ []))
  append_token_text array = append_to (literal (b'[' ∷ []))
  append_token_text (span s) = az_json_builder_write_span (at s)

  unfoldable pub az_json_builder_append_token : Token fp.Double → Run Builder (Unit {0})
  unfolding append_token_text token_needs_comma
  az_json_builder_append_token token = do
    set_need_comma (token_needs_comma token)
    on_json (append_token_text token)

unfoldable pub az_json_builder_write_comma : Run Builder (Unit {0})
az_json_builder_write_comma self =
    (when self.need_comma then on_json (append_to (literal (b',' ∷ []))) else return tt) self

module _ (fp : Doubles) where
  unfoldable pub az_json_builder_append_object : Source → Token fp.Double → Run Builder (Unit {0})
  unfolding az_json_builder_write_comma az_json_builder_append_token
  az_json_builder_append_object name token = do
    az_json_builder_write_comma
    on_json (az_json_builder_append_str name)
    on_json (append_to (literal (b':' ∷ [])))
    az_json_builder_append_token fp token

  unfoldable pub az_json_builder_append_array_item : Token fp.Double → Run Builder (Unit {0})
  unfolding az_json_builder_write_comma az_json_builder_append_token
  az_json_builder_append_array_item token = do
    az_json_builder_write_comma
    az_json_builder_append_token fp token

unfoldable pub az_json_builder_write_close : Bytes → Run Builder (Unit {0})
az_json_builder_write_close close = do on_json (append_to (literal close)); set_need_comma true

unfoldable pub az_json_builder_append_object_close : Run Builder (Unit {0})
unfolding az_json_builder_write_close
az_json_builder_append_object_close = az_json_builder_write_close (b'}' ∷ [])

unfoldable pub az_json_builder_append_array_close : Run Builder (Unit {0})
unfolding az_json_builder_write_close
az_json_builder_append_array_close = az_json_builder_write_close (b']' ∷ [])
