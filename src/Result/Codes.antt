-- ===== src/Result/Codes.antt =====
-- The numbers behind `enum az_result`: the code tells failures apart by comparing them.
use mathlib.Core.Option.{some-injective}
use azure_sdk_for_c.Base.{
  ℕ, Bool, true, false, if◌then◌else◌, ◌==◌, ◌≡◌, refl, sym, ap, ◌∙◌, Option, some, none, List, [],
  ◌∷◌,
}
use azure_sdk_for_c.Result.{
  arg, buffer_overflow, out_of_memory, not_implemented, item_not_found, parser_unexpected_char, eof,
  json_invalid_state, json_nesting_overflow, json_string_end, json_pointer_token_end, http_pal,
  http_invalid_state, http_pipeline_invalid_policy, http_invalid_method_verb,
  http_authentication_failed, http_response_overflow, http_response_couldnt_resolve_host, az_ok,
  az_continue, AzResult, success, failure, result_code, az_failed,
}

abbrev all_results : List AzResult
all_results =
    success az_ok
    ∷ success az_continue
    ∷ failure arg
    ∷ failure buffer_overflow
    ∷ failure out_of_memory
    ∷ failure not_implemented
    ∷ failure item_not_found
    ∷ failure parser_unexpected_char
    ∷ failure eof
    ∷ failure json_invalid_state
    ∷ failure json_nesting_overflow
    ∷ failure json_string_end
    ∷ failure json_pointer_token_end
    ∷ failure http_pal
    ∷ failure http_invalid_state
    ∷ failure http_pipeline_invalid_policy
    ∷ failure http_invalid_method_verb
    ∷ failure http_authentication_failed
    ∷ failure http_response_overflow
    ∷ failure http_response_couldnt_resolve_host
    ∷ []

from_code : List AzResult → ℕ → Option AzResult
from_code [] n = none
from_code (r ∷ rs) n = if result_code r == n then some r else from_code rs n

from_code-result_code : (r : AzResult) → from_code all_results (result_code r) ≡ some r
unfolding from_code result_code
from_code-result_code (success az_ok) = refl
from_code-result_code (success _) = refl
from_code-result_code (failure arg) = refl
from_code-result_code (failure _) = refl

abbrev pub is_failure : AzResult → Bool
is_failure (success s) = false
is_failure (failure e) = true

az_failed-result_code : (r : AzResult) → az_failed (result_code r) ≡ is_failure r
unfolding result_code az_failed
az_failed-result_code (success az_ok) = refl
az_failed-result_code (success _) = refl
az_failed-result_code (failure arg) = refl
az_failed-result_code (failure _) = refl

-- Two results with the same code are the same, and `az_failed` holds of the code exactly if it is
-- the code of an error.
pub result_code_faithful :
    (a b : AzResult)
    → result_code a ≡ result_code b
    → (a ≡ b) × (az_failed (result_code a) ≡ is_failure b)
result_code_faithful a b e = (
  some-injective _ _
      (sym (from_code-result_code a) ∙ ap (from_code all_results) e ∙ from_code-result_code b),
  ap az_failed e ∙ az_failed-result_code b,
)
