-- ===== src/Result.antt =====
-- sdk/core/core/inc/az_result.h: result codes, and the outcome of a call that keeps a state.
pub mod Codes
pub mod Preserves
pub mod Ensures
pub mod Progress
use azure_sdk_for_c.Base.{ℕ, ◌+◌, ◌*◌, ◌^◌, Bool, true, false, not, ◌==◌, ◌≡◌, refl, fun_ext}
use Prim.Native.Nat.{bit_and, bit_or}

-- The members of `enum az_result` that have the error flag.
pub data Error : Type 0 where
  arg buffer_overflow out_of_memory not_implemented : Error
  item_not_found parser_unexpected_char eof : Error
  json_invalid_state json_nesting_overflow json_string_end json_pointer_token_end : Error
  http_pal http_invalid_state http_pipeline_invalid_policy http_invalid_method_verb : Error
  http_authentication_failed http_response_overflow http_response_couldnt_resolve_host : Error

-- Those that have not: `AZ_OK` and `AZ_CONTINUE`.
pub data Success : Type 0 where
  az_ok az_continue : Success

pub data AzResult : Type 0 where
  success : Success → AzResult
  failure : Error → AzResult

abbrev pub facility_core : ℕ
facility_core = 0x1

abbrev pub facility_json : ℕ
facility_json = 0x2

abbrev pub facility_http : ℕ
facility_http = 0x3

abbrev pub facility_std : ℕ
facility_std = 0x7fff

abbrev pub error_flag : ℕ
error_flag = 0x8000_0000

-- The 32-bit patterns of `_az_RESULT_MAKE_ERROR` and `_az_RESULT_MAKE_SUCCESS`.
abbrev pub make_error : ℕ → ℕ → ℕ
make_error facility code = bit_or (bit_or 0x8000_0000 (facility * 2 ^ 16)) code

abbrev pub make_success : ℕ → ℕ → ℕ
make_success facility code = bit_or (facility * 2 ^ 16) code

unfoldable pub error_code : Error → ℕ
error_code arg = make_error facility_core 1
error_code buffer_overflow = make_error facility_core 2
error_code out_of_memory = make_error facility_core 3
error_code not_implemented = make_error facility_core 4
error_code item_not_found = make_error facility_core 5
error_code parser_unexpected_char = make_error facility_core 6
error_code eof = make_error facility_std 0xffff
error_code json_invalid_state = make_error facility_json 1
error_code json_nesting_overflow = make_error facility_json 2
error_code json_string_end = make_error facility_json 3
error_code json_pointer_token_end = make_error facility_json 4
error_code http_pal = make_error facility_http 1
error_code http_invalid_state = make_error facility_http 2
error_code http_pipeline_invalid_policy = make_error facility_http 3
error_code http_invalid_method_verb = make_error facility_http 4
error_code http_authentication_failed = make_error facility_http 5
error_code http_response_overflow = make_error facility_http 6
error_code http_response_couldnt_resolve_host = make_error facility_http 7

unfoldable pub success_code : Success → ℕ
success_code az_ok = make_success facility_core 0
success_code az_continue = make_success facility_core 1

unfoldable pub result_code : AzResult → ℕ
unfolding error_code success_code
result_code (success s) = success_code s
result_code (failure e) = error_code e

unfoldable pub az_failed : ℕ → Bool
az_failed r = not (bit_and r error_flag == 0)

unfoldable pub az_succeeded : ℕ → Bool
az_succeeded r = bit_and r error_flag == 0

-- What a call that may change a state does: an access to memory that is not there, more rounds of
-- a loop than were allowed for, an error code, or `AZ_OK` with the value of its out parameter.
pub data Outcome (S A : Type 0) : Type 0 where
  fault : Outcome S A
  hang : Outcome S A
  fail : Error → S → Outcome S A
  done : A → S → Outcome S A

abbrev pub Run : Type 0 → Type 0 → Type 0
Run S A = S → Outcome S A

-- `AZ_RETURN_IF_FAILED`: go on only after `AZ_OK`.
infixl 5 ◌>>=◌ ◌>>◌
abbrev pub ◌>>=◌ : {S A B : Type 0} → Run S A → (A → Run S B) → Run S B
◌>>=◌ run next s = elim (run s) [
  | fault ↦ fault
  | hang ↦ hang
  | fail e s' ↦ fail e s'
  | done a s' ↦ next a s'
]

abbrev pub ◌>>◌ : {S B : Type 0} → Run S (Unit {0}) → Run S B → Run S B
run >> next = run >>= λ _. next

abbrev pub return : {S A : Type 0} → A → Run S A
return a s = done a s

abbrev pub throw : {S A : Type 0} → Error → Run S A
throw e s = fail e s

-- More rounds of a loop than were allowed for.
abbrev pub too_long : {S A : Type 0} → Run S A
too_long s = hang

-- A conditional between two runs: only the one that is chosen starts.
infix 1 when◌then◌else◌
abbrev pub when◌then◌else◌ : {S A : Type 0} → Bool → Run S A → Run S A → Run S A
(when b then x else y) s = elim b [ true ↦ x s | false ↦ y s ]

-- A first part that keeps the state and Always gives the same value can be skipped.
pub >>=-known :
    {S A B : Type 0} (run : Run S A) (next : A → Run S B) (a : A)
    → ((s : S) → run s ≡ done a s)
    → (run >>= next) ≡ next a
>>=-known run next a h = fun_ext (λ s. rw (h s, ◌>>=◌))

module _ {S : Type 0} where
  pub >>-return : (run : Run S (Unit {0})) → (run >> return tt) ≡ run
  >>-return run = fun_ext (λ s. go (run s))
    where
      go :
          (o : Outcome S (Unit {0}))
          → elim o as (λ x. Outcome S (Unit {0})) [
            | fault ↦ fault
            | hang ↦ hang
            | fail e s' ↦ fail e s'
            | done a s' ↦ done tt s'
          ]
            ≡ o
      go fault = refl
      go hang = refl
      go (fail e s) = refl
      go (done a s) = refl

  pub >>-assoc : (x y z : Run S (Unit {0})) → ((x >> y) >> z) ≡ (x >> (y >> z))
  >>-assoc x y z = fun_ext (λ s. go (x s))
    where
      go :
          (o : Outcome S (Unit {0}))
          → elim (elim o as (λ x. Outcome S (Unit {0})) [
            | fault ↦ fault
            | hang ↦ hang
            | fail e s' ↦ fail e s'
            | done a s' ↦ y s'
          ])
              as (λ x. Outcome S (Unit {0})) [
                | fault ↦ fault
                | hang ↦ hang
                | fail e s' ↦ fail e s'
                | done a s' ↦ z s'
              ]
            ≡ elim o as (λ x. Outcome S (Unit {0})) [
              | fault ↦ fault
              | hang ↦ hang
              | fail e s' ↦ fail e s'
              | done a s' ↦ (y >> z) s'
            ]
      go fault = refl
      go hang = refl
      go (fail e s) = refl
      go (done a s) = refl
