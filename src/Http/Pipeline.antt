-- ===== src/Http/Pipeline.antt =====
-- sdk/core/core/src/az_http_pipeline.c and az_http_policy.c: a pipeline of policies.
pub mod Steps
pub mod Delivers
use azure_sdk_for_c.Base.{ℕ, suc, not, if◌then◌else◌, List, [], ◌∷◌, some}
use azure_sdk_for_c.Base.Int.{ℤ, ◌-ℤ◌}
use azure_sdk_for_c.Credentials.{ClientSecretCredential}
use azure_sdk_for_c.Http.Request.{
  Pair, Layout, Request, Store, az_http_request_append_header, az_http_request_set_query_parameter,
}
use azure_sdk_for_c.Http.Response.{Response, az_http_response_init}
use azure_sdk_for_c.Log.{Log, log_http_request, log_http_response, az_log_should_write}
use azure_sdk_for_c.Log.ResponseMessage.{az_log_http_request, az_log_http_response}
use azure_sdk_for_c.Memory.{Memory}
use azure_sdk_for_c.Result.{
  Run, Outcome, fault, hang, fail, done, ◌>>=◌, ◌>>◌, when◌then◌else◌, return, throw, arg,
  http_pipeline_invalid_policy,
}
use azure_sdk_for_c.Source.{at}
use azure_sdk_for_c.Span.{Span}

-- What the policies work on: the memory, the request and the response, the static variables of the
-- log, how often the clock was read, and the credential.
pub record World : Type 0 where
  pub mem : Memory
  pub request : Request
  pub response : Response
  pub log : Log
  pub ticks : ℕ
  pub credential : ClientSecretCredential

-- What the library is built with and linked to: the layout of a pair, the readings of the clock,
-- the function of a transport at an address, the place of the buffer of a log message, what a
-- variable for a pair holds before it is set, and the string literals that headers point to.
pub record Platform : Type 0 where
  pub layout : Layout
  pub clock_msec : ℕ → ℤ
  pub send_request : ℕ → Run World (Unit {0})
  pub log_msg_buf : ℕ
  pub unset : Pair
  pub ms_client_requestid : Span
  pub uniqueid : Span
  pub user_agent : Span
  pub authorization : Span

-- `_az_http_policy_apiversion_option_location`, and any other value of the enumeration
pub data OptionLocation : Type 0 where
  option_location_header option_location_queryparameter option_location_other : OptionLocation

-- `_az_http_policy_apiversion_options`
pub record ApiversionOptions : Type 0 where
  pub option_location : OptionLocation
  pub name : Span
  pub version : Span

-- `_az_http_policy`: the function and its options, and the null pointer. A credential is the run
-- of its `apply_credential`.
pub data Policy : Type 0 where
  policy_null policy_uniquerequestid policy_retry policy_logging : Policy
  policy_bufferresponse policy_distributedtracing : Policy
  policy_apiversion : ApiversionOptions → Policy
  policy_telemetry : Span → Policy
  policy_credential : Run World (Unit {0}) → Policy
  policy_transport : ℕ → Policy

-- A run on the request and its memory.
abbrev pub store_of : World → Store
store_of w = record { mem = w.mem; request = w.request }

abbrev pub set_store : World → Store → World
set_store w s = record w { mem = s.mem; request = s.request }

abbrev pub on_store : Run Store (Unit {0}) → Run World (Unit {0})
on_store run w = elim (run (store_of w)) [
  | fault ↦ fault
  | hang ↦ hang
  | fail e s ↦ fail e (set_store w s)
  | done u s ↦ done tt (set_store w s)
]

-- `if (az_log_should_write(classification))`
abbrev pub when_logged : ℕ → Run World (Unit {0}) → Run World (Unit {0}) → Run World (Unit {0})
when_logged classification x y w = (when az_log_should_write w.log classification then x else y) w

module _ (platform : Platform) where
  abbrev pub append_header : Span → Span → Run World (Unit {0})
  append_header key value = on_store (az_http_request_append_header platform.layout key value)

  unfoldable pub append_version : ApiversionOptions → Run World (Unit {0})
  unfolding az_http_request_append_header az_http_request_set_query_parameter
  append_version options = elim options.option_location [
    | option_location_header ↦ append_header options.name options.version
    | option_location_queryparameter ↦
        on_store (az_http_request_set_query_parameter (at options.name) (at options.version))
    | option_location_other ↦ throw arg
  ]

  unfoldable pub az_pal_clock_msec : Run World ℤ
  az_pal_clock_msec w = done (platform.clock_msec w.ticks) (record w { ticks = suc w.ticks })

  -- `_az_log_http_request(p_request)`
  unfoldable pub log_request : Run World (Unit {0})
  unfolding az_log_http_request
  log_request w =
      elim (az_log_http_request platform.layout platform.log_msg_buf w.mem (some w.request) w.log) [
        | fault ↦ fault
        | hang ↦ hang
        | fail e log ↦ fail e (record w { log = log })
        | done u log ↦ done tt (record w { log = log })
      ]

  -- `_az_log_http_response(p_response, duration, p_request)`
  unfoldable pub log_response : ℤ → Run World (Unit {0})
  unfolding az_log_http_response
  log_response duration w =
      elim (az_log_http_response platform.layout platform.log_msg_buf w.mem platform.unset duration
        (some w.request) (w.response, w.log)) [
          | fault ↦ fault
          | hang ↦ hang
          | fail e (response, log) ↦ fail e (record w { response = response; log = log })
          | done u (response, log) ↦ done tt (record w { response = response; log = log })
        ]

  -- The response is logged, whatever the other policies return.
  unfoldable pub with_duration : Run World (Unit {0}) → Run World (Unit {0})
  unfolding az_pal_clock_msec log_response
  with_duration next = do
    start ← az_pal_clock_msec
    (λ w. elim (next w) [
      | fault ↦ fault
      | hang ↦ hang
      | fail e w' ↦ (do end ← az_pal_clock_msec; log_response (end -ℤ start); throw e) w'
      | done u w' ↦ (do end ← az_pal_clock_msec; log_response (end -ℤ start)) w'
    ])

  -- Each policy, with the run of `az_http_pipeline_nextpolicy` on the policies behind it.
  module _ (next : Run World (Unit {0})) where
    unfoldable pub az_http_pipeline_policy_apiversion : ApiversionOptions → Run World (Unit {0})
    unfolding append_version
    az_http_pipeline_policy_apiversion options = do append_version options; next

    unfoldable pub az_http_pipeline_policy_uniquerequestid : Run World (Unit {0})
    az_http_pipeline_policy_uniquerequestid = do
      append_header platform.ms_client_requestid platform.uniqueid
      next

    unfoldable pub az_http_pipeline_policy_telemetry : Span → Run World (Unit {0})
    az_http_pipeline_policy_telemetry os = do append_header platform.user_agent os; next

    unfoldable pub az_http_pipeline_policy_retry : Run World (Unit {0})
    unfolding az_http_response_init
    az_http_pipeline_policy_retry w =
        next (record w { response = az_http_response_init w.response.http_response })

    unfoldable pub az_http_pipeline_policy_credential : Run World (Unit {0}) → Run World (Unit {0})
    az_http_pipeline_policy_credential apply_credential = do apply_credential; next

    unfoldable pub az_http_pipeline_policy_logging : Run World (Unit {0})
    unfolding log_request with_duration az_log_should_write
    az_http_pipeline_policy_logging = do
      when_logged log_http_request log_request (return tt)
      when_logged log_http_response (with_duration next) next

    unfoldable pub process : Policy → Run World (Unit {0})
    unfolding az_http_pipeline_policy_apiversion az_http_pipeline_policy_uniquerequestid
        az_http_pipeline_policy_telemetry az_http_pipeline_policy_retry
        az_http_pipeline_policy_credential az_http_pipeline_policy_logging
    process policy_null = λ w. fault
    process (policy_apiversion options) = az_http_pipeline_policy_apiversion options
    process policy_uniquerequestid = az_http_pipeline_policy_uniquerequestid
    process (policy_telemetry os) = az_http_pipeline_policy_telemetry os
    process policy_retry = az_http_pipeline_policy_retry
    process (policy_credential apply) = az_http_pipeline_policy_credential apply
    process policy_logging = az_http_pipeline_policy_logging
    process policy_bufferresponse = next
    process policy_distributedtracing = next
    process (policy_transport options) = platform.send_request options

  -- Behind the last policy of the array there is nothing to read.
  unfoldable pub az_http_pipeline_nextpolicy : List Policy → Run World (Unit {0})
  unfolding process
  az_http_pipeline_nextpolicy [] = λ w. fault
  az_http_pipeline_nextpolicy (policy_null ∷ ps) = throw http_pipeline_invalid_policy
  az_http_pipeline_nextpolicy (p ∷ ps) = process (az_http_pipeline_nextpolicy ps) p

  -- The first policy is called without a look whether there is one.
  unfoldable pub az_http_pipeline_process : List Policy → Run World (Unit {0})
  unfolding az_http_pipeline_nextpolicy
  az_http_pipeline_process [] = λ w. fault
  az_http_pipeline_process (p ∷ ps) = process (az_http_pipeline_nextpolicy ps) p
