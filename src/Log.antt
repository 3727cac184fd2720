-- ===== src/Log.antt =====
-- sdk/core/core/src/az_log.c: what is logged, and to whom.
pub mod RequestMessage
pub mod Filter
pub mod Values
pub mod RequestText
pub mod Logged
pub mod ResponseMessage
use azure_sdk_for_c.Base.{
  ℕ, zero, suc, ◌+◌, ◌-◌, ◌*◌, ◌/◌, ◌%◌, Bool, true, false, ◌||◌, ltb, leb, ◌==◌, if◌then◌else◌,
  Option, none, some, List, Bytes, [], ◌∷◌, ◌++◌, length,
}
use azure_sdk_for_c.Base.Int.{ℤ, pos}
use azure_sdk_for_c.Base.Text.{ascii}
use azure_sdk_for_c.Http.Request.{
  Pair, Layout, Request, Store, load_bytes, az_http_request_get_header,
}
use azure_sdk_for_c.Http.Response.{
  Response, Cursor, az_http_response_get_status_line, az_http_response_get_next_header,
}
use azure_sdk_for_c.Memory.{Memory, filled}
use azure_sdk_for_c.Result.{
  Run, Outcome, fault, hang, fail, done, ◌>>=◌, ◌>>◌, when◌then◌else◌, return, item_not_found,
  make_success, facility_http,
}
use azure_sdk_for_c.Source.{at, literal}
use azure_sdk_for_c.Span.{Span, az_span_init, az_span_take, az_span_drop}
use azure_sdk_for_c.Span.Decimal.{az_span_append_uint64, az_span_append_int64}
use azure_sdk_for_c.Span.Write.{Target, append_to}

-- A classification is a number: `_az_LOG_MAKE_CLASSIFICATION` has the bits of a success code.
abbrev pub log_http_request : ℕ
log_http_request = make_success facility_http 1

abbrev pub log_http_response : ℕ
log_http_response = make_success facility_http 2

-- The static variables, with the classifications as a list, and the calls of the listeners so far:
-- the listener, the classification and the text. A listener is told by its address.
pub record Log : Type 0 where
  pub classifications : Option (List ℕ)
  pub listener : Option ℕ
  pub calls : List (ℕ × ℕ × Bytes)

unfoldable pub az_log_set_classifications : Option (List ℕ) → Log → Log
az_log_set_classifications classifications log = record log { classifications = classifications }

unfoldable pub az_log_set_listener : Option ℕ → Log → Log
az_log_set_listener listener log = record log { listener = listener }

-- The loop over the classifications.
unfoldable pub is_listed : ℕ → List ℕ → Bool
is_listed classification [] = false
is_listed classification (c ∷ cs) = c == classification || is_listed classification cs

-- No classifications, or an empty list of them, let all messages pass.
unfoldable pub passes : ℕ → Option (List ℕ) → Bool
unfolding is_listed
passes classification none = true
passes classification (some []) = true
passes classification (some (c ∷ cs)) = is_listed classification (c ∷ cs)

unfoldable pub az_log_should_write : Log → ℕ → Bool
unfolding passes
az_log_should_write log classification = elim log.listener [
  | none ↦ false
  | some listener ↦ passes classification log.classifications
]

-- The listener reads the message.
unfoldable pub az_log_write : Memory → ℕ → Span → Run Log (Unit {0})
unfolding az_log_should_write
az_log_write m classification message log = elim log.listener [
  | none ↦ done tt log
  | some listener ↦
      if az_log_should_write log classification
      then (elim (load_bytes m message.ptr message.len) [
        | none ↦ fault
        | some text ↦
            done tt (record log { calls = log.calls ++ ((listener, classification, text) ∷ []) })
      ])
      else done tt log
]
