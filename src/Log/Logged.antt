-- ===== src/Log/Logged.antt =====
-- What a listener gets of a request.
use azure_sdk_for_c.Base.{
  ◌≤◌, Option, some, List, ℕ, Bytes, [], ◌∷◌, ◌++◌, length, ◌≡◌, refl, ap, arith, inl, inr, ◌∙◌,
}
use azure_sdk_for_c.Http.Request.{Layout, IsLayout, Request}
use azure_sdk_for_c.Log.{Log, log_http_request, az_log_set_classifications, az_log_set_listener}
use azure_sdk_for_c.Log.Filter.{IsWanted, az_log_write_lem}
use azure_sdk_for_c.Log.RequestMessage.{az_log_http_request_msg, log_msg_buf_size}
use azure_sdk_for_c.Log.RequestText.{Entry, RequestGiven, request_text, request-Emits}
use azure_sdk_for_c.Log.ResponseMessage.{az_log_http_request, log_msg_bldr, write_message}
use azure_sdk_for_c.Memory.{Memory, is_accessible, filled, readable_all}
use azure_sdk_for_c.Memory.Changes.{filled_inside}
use azure_sdk_for_c.Result.{done}
use azure_sdk_for_c.Span.{Views}
use azure_sdk_for_c.Span.Write.{Target}
use azure_sdk_for_c.Span.Write.Emits.{IsOpen, FitsIn, Extends-Views}

log_msg_bldr-IsOpen : (buf : ℕ) (m : Memory) → IsOpen (log_msg_bldr buf m)
log_msg_bldr-IsOpen buf m = record {
  buffer =
      readable_all log_msg_buf_size (filled m buf 0 log_msg_buf_size) buf
        (λ i h. ap is_accessible (filled_inside m buf 0 log_msg_buf_size i h));
  within = omega arith;
}

log_request_done :
    (layout : Layout) (buf : ℕ) (m : Memory) (hrb : Request) (log : Log) (t : Target)
    → az_log_http_request_msg layout (some hrb) 0 (log_msg_bldr buf m) ≡ done tt t
    → az_log_http_request layout buf m (some hrb) log ≡ write_message log_http_request t log
unfolding az_log_http_request
log_request_done layout buf m hrb log t e = rw (e, az_log_http_request) refl

module _ (layout : Layout) (laws : IsLayout layout) (hrb : Request) (mth u : Bytes)
    (es : List Entry) where
  -- A request whose message has no more than 1024 bytes is logged with the whole message: a listener
  -- that was set, with classifications that let messages about requests pass, gets once the text with
  -- the method, the URL and the headers of the request, where all that the message reads stands
  -- outside of its buffer.
  pub az_log_http_request_lem :
      (m : Memory) (buf l : ℕ) (classes : Option (List ℕ)) (log : Log)
      → RequestGiven layout laws hrb mth u es (log_msg_bldr buf m)
      → length (request_text layout laws hrb mth u es 0) ≤ log_msg_buf_size
      → IsWanted log_http_request classes
      → az_log_http_request layout buf m
          (some hrb)
          (az_log_set_listener (some l) (az_log_set_classifications classes log))
        ≡ done tt (
            az_log_set_listener (some l) (
              az_log_set_classifications classes (record log {
                calls =
                    log.calls
                    ++ ((l, log_http_request, request_text layout laws hrb mth u es 0) ∷ []);
              })))
  az_log_http_request_lem m buf l classes log r room wanted =
      let text = request_text layout laws hrb mth u es 0 in
      let start = log_msg_bldr buf m in
      let fits : FitsIn start text = omega (arith, room) in
      let (t, e, x) =
        (request-Emits layout laws hrb mth u es 0).fits start (log_msg_bldr-IsOpen buf m) r fits in
      let views : Views t.mem t.self text =
        Extends-Views {xs = []} x fits (record { count = refl; fits = omega arith; holds = tt }) in
      let set = az_log_set_listener (some l) (az_log_set_classifications classes log) in
      log_request_done layout buf m hrb set t e
      ∙ (elim (az_log_write_lem t.mem log_http_request t.self text log l classes views) [
        | inl (w, logged) ↦ logged
        | inr (unwanted, silent) ↦ absurd (unwanted wanted)
      ])
