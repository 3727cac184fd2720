-- ===== src/Log/ResponseMessage.antt =====
-- The message about a response, and the calls that log both.
use azure_sdk_for_c.Base.{ℕ, zero, suc, ◌==◌, if◌then◌else◌, Option}
use azure_sdk_for_c.Base.Int.{ℤ}
use azure_sdk_for_c.Base.Text.{ascii}
use azure_sdk_for_c.Http.Request.{Pair, Layout, Request}
use azure_sdk_for_c.Http.Response.{
  Response, Cursor, az_http_response_get_status_line, az_http_response_get_next_header,
}
use azure_sdk_for_c.Memory.{Memory, filled}
use azure_sdk_for_c.Result.{
  Run, Outcome, fault, hang, fail, done, ◌>>=◌, ◌>>◌, when◌then◌else◌, item_not_found,
}
use azure_sdk_for_c.Source.{at, literal}
use azure_sdk_for_c.Span.{az_span_init}
use azure_sdk_for_c.Span.Decimal.{az_span_append_uint64, az_span_append_int64}
use azure_sdk_for_c.Span.Write.{Target, append_to}
use azure_sdk_for_c.Log.{log_http_request, log_http_response, Log, az_log_write}
use azure_sdk_for_c.Log.RequestMessage.{
  append_value_part, log_msg_buf_size, az_log_http_request_msg,
}

-- A message that is written about a response: the message, the response and the header that is read.
pub record Report : Type 0 where
  pub target : Target
  pub cursor : Cursor

-- A run on the message, and a run that reads the response in the memory of the message.
abbrev pub on_message : Run Target (Unit {0}) → Run Report (Unit {0})
on_message run r = elim (run r.target) [
  | fault ↦ fault
  | hang ↦ hang
  | fail e t ↦ fail e (record r { target = t })
  | done u t ↦ done tt (record r { target = t })
]

abbrev pub on_response : {A : Type 0} → (Memory → Run Response A) → Run Report A
on_response run r = elim (run r.target.mem r.cursor.self) [
  | fault ↦ fault
  | hang ↦ hang
  | fail e self ↦ fail e (record r { cursor = record r.cursor { self = self } })
  | done a self ↦ done a (record r { cursor = record r.cursor { self = self } })
]

-- `header` may stand in memory that was not set.
unfoldable pub append_response_header : Run Report (Unit {0})
unfolding append_value_part
append_response_header r =
    on_message
      (do
        append_to (literal (ascii "\n\t\t"))
        append_to (at r.cursor.out.key)
        append_value_part r.cursor.out.value)
      r

-- The loop over the headers of a response, with at most `fuel` rounds. Only the end of the headers
-- ends it: after any other error the header that was read so far is appended.
unfoldable pub append_response_headers : ℕ → Run Report (Unit {0})
unfolding append_response_header
append_response_headers zero r = hang
append_response_headers (suc fuel) r =
    let rest = λ (c : Cursor).
      (do append_response_header; append_response_headers fuel) (record r { cursor = c }) in
    elim (az_http_response_get_next_header r.target.mem r.cursor) [
      | fault ↦ fault
      | hang ↦ hang
      | fail e c ↦ elim e [ item_not_found ↦ done tt (record r { cursor = c }) | _ ↦ rest c ]
      | done u c ↦ rest c
    ]

module _ (layout : Layout) where
  -- The status line and the headers of a response that is not empty, and its request.
  unfoldable pub response_part : Option Request → Run Report (Unit {0})
  unfolding append_response_headers az_http_response_get_status_line az_log_http_request_msg
  response_part hrb = do
    on_message (append_to (literal (ascii ": ")))
    status_line ← on_response az_http_response_get_status_line
    on_message (az_span_append_uint64 status_line.status_code)
    on_message (append_to (literal (ascii " ")))
    on_message (append_to (at status_line.reason_phrase))
    append_response_headers (suc log_msg_buf_size)
    on_message (append_to (literal (ascii "\n\n")))
    on_message (az_log_http_request_msg layout hrb 1)

  unfoldable pub az_log_http_response_msg : ℤ → Option Request → Run Report (Unit {0})
  unfolding response_part
  az_log_http_response_msg duration_msec hrb = do
    on_message (append_to (literal (ascii "HTTP Response (")))
    on_message (az_span_append_int64 duration_msec)
    on_message (append_to (literal (ascii "ms) ")))
    (λ r.
        (when r.cursor.self.http_response.len == 0
            then on_message (append_to (literal (ascii "is empty")))
            else response_part hrb)
          r)

-- `uint8_t log_msg_buf[_az_LOG_MSG_BUF_SIZE] = { 0 }`, at an address, and an empty span of it.
abbrev pub log_msg_bldr : ℕ → Memory → Target
log_msg_bldr buf m = record {
  mem = filled m buf 0 log_msg_buf_size;
  self = az_span_init buf 0 log_msg_buf_size;
}

-- The message so far is logged, whether there was room for all of it or not.
abbrev pub write_message : ℕ → Target → Log → Outcome Log (Unit {0})
write_message classification t log = az_log_write t.mem classification t.self log

unfoldable pub log_report : Report → Log → Outcome (Response × Log) (Unit {0})
unfolding az_log_write
log_report r log = elim (write_message log_http_response r.target log) [
  | fault ↦ fault
  | hang ↦ hang
  | fail e l ↦ fail e (r.cursor.self, l)
  | done u l ↦ done tt (r.cursor.self, l)
]

module _ (layout : Layout) (buf : ℕ) where
  unfoldable pub az_log_http_request : Memory → Option Request → Run Log (Unit {0})
  unfolding az_log_http_request_msg az_log_write
  az_log_http_request m hrb log = elim (az_log_http_request_msg layout hrb 0 (log_msg_bldr buf m)) [
    | fault ↦ fault
    | hang ↦ hang
    | fail e t ↦ write_message log_http_request t log
    | done u t ↦ write_message log_http_request t log
  ]

  -- With the response as it is left. `header` is what the memory of the variable holds at first.
  unfoldable pub az_log_http_response :
      Memory → Pair → ℤ → Option Request → Run (Response × Log) (Unit {0})
  unfolding az_log_http_response_msg log_report
  az_log_http_response m header duration_msec hrb (response, log) =
      let start : Report = record {
        target = log_msg_bldr buf m;
        cursor = record { self = response; out = header };
      } in
      elim (az_log_http_response_msg layout duration_msec hrb start) [
        | fault ↦ fault
        | hang ↦ hang
        | fail e r ↦ log_report r log
        | done u r ↦ log_report r log
      ]
