-- ===== src/Log/RequestMessage.antt =====
-- The message about a request.
use azure_sdk_for_c.Base.{
  ℕ, zero, suc, ◌+◌, ◌-◌, ◌/◌, ◌%◌, ltb, leb, if◌then◌else◌, Option, none, some, Bytes, length,
}
use azure_sdk_for_c.Base.Int.{pos}
use azure_sdk_for_c.Base.Text.{ascii}
use azure_sdk_for_c.Http.Request.{Pair, Layout, Request, az_http_request_get_header}
use azure_sdk_for_c.Result.{Run, fault, hang, fail, done, ◌>>=◌, ◌>>◌, when◌then◌else◌, return}
use azure_sdk_for_c.Source.{at, literal}
use azure_sdk_for_c.Span.{Span, az_span_take, az_span_drop}
use azure_sdk_for_c.Span.Write.{Target, append_to}

abbrev pub log_value_max_length : ℕ
log_value_max_length = 50

abbrev pub log_msg_buf_size : ℕ
log_msg_buf_size = 1024

abbrev pub ellipsis : Bytes
ellipsis = ascii " ... "

-- How much of a long value stands in front of the ellipsis, and behind it.
abbrev pub first_length : ℕ
first_length = log_value_max_length / 2 - (length ellipsis / 2 + length ellipsis % 2)

abbrev pub last_length : ℕ
last_length = log_value_max_length / 2 + log_value_max_length % 2 - length ellipsis / 2

unfoldable pub az_log_value_msg : Span → Run Target (Unit {0})
az_log_value_msg value = when leb value.len log_value_max_length then append_to (at value) else (do
  append_to (at (az_span_take value first_length))
  append_to (literal ellipsis)
  append_to (at (az_span_drop value (value.len - last_length))))

unfoldable pub append_tabs : ℕ → Run Target (Unit {0})
append_tabs zero = return tt
append_tabs (suc n) = do append_to (literal (ascii "\t")); append_tabs n

-- `" : "` and the value, if there is one
unfoldable pub append_value_part : Span → Run Target (Unit {0})
unfolding az_log_value_msg
append_value_part value =
    when ltb 0 value.len
    then (do append_to (literal (ascii " : ")); az_log_value_msg value)
    else return tt

module _ (layout : Layout) where
  -- A header of the request, in the memory that the message is written to.
  unfoldable pub header_of : Request → ℕ → Run Target Pair
  unfolding az_http_request_get_header
  header_of hrb index t =
      elim (az_http_request_get_header layout (pos index) (record { mem = t.mem; request = hrb })) [
        | fault ↦ fault
        | hang ↦ hang
        | fail e s ↦ fail e (record t { mem = s.mem })
        | done header s ↦ done header (record t { mem = s.mem })
      ]

  -- The loop over the headers, with `n` rounds left from `index` on.
  unfoldable pub append_headers : Request → ℕ → ℕ → ℕ → Run Target (Unit {0})
  unfolding append_tabs append_value_part header_of
  append_headers hrb indent zero index = return tt
  append_headers hrb indent (suc n) index = do
    append_to (literal (ascii "\n\t\t"))
    append_tabs indent
    header ← header_of hrb index
    append_to (at header.key)
    append_value_part header.value
    append_headers hrb indent n (suc index)

  -- `none` is the null pointer.
  unfoldable pub request_part : Option Request → ℕ → Run Target (Unit {0})
  unfolding append_headers
  request_part none indent = append_to (literal (ascii "NULL"))
  request_part (some hrb) indent = do
    append_to (at hrb.method)
    append_to (literal (ascii " "))
    append_to (at hrb.url)
    append_headers hrb indent (hrb.headers.len / layout.size) 0

  unfoldable pub az_log_http_request_msg : Option Request → ℕ → Run Target (Unit {0})
  unfolding request_part append_tabs
  az_log_http_request_msg hrb indent = do
    append_tabs indent
    append_to (literal (ascii "HTTP Request : "))
    request_part hrb indent
