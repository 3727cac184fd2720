-- ===== src/Http/Response.antt =====
-- sdk/core/core/src/az_http_response.c, and the response of inc/az_http.h. The functions only read
-- the memory that the spans point into.
pub mod Line
pub mod Parts
pub mod Operations
pub mod States
pub mod Errors
pub mod Message
pub mod Fields
pub mod Value
use azure_sdk_for_c.Base.{
  ℕ, zero, suc, ◌+◌, ◌-◌, Bool, true, false, not, ◌||◌, leb, ◌==◌, if◌then◌else◌, Bytes, [], ◌∷◌,
}
use azure_sdk_for_c.Base.Int.{ℤ, pos, negsuc}
use azure_sdk_for_c.Http.Request.{Pair}
use azure_sdk_for_c.Memory.{Memory}
use azure_sdk_for_c.Result.{
  Run, Outcome, fault, hang, fail, done, ◌>>=◌, ◌>>◌, when◌then◌else◌, return, throw, too_long,
  Success, az_ok, az_continue, parser_unexpected_char, item_not_found, http_invalid_state,
}
use azure_sdk_for_c.Source.{at, demand}
use azure_sdk_for_c.Span.{Span, az_span_init, az_span_null, az_span_slice, to_end, peek, skip}
use azure_sdk_for_c.Span.Read.{isdigit, az_span_to_uint64, az_is_expected_span, az_scan_until}

-- `az_http_response_kind`
pub data Kind : Type 0 where
  kind_status_line kind_header kind_body kind_eof : Kind

-- `az_http_response`
pub record Response : Type 0 where
  pub http_response : Span
  pub remaining : Span
  pub next_kind : Kind

-- `az_http_response_status_line`
pub record StatusLine : Type 0 where
  pub major_version : ℕ
  pub minor_version : ℕ
  pub status_code : ℕ
  pub reason_phrase : Span

unfoldable pub az_http_response_init : Span → Response
az_http_response_init http_response = record {
  http_response = http_response;
  remaining = az_span_null;
  next_kind = kind_status_line;
}

unfoldable pub az_is_char : {S : Type 0} → Memory → ℕ → Span → Run S Success
az_is_char m c slice = do x ← demand (m slice.ptr); return (if x == c then az_ok else az_continue)

unfoldable pub az_is_http_whitespace : ℕ → Bool
az_is_http_whitespace c = c == b' ' || c == b'\t'

unfoldable pub az_slice_is_not_http_whitespace : {S : Type 0} → Memory → Span → Run S Success
unfolding az_is_http_whitespace
az_slice_is_not_http_whitespace m slice = do
  x ← demand (m slice.ptr)
  return (if az_is_http_whitespace x then az_continue else az_ok)

unfoldable pub az_get_digit : Memory → Run Span ℕ
az_get_digit m = do
  c_ptr ← peek m
  when not (isdigit c_ptr) then throw parser_unexpected_char else (do skip 1; return (c_ptr - b'0'))

-- `n - 1`
abbrev pub pred : ℕ → ℤ
pred zero = negsuc 0
pred (suc n) = pos n

-- `_az_scan_until(*self, predicate, &offset)`
unfoldable pub scan : (Span → Run Span Success) → Run Span ℕ
unfolding az_scan_until
scan predicate self = az_scan_until predicate self self

-- The number in the next three bytes, wherever the content of the reader ends.
unfoldable pub read_code : Memory → Run Span ℕ
unfolding az_span_to_uint64
read_code m self = az_span_to_uint64 m (at (az_span_init self.ptr 3 3)) self

-- `az_span_slice(*self, low, high, &out)`
abbrev pub slice_of : ℤ → Run Span Span
slice_of high self = done (az_span_slice self 0 high) self

abbrev pub http_name : Bytes
http_name = b'H' ∷ b'T' ∷ b'T' ∷ b'P' ∷ b'/' ∷ []

unfoldable pub az_get_http_status_line : Memory → Run Span StatusLine
unfolding az_get_digit read_code scan az_is_char az_is_expected_span
az_get_http_status_line m = do
  az_is_expected_span m http_name
  major_version ← az_get_digit m
  az_is_expected_span m (b'.' ∷ [])
  minor_version ← az_get_digit m
  az_is_expected_span m (b' ' ∷ [])
  code ← read_code m
  skip 3
  az_is_expected_span m (b' ' ∷ [])
  offset ← scan (az_is_char m b'\n')
  reason_phrase ← slice_of (pred offset)
  skip (offset + 1)
  return (record {
    major_version = major_version;
    minor_version = minor_version;
    status_code = code;
    reason_phrase = reason_phrase;
  })

-- A run on `self->_internal.parser.remaining`.
abbrev pub on_remaining : {A : Type 0} → Run Span A → Run Response A
on_remaining run self = elim (run self.remaining) [
  | fault ↦ fault
  | hang ↦ hang
  | fail e s ↦ fail e (record self { remaining = s })
  | done a s ↦ done a (record self { remaining = s })
]

abbrev pub set_kind : Kind → Run Response (Unit {0})
set_kind kind self = done tt (record self { next_kind = kind })

unfoldable pub az_http_response_get_status_line : Memory → Run Response StatusLine
unfolding az_get_http_status_line
az_http_response_get_status_line m = do
  (λ self. done (tt {0}) (record self { remaining = self.http_response }))
  out ← on_remaining (az_get_http_status_line m)
  set_kind kind_header
  return out

-- A response with the pair that a header is read into, and which keeps what was read of a header
-- when an error is met.
pub record Cursor : Type 0 where
  pub self : Response
  pub out : Pair

abbrev pub on_reader : {A : Type 0} → Run Span A → Run Cursor A
on_reader run c = elim (run c.self.remaining) [
  | fault ↦ fault
  | hang ↦ hang
  | fail e s ↦ fail e (record c { self = record c.self { remaining = s } })
  | done a s ↦ done a (record c { self = record c.self { remaining = s } })
]

abbrev pub set_key : Span → Run Cursor (Unit {0})
set_key key c = done tt (record c { out = record c.out { key = key } })

abbrev pub set_value : Span → Run Cursor (Unit {0})
set_value value c = done tt (record c { out = record c.out { value = value } })

abbrev pub enter_body : Run Cursor (Unit {0})
enter_body c = done tt (record c { self = record c.self { next_kind = kind_body } })

-- The loop over the bytes of a value, with at most `fuel` rounds: where the byte behind its carriage
-- return is, and where its last visible byte ends. It does not stop at the end of the reader.
unfoldable pub value_from : Memory → ℕ → ℕ → ℕ → Run Span (ℕ × ℕ)
unfolding az_is_http_whitespace
value_from m zero offset offset_value_end = too_long
value_from m (suc fuel) offset offset_value_end = do
  c ← (λ self. demand (m (self.ptr + offset)) self)
  when c == b'\r'
      then return (offset + 1, offset_value_end)
      else when az_is_http_whitespace c
      then value_from m fuel (offset + 1) offset_value_end
      else when leb c b' '
      then throw parser_unexpected_char
      else value_from m fuel (offset + 1) (offset + 1)

-- An `int32_t` counts the rounds.
unfoldable pub max_rounds : ℕ
max_rounds = 0x8000_0000

unfoldable pub read_name : Memory → Run Cursor (Unit {0})
unfolding scan az_is_char az_slice_is_not_http_whitespace
read_name m = do
  field_name_length ← on_reader (scan (az_is_char m b':'))
  key ← on_reader (slice_of (pos field_name_length))
  set_key key
  on_reader (skip (field_name_length + 1))
  ows_len ← on_reader (scan (az_slice_is_not_http_whitespace m))
  on_reader (skip ows_len)

unfoldable pub read_value : Memory → Run Cursor (Unit {0})
read_value m = do
  ends ← on_reader (value_from m max_rounds 0 0)
  value ← on_reader (slice_of (pos ends.1))
  set_value value
  on_reader (skip ends.0)

unfoldable pub read_header : Memory → Run Cursor (Unit {0})
unfolding read_name read_value az_is_expected_span
read_header m = do
  c ← on_reader (peek m)
  when c == b'\r'
      then (do
        on_reader (az_is_expected_span m (b'\r' ∷ b'\n' ∷ []))
        enter_body
        throw item_not_found)
      else (do read_name m; read_value m; on_reader (az_is_expected_span m (b'\n' ∷ [])))

unfoldable pub next_header : Memory → Kind → Run Cursor (Unit {0})
unfolding read_header
next_header m kind_status_line = throw http_invalid_state
next_header m kind_header = read_header m
next_header m kind_body = throw item_not_found
next_header m kind_eof = throw http_invalid_state

unfoldable pub az_http_response_get_next_header : Memory → Run Cursor (Unit {0})
unfolding next_header
az_http_response_get_next_header m c = next_header m c.self.next_kind c

-- The loop of `az_http_response_get_body` over the headers, with at most `fuel` rounds. It ends at
-- any error.
unfoldable pub ignore_headers_from : Memory → ℕ → Run Cursor (Unit {0})
ignore_headers_from m zero c = hang
ignore_headers_from m (suc fuel) c = elim (az_http_response_get_next_header m c) [
  | fault ↦ fault
  | hang ↦ hang
  | fail e c' ↦ done tt c'
  | done u c' ↦ ignore_headers_from m fuel c'
]

-- A header takes a byte. What `h` holds at first is not read.
unfoldable pub ignore_headers : Memory → Run Response (Unit {0})
unfolding ignore_headers_from az_http_response_get_next_header
ignore_headers m self =
    let h : Pair = record { key = az_span_null; value = az_span_null } in
    elim (ignore_headers_from m (suc self.remaining.len) (record { self = self; out = h })) [
      | fault ↦ fault
      | hang ↦ hang
      | fail e c ↦ fail e c.self
      | done u c ↦ done tt c.self
    ]

-- The parts of the response that stand in front of the body.
unfoldable pub reach_body : Memory → Kind → Run Response (Unit {0})
unfolding ignore_headers az_http_response_get_status_line
reach_body m kind_status_line = do ignored ← az_http_response_get_status_line m; ignore_headers m
reach_body m kind_header = ignore_headers m
reach_body m kind_body = return tt
reach_body m kind_eof = do ignored ← az_http_response_get_status_line m; ignore_headers m

unfoldable pub az_http_response_get_body : Memory → Run Response Span
unfolding reach_body
az_http_response_get_body m = do
  (λ self. reach_body m self.next_kind self)
  out_body ← on_remaining (slice_of to_end)
  set_kind kind_eof
  return out_body
