-- ===== src/Http/Request.antt =====
-- sdk/core/core/src/az_http_request.c, and the request of inc/az_http.h. A request stands with the
-- memory that its spans point into.
pub mod Query
pub mod Path
pub mod Init
pub mod Headers
use azure_sdk_for_c.Base.{
  ℕ, zero, suc, ◌+◌, ◌-◌, ◌*◌, ◌/◌, ◌≤◌, Bool, true, false, ◌&&◌, ◌||◌, not, ltb, leb, ◌==◌,
  if◌then◌else◌, Option, some, none, Bytes, [], ◌∷◌, length, ◌≡◌,
}
use azure_sdk_for_c.Base.Int.{ℤ, pos, negsuc}
use azure_sdk_for_c.Memory.{Memory}
use azure_sdk_for_c.Result.{
  Run, Outcome, fault, hang, fail, done, ◌>>=◌, ◌>>◌, when◌then◌else◌, return, throw, Error, arg,
  Success, az_ok, az_continue,
}
use azure_sdk_for_c.Source.{Source, at, literal, source_len, source_is_valid}
use azure_sdk_for_c.Span.{Span, az_span_init, az_span_is_valid, az_contract, peek}
use azure_sdk_for_c.Span.Read.{az_scan_until}
use azure_sdk_for_c.Span.Write.{Target, in_place, append_to, az_span_replace}

-- `az_pair`
pub record Pair : Type 0 where
  pub key : Span
  pub value : Span

-- How the compiler lays out an `az_pair`: its size and its bytes.
pub record Layout : Type 0 where
  pub size : ℕ
  pub encode : Pair → Bytes
  pub decode : Bytes → Pair

-- What C says of a layout: an object takes `sizeof` bytes, and these determine its value.
pub record IsLayout (layout : Layout) : Type 0 where
  pub positive : 1 ≤ layout.size
  pub size_encode : (p : Pair) → length (layout.encode p) ≡ layout.size
  pub decode_encode : (p : Pair) → layout.decode (layout.encode p) ≡ p

-- `_az_http_request`
pub record Request : Type 0 where
  pub method : Span
  pub url : Span
  pub query_start : ℕ
  pub headers : Span
  pub max_headers : ℕ
  pub retry_headers_start_byte_offset : ℕ
  pub body : Span

pub record Store : Type 0 where
  pub mem : Memory
  pub request : Request

-- A run on the URL, and one on the headers.
abbrev pub on_url : Run Target (Unit {0}) → Run Store (Unit {0})
on_url run self = elim (run (record { mem = self.mem; self = self.request.url })) [
  | fault ↦ fault
  | hang ↦ hang
  | fail e t ↦ fail e (record { mem = t.mem; request = record self.request { url = t.self } })
  | done u t ↦ done tt (record { mem = t.mem; request = record self.request { url = t.self } })
]

abbrev pub on_headers : Run Target (Unit {0}) → Run Store (Unit {0})
on_headers run self = elim (run (record { mem = self.mem; self = self.request.headers })) [
  | fault ↦ fault
  | hang ↦ hang
  | fail e t ↦ fail e (record { mem = t.mem; request = record self.request { headers = t.self } })
  | done u t ↦ done tt (record { mem = t.mem; request = record self.request { headers = t.self } })
]

abbrev pub set_query_start : ℕ → Run Store (Unit {0})
set_query_start n self =
    done tt (record { mem = self.mem; request = record self.request { query_start = n } })

unfoldable pub az_is_question_mark : Span → Run Memory Success
unfolding peek
az_is_question_mark slice m = elim (peek m slice) [
  | fault ↦ fault
  | hang ↦ hang
  | fail e s ↦ fail e m
  | done c s ↦ done (if c == b'?' then az_ok else az_continue) m
]

-- `url_with_query == AZ_ERROR_ITEM_NOT_FOUND ? 0 : query_start`; after any other error
-- `query_start` still is 0.
unfoldable pub find_query_start : Span → Run Memory ℕ
unfolding az_scan_until az_is_question_mark
find_query_start url m = elim (az_scan_until az_is_question_mark url m) [
  | fault ↦ fault
  | hang ↦ hang
  | fail e m' ↦ done 0 m'
  | done query_start m' ↦ done query_start m'
]

module _ (layout : Layout) where
  unfoldable pub az_http_request_init : Span → Span → Span → Span → Run Memory Request
  unfolding find_query_start
  az_http_request_init method url headers_buffer body = do
    az_contract (az_span_is_valid method) arg
    az_contract (az_span_is_valid url) arg
    az_contract (az_span_is_valid headers_buffer) arg
    query_start ← find_query_start url
    return (record {
      method = method;
      url = url;
      query_start = query_start;
      headers = headers_buffer;
      max_headers = headers_buffer.capacity / layout.size;
      retry_headers_start_byte_offset = 0;
      body = body;
    })

-- `_az_span_replace(&p_hrb->_internal.url, at, at, span)`
abbrev pub insert_into_url : ℕ → Source → Run Store (Unit {0})
insert_into_url i span = on_url (in_place (λ s. az_span_replace s i i span))

-- Where the path ends. The first component tells whether there is a query.
unfoldable pub path_end : Request → Bool × ℕ
path_end request =
    let url_with_question_mark = ltb 0 request.query_start in
    (
      url_with_question_mark,
      if url_with_question_mark then request.query_start - 1 else request.url.len,
    )

unfoldable pub az_http_request_append_path : Source → Run Store (Unit {0})
unfolding path_end in_place
az_http_request_append_path path self =
    let (url_with_question_mark, query_start) = path_end self.request in
    (do
      insert_into_url query_start (literal (b'/' ∷ []))
      insert_into_url (query_start + 1) path
      when url_with_question_mark
          then set_query_start (query_start + 1 + source_len path + 1)
          else return tt)
      self

-- `?` in front of the first parameter, `&` in front of the others
abbrev pub separator : ℕ → Bytes
separator query_start = (if query_start == 0 then b'?' else b'&') ∷ []

-- The start of the query is set with the first parameter.
unfoldable pub note_query_start : Run Store (Unit {0})
note_query_start self =
    (when self.request.query_start == 0 then set_query_start self.request.url.len else return tt)
      self

unfoldable pub az_http_request_set_query_parameter : Source → Source → Run Store (Unit {0})
unfolding note_query_start
az_http_request_set_query_parameter name value = do
  az_contract (source_is_valid name) arg
  az_contract (source_is_valid value) arg
  az_contract (ltb 0 (source_len name) && ltb 0 (source_len value)) arg
  (λ self. on_url (append_to (literal (separator self.request.query_start))) self)
  note_query_start
  on_url (append_to name)
  on_url (append_to (literal (b'=' ∷ [])))
  on_url (append_to value)

-- The `n` bytes from an address on.
unfoldable pub load_bytes : Memory → ℕ → ℕ → Option Bytes
load_bytes m p zero = some []
load_bytes m p (suc n) = elim (m p) [
  | none ↦ none
  | some b ↦ elim (load_bytes m (suc p) n) [ none ↦ none | some bs ↦ some (b ∷ bs) ]
]

module _ (layout : Layout) where
  unfoldable pub az_http_request_append_header : Span → Span → Run Store (Unit {0})
  az_http_request_append_header key value = do
    az_contract (az_span_is_valid key) arg
    az_contract (az_span_is_valid value) arg
    az_contract (ltb 0 key.len || ltb 0 value.len) arg
    on_headers (append_to (literal (layout.encode (record { key = key; value = value }))))

  -- `((az_pair *)ptr)[0]`
  unfoldable pub load_pair : ℕ → Run Store Pair
  unfolding load_bytes
  load_pair ptr self = elim (load_bytes self.mem ptr layout.size) [
    | none ↦ fault
    | some bs ↦ done (layout.decode bs) self
  ]

  -- A negative index is not refused: it reaches in front of the headers.
  unfoldable pub az_http_request_get_header : ℤ → Run Store Pair
  unfolding load_pair
  az_http_request_get_header (pos index) self =
      (when leb (self.request.headers.len / layout.size) index
          then throw arg
          else load_pair (self.request.headers.ptr + index * layout.size))
        self
  az_http_request_get_header (negsuc k) self =
      (when ltb self.request.headers.ptr (suc k * layout.size)
          then (λ s. fault)
          else load_pair (self.request.headers.ptr - suc k * layout.size))
        self

unfoldable pub az_http_request_get_parts : Run Store (Span × Span × Span)
az_http_request_get_parts self =
    done (self.request.method, self.request.url, self.request.body) self
