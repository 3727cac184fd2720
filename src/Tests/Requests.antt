-- ===== src/Tests/Requests.antt =====
-- Requests: the theorems at concrete inputs.
use azure_sdk_for_c.Base.{
  ℕ, ◌+◌, ◌-◌, ◌/◌, ◌≤◌, ◌<◌, ◌&&◌, if◌then◌else◌, Bytes, [], ◌∷◌, ◌++◌, List, length, get_elem?,
  ◌≡◌, refl, arith, ◌⊎◌,
}
use azure_sdk_for_c.Base.Int.{pos}
use azure_sdk_for_c.Http.Request.Headers.{
  set_headers, headers_target, IsHeaders, looked_up, az_http_request_append_header_lem,
  az_http_request_get_header_lem,
}
use azure_sdk_for_c.Http.Request.Init.{query_index, az_http_request_init_lem, append_path-init}
use azure_sdk_for_c.Http.Request.Path.{
  IsUrl, KeepsRest, inserted, path_index, with_path, az_http_request_append_path_lem,
}
use azure_sdk_for_c.Http.Request.Query.{
  url_target, with_url, parameter, query_start_after, az_http_request_set_query_parameter_lem,
}
use azure_sdk_for_c.Http.Request.{
  Pair, Layout, IsLayout, Request, Store, az_http_request_init, az_http_request_append_path,
  az_http_request_set_query_parameter, az_http_request_append_header, az_http_request_get_header,
}
use azure_sdk_for_c.Memory.{Memory, readable, filled, written}
use azure_sdk_for_c.Result.{done, fail, arg, buffer_overflow}
use azure_sdk_for_c.Source.{literal}
use azure_sdk_for_c.Span.Write.Copy.{IsBuilder}
use azure_sdk_for_c.Span.Write.Emits.{Extends, FitsIn, Spoils}
use azure_sdk_for_c.Span.Write.Given.{Given}
use azure_sdk_for_c.Span.Write.Replace.{IsInside, Replaces, az_span_replace_lem}
use azure_sdk_for_c.Span.Write.{Target, az_span_replace}
use azure_sdk_for_c.Span.{Span, Views, az_span_init, az_span_null, az_span_is_valid}
use azure_sdk_for_c.Tests.{nowhere}

-- a/b?q
abbrev pub url_text : Bytes
url_text = b'a' ∷ b'/' ∷ b'b' ∷ b'?' ∷ b'q' ∷ []

abbrev pub mem : Memory
mem = written (filled (filled nowhere 100 0 40) 200 0 200) 100 url_text

abbrev pub url : Span
url = az_span_init 100 5 40

url-IsBuilder : IsBuilder mem url
unfolding readable filled written
url-IsBuilder = record { buffer = refl; within = omega arith }

pub url-Views : Views mem url url_text
unfolding written
url-Views = record {
  count = refl;
  fits = omega arith;
  holds = (refl, (refl, (refl, (refl, (refl, tt)))));
}

abbrev pub seg : Bytes
seg = b'x' ∷ b'y' ∷ []

seg-Given : Given (literal seg) seg (record { mem = mem; self = url })
seg-Given = record { provides = refl; apart = tt }

replace_example :
    (IsInside mem url 1 3 (literal seg) url_text seg
      × (m' : Memory) × (az_span_replace url 1 3 (literal seg) mem
          ≡ done (record url { len = url.len - (3 - 1) + length seg }) m')
      × Replaces mem url 1 3 (literal seg) url_text seg m')
    ⊎ (¬ IsInside mem url 1 3 (literal seg) url_text seg
        × (az_span_replace url 1 3 (literal seg) mem ≡ fail arg mem))
replace_example =
    az_span_replace_lem mem url 1 3 (literal seg) url_text seg url-IsBuilder (omega arith) url-Views
      seg-Given

-- A request whose query starts behind the question mark, as one that was set does.
abbrev request : Request
request = record {
  method = az_span_null;
  url = url;
  query_start = 4;
  headers = az_span_init 200 0 200;
  max_headers = 0;
  retry_headers_start_byte_offset = 0;
  body = az_span_null;
}

abbrev pub store : Store
store = record { mem = mem; request = request }

query_example :
    (FitsIn (url_target store) (parameter 4 seg seg)
      × (t : Target) × (az_http_request_set_query_parameter (literal seg) (literal seg) store
          ≡ done tt (with_url store t (query_start_after request)))
      × Extends (url_target store) (parameter 4 seg seg) t)
    ⊎ ((url.capacity < url.len + length (parameter 4 seg seg))
        × (t : Target) × (n : ℕ) × (az_http_request_set_query_parameter
              (literal seg)
              (literal seg)
              store
            ≡ fail buffer_overflow (with_url store t n))
        × Spoils (url_target store) t)
query_example =
    az_http_request_set_query_parameter_lem (literal seg) (literal seg) seg seg store url-IsBuilder
      seg-Given seg-Given (omega arith) (omega arith)

store-IsUrl : IsUrl store url_text
store-IsUrl = record { ready = url-IsBuilder; located = omega arith; views = url-Views }

path_example :
    ((url.len + 1 + length seg ≤ url.capacity)
      × (m : Memory) × (az_http_request_append_path (literal seg) store
          ≡ done tt (with_path store m seg))
      × IsUrl (with_path store m seg) (inserted (path_index request) (b'/' ∷ seg) url_text)
      × KeepsRest store m)
    ⊎ ((url.capacity < url.len + 1 + length seg)
        × (self' : Store) × (az_http_request_append_path (literal seg) store ≡ fail arg self')
        × (IsUrl self' url_text ⊎ IsUrl self' (inserted (path_index request) (b'/' ∷ []) url_text)))
path_example =
    az_http_request_append_path_lem (literal seg) seg store url_text store-IsUrl seg-Given
      (omega arith)

-- A layout with a byte for each number of two spans.
abbrev numbers : Pair → Bytes
numbers p =
    p.key.ptr ∷ p.key.len ∷ p.key.capacity ∷ p.value.ptr ∷ p.value.len ∷ p.value.capacity ∷ []

abbrev from_numbers : Bytes → Pair
from_numbers (a ∷ b ∷ c ∷ d ∷ e ∷ f ∷ xs) = record {
  key = az_span_init a b c;
  value = az_span_init d e f;
}
from_numbers xs = record { key = az_span_null; value = az_span_null }

abbrev pub flat : Layout
flat = record { size = 6; encode = numbers; decode = from_numbers }

pub flat-IsLayout : IsLayout flat
flat-IsLayout = record {
  positive = omega arith;
  size_encode = λ p. refl;
  decode_encode = λ p. refl;
}

init_example : az_http_request_init flat url url url az_span_null mem ≡ (
    if az_span_is_valid url && az_span_is_valid url && az_span_is_valid url
    then done
        (record {
          method = url;
          url = url;
          query_start = query_index url_text 0;
          headers = url;
          max_headers = 40 / 6;
          retry_headers_start_byte_offset = 0;
          body = az_span_null;
        })
        mem
    else fail arg mem)
init_example = az_http_request_init_lem flat url url url az_span_null url_text mem url-Views

misplaced_example :
    (r : Request) × (self : Store) × (az_http_request_init flat url url url az_span_null mem
      ≡ done r mem)
    × (az_http_request_append_path (literal seg) (record { mem = mem; request = r }) ≡ done tt self)
    × Views self.mem self.request.url
        ((b'a' ∷ b'/' ∷ []) ++ ((b'/' ∷ seg) ++ (b'b' ∷ b'?' ∷ b'q' ∷ [])))
unfolding az_span_is_valid
misplaced_example =
    append_path-init flat url url url az_span_null (b'a' ∷ b'/' ∷ []) (b'q' ∷ []) b'b' (literal seg)
      seg mem refl refl url-IsBuilder (omega arith)
      (λ e. absurd (omega (arith, e)), (λ e. absurd (omega (arith, e)), tt))
      (λ e. absurd (omega (arith, e))) url-Views seg-Given (omega arith)

pub empty-IsHeaders : IsHeaders flat flat-IsLayout store []
unfolding readable filled written
empty-IsHeaders = record {
  ready = record { buffer = refl; within = omega arith };
  views = record { count = refl; fits = omega arith; holds = tt };
}

append_header_example :
    ((0 + 6 ≤ 200)
      × (t : Target) × (az_http_request_append_header flat url url store
          ≡ done tt (set_headers store t))
      × IsHeaders flat flat-IsLayout
          (set_headers store t)
          ([] ++ (record { key = url; value = url } ∷ []))
      × Spoils (headers_target store) t)
    ⊎ ((200 < 0 + 6)
        × (t : Target) × (az_http_request_append_header flat url url store
            ≡ fail buffer_overflow (set_headers store t))
        × Spoils (headers_target store) t)
unfolding az_span_is_valid
append_header_example =
    az_http_request_append_header_lem flat flat-IsLayout store [] url url empty-IsHeaders refl refl
      (omega arith)

-- A request with a header.
abbrev one : List Pair
one = record { key = az_span_init 1 2 3; value = az_span_init 4 5 6 } ∷ []

abbrev store_one : Store
store_one = record {
  mem = written nowhere 200 (1 ∷ 2 ∷ 3 ∷ 4 ∷ 5 ∷ 6 ∷ []);
  request = record request { headers = az_span_init 200 6 6 };
}

one-IsHeaders : IsHeaders flat flat-IsLayout store_one one
unfolding readable written
one-IsHeaders = record {
  ready = record { buffer = refl; within = omega arith };
  views = record {
    count = refl;
    fits = omega arith;
    holds = (refl, (refl, (refl, (refl, (refl, (refl, tt))))));
  };
}

get_header_example :
    az_http_request_get_header flat (pos 0) store_one
    ≡ looked_up flat flat-IsLayout (get_elem? one 0) store_one
get_header_example = az_http_request_get_header_lem flat flat-IsLayout store_one one 0 one-IsHeaders
