-- ===== src/Http/Retry.antt =====
-- sdk/core/core/src/az_http_private.h: headers that belong to one attempt are removed before the next.
use azure_sdk_for_c.Base.{
  ◌+◌, ◌≤◌, List, [], ◌∷◌, ◌++◌, length, ◌≡◌, refl, arith, ◌*◌, true, sym, ap, ◌∙◌, subst,
  append_assoc, append-nil, length-append,
}
use azure_sdk_for_c.Memory.{Holds, Holds-left}
use native.Mathlib.Nat.{suc-mul}
use azure_sdk_for_c.Http.Request.{
  Pair, Layout, IsLayout, Request, Store, az_http_request_append_header,
}
use azure_sdk_for_c.Http.Request.Headers.{IsHeaders, append_header_fits, encode_all, set_headers}
use azure_sdk_for_c.Result.{Run, done, ◌>>=◌, ◌>>◌}
use azure_sdk_for_c.Span.{az_span_init, az_span_is_valid}

unfoldable pub az_http_request_mark_retry_headers_start : Request → Request
az_http_request_mark_retry_headers_start hrb = record hrb {
  retry_headers_start_byte_offset = hrb.headers.len;
}

unfoldable pub az_http_request_remove_retry_headers : Request → Request
az_http_request_remove_retry_headers hrb = record hrb {
  headers = az_span_init hrb.headers.ptr hrb.retry_headers_start_byte_offset hrb.headers.capacity;
}

module _ (layout : Layout) where
  -- The headers of an attempt, one after the other.
  abbrev pub append_all : List Pair → Run Store (Unit {0})
  append_all [] self = done tt self
  append_all (p ∷ ps) self =
      (do az_http_request_append_header layout p.key p.value; append_all ps) self

-- What is asked of a header that is appended.
pub record IsHeader (p : Pair) : Type 0 where
  pub key_valid : az_span_is_valid p.key ≡ true
  pub value_valid : az_span_is_valid p.value ≡ true
  pub filled : 1 ≤ p.key.len + p.value.len

abbrev pub AllHeaders : List Pair → Type 0
AllHeaders [] = Unit {0}
AllHeaders (p ∷ ps) = IsHeader p × AllHeaders ps

module _ (layout : Layout) (laws : IsLayout layout) where
  abbrev Has : Store → List Pair → Type 0
  Has self ps = IsHeaders layout laws self ps

  encode_all-append :
      (ps qs : List Pair)
      → encode_all layout laws (ps ++ qs) ≡ encode_all layout laws ps ++ encode_all layout laws qs
  encode_all-append [] qs = refl
  encode_all-append (p ∷ ps) qs =
      ap (λ bs. layout.encode p ++ bs) (encode_all-append ps qs)
      ∙ sym (append_assoc (layout.encode p) (encode_all layout laws ps) (encode_all layout laws qs))

  append_all-Has :
      (qs ps : List Pair) (self : Store)
      → Has self ps
      → AllHeaders qs
      → self.request.headers.len + length qs * layout.size ≤ self.request.headers.capacity
      → (self' : Store) × (append_all layout qs self ≡ done tt self')
        × Has self' (ps ++ qs)
        × (self'.request.retry_headers_start_byte_offset
            ≡ self.request.retry_headers_start_byte_offset)
  append_all-Has [] ps self h a room = (self, refl, subst (Has self) (sym (append-nil ps)) h, refl)
  append_all-Has (q ∷ qs) ps self h (a, as') room =
      let count = suc-mul (length qs) layout.size in
      let (t, e, h', longer, same, start, spoils) =
        append_header_fits layout laws self ps q.key q.value h a.key_valid a.value_valid a.filled
          (omega (arith, room, count)) in
      let (self', e', h'', kept) =
        append_all-Has qs (ps ++ (q ∷ [])) (set_headers self t) h' as'
          (omega (arith, room, count, longer, same)) in
      (self', rw (e, ◌>>=◌) e', subst (Has self') (append_assoc ps (q ∷ []) qs) h'', kept)

  removed-Has :
      (self : Store) (ps qs : List Pair)
      → Has self (ps ++ qs)
      → self.request.retry_headers_start_byte_offset ≡ length (encode_all layout laws ps)
      → Has (record self { request = az_http_request_remove_retry_headers self.request }) ps
  unfolding az_http_request_remove_retry_headers
  removed-Has self ps qs h start =
      let whole : Holds self.mem self.request.headers.ptr
          (encode_all layout laws ps ++ encode_all layout laws qs) =
        subst (Holds self.mem self.request.headers.ptr) (encode_all-append ps qs) h.views.holds in
      let size : self.request.headers.len
          ≡ length (encode_all layout laws ps) + length (encode_all layout laws qs) =
        h.views.count
        ∙ (ap length (encode_all-append ps qs)
            ∙ length-append (encode_all layout laws ps) (encode_all layout laws qs)) in
      record {
        ready = record {
          buffer = h.ready.buffer;
          within = omega (arith, h.ready.within, size, start);
        };
        views = record {
          count = start;
          fits = omega (arith, h.ready.within, size, start);
          holds =
              Holds-left (encode_all layout laws ps) (encode_all layout laws qs) self.mem
                self.request.headers.ptr whole;
        };
      }

  -- Headers that are appended after the start of the retry headers was marked are removed again: when
  -- there is room for them they all are appended, and `_az_http_request_remove_retry_headers` leaves
  -- the headers that the request had at the mark.
  pub remove-mark :
      (ps qs : List Pair) (self : Store)
      → IsHeaders layout laws self ps
      → AllHeaders qs
      → self.request.headers.len + length qs * layout.size ≤ self.request.headers.capacity
      → (self' : Store) × (append_all layout qs
            (record self { request = az_http_request_mark_retry_headers_start self.request })
          ≡ done tt self')
        × IsHeaders layout laws self' (ps ++ qs)
        × IsHeaders layout laws
            (record self' { request = az_http_request_remove_retry_headers self'.request })
            ps
  unfolding az_http_request_mark_retry_headers_start
  remove-mark ps qs self h a room =
      let marked : Store = record self {
        request = az_http_request_mark_retry_headers_start self.request;
      } in
      let (self', e, h', kept) =
        append_all-Has qs ps marked (record { ready = h.ready; views = h.views }) a room in
      (self', e, h', removed-Has self' ps qs h' (kept ∙ h.views.count))
