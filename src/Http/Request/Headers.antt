-- ===== src/Http/Request/Headers.antt =====
-- The headers of a request: `az_http_request_append_header` and `az_http_request_get_header`.
use azure_sdk_for_c.Base.{
  ℕ, zero, suc, ◌+◌, ◌*◌, ◌/◌, ◌≤◌, ◌<◌, true, ltb, ◌||◌, le→leb, lt→leb_false, Option, some, none,
  List, Bytes, [], ◌∷◌, ◌++◌, append_assoc, append-nil, get_elem?, get_elem?_lt, get_elem?_ge,
  length, length-append, ◌≡◌, refl, sym, ap, subst, ◌∙◌, arith, ◌⊎◌, inl, inr,
}
use azure_sdk_for_c.Base.Int.{pos}
use azure_sdk_for_c.Http.Request.{
  Store, Pair, Layout, IsLayout, on_headers, load_bytes, load_pair, az_http_request_append_header,
  az_http_request_get_header,
}
use azure_sdk_for_c.Memory.{Memory, Holds, Holds-left, Holds-right}
use azure_sdk_for_c.Memory.Changes.{Changes-trans, Changes-refl}
use azure_sdk_for_c.Result.{Outcome, fail, done, arg, buffer_overflow}
use azure_sdk_for_c.Span.{Span, Views, az_span_is_valid}
use azure_sdk_for_c.Span.Write.{Target}
use azure_sdk_for_c.Span.Write.Emits.{
  IsOpen, Emits-Appends, Emits-literal, Extends-IsOpen, Extends-Views, Spoils,
}
use azure_sdk_for_c.Span.Decimal.Print.{Always}
use native.Mathlib.Decide.{dec_lt}
use native.Mathlib.Nat.{zero-mul, suc-mul, mul-div_cancel}
use mathlib.Core.Option.{some-injective, none-ne-some}

abbrev pub headers_target : Store → Target
headers_target self = record { mem = self.mem; self = self.request.headers }

abbrev pub set_headers : Store → Target → Store
set_headers self t = record { mem = t.mem; request = record self.request { headers = t.self } }

pub load_bytes-Holds :
    (bs : Bytes) (m : Memory) (p : ℕ) → Holds m p bs → load_bytes m p (length bs) ≡ some bs
unfolding load_bytes
load_bytes-Holds [] m p h = refl
load_bytes-Holds (b ∷ bs) m p (h, hs) = rw (h, load_bytes-Holds bs m (suc p) hs)

module _ (layout : Layout) (laws : IsLayout layout) where
  -- The bytes of pairs, one after the other.
  abbrev pub encode_all : List Pair → Bytes
  encode_all [] = []
  encode_all (p ∷ ps) = layout.encode p ++ encode_all ps

  -- The headers of a request are the pairs `ps`, in a buffer.
  pub record IsHeaders (self : Store) (ps : List Pair) : Type 0 where
    pub ready : IsOpen (headers_target self)
    pub views : Views self.mem self.request.headers (encode_all ps)

  length-encode_all : (ps : List Pair) → length (encode_all ps) ≡ length ps * layout.size
  length-encode_all [] = sym (zero-mul layout.size)
  length-encode_all (p ∷ ps) = omega (
    arith,
    length-append (layout.encode p) (encode_all ps),
    laws.size_encode p,
    length-encode_all ps,
    suc-mul (length ps) layout.size,
  )

  encode_all-append :
      (ps : List Pair) (p : Pair) → encode_all ps ++ layout.encode p ≡ encode_all (ps ++ (p ∷ []))
  encode_all-append [] p = sym (append-nil (layout.encode p))
  encode_all-append (q ∷ ps) p =
      append_assoc (layout.encode q) (encode_all ps) (layout.encode p)
      ∙ ap (λ xs. layout.encode q ++ xs) (encode_all-append ps p)

  -- What stands at the place of a pair.
  Holds-pair :
      (ps : List Pair) (i : ℕ) (p : Pair) (m : Memory) (a : ℕ)
      → get_elem? ps i ≡ some p
      → Holds m a (encode_all ps)
      → Holds m (a + i * layout.size) (layout.encode p)
  Holds-pair [] i p m a e h = absurd (none-ne-some _ e)
  Holds-pair (q ∷ ps) zero p m a e h =
      let at_start : a + 0 * layout.size ≡ a = omega (arith, zero-mul layout.size) in
      rw at_start (
        subst (λ x. Holds m a (layout.encode x)) (some-injective _ _ e)
          (Holds-left (layout.encode q) (encode_all ps) m a h))
  Holds-pair (q ∷ ps) (suc i) p m a e h =
      let later : a + suc i * layout.size ≡ a + layout.size + i * layout.size =
        omega (arith, suc-mul i layout.size) in
      rw later (
        Holds-pair ps i p m (a + layout.size) e
          (rw (laws.size_encode q) at (Holds-right (layout.encode q) (encode_all ps) m a h)))

  -- What reading a header by its index gives.
  abbrev pub looked_up : Option Pair → Store → Outcome Store Pair
  looked_up none self = fail arg self
  looked_up (some p) self = done p self

  pub count_lem :
      (ps : List Pair) (self : Store)
      → IsHeaders self ps
      → self.request.headers.len / layout.size ≡ length ps
  count_lem ps self h =
      rw (h.views.count, length-encode_all ps) (mul-div_cancel (length ps) laws.positive)

  load_pair_lem :
      (self : Store) (p : Pair) (a : ℕ)
      → Holds self.mem a (layout.encode p)
      → load_pair layout a self ≡ done p self
  unfolding load_pair
  load_pair_lem self p a h =
      let loaded : load_bytes self.mem a layout.size ≡ some (layout.encode p) =
        subst (λ n. load_bytes self.mem a n ≡ some (layout.encode p)) (laws.size_encode p)
          (load_bytes-Holds (layout.encode p) self.mem a h) in
      rw (loaded, load_pair) (rw (laws.decode_encode p))

  -- The header with an index is the pair that was appended at this place; an index behind the last
  -- header is an argument error.
  pub az_http_request_get_header_lem :
      (self : Store) (ps : List Pair) (index : ℕ)
      → IsHeaders self ps
      → az_http_request_get_header layout (pos index) self ≡ looked_up (get_elem? ps index) self
  unfolding az_http_request_get_header
  az_http_request_get_header_lem self ps index h = elim (dec_lt index (length ps)) [
    | no behind ↦
        rw (get_elem?_ge ps index (omega arith), count_lem ps self h)
          (rw (le→leb (length ps) index (omega arith)))
    | yes inside ↦
        let (p, e) = get_elem?_lt ps index inside in
        rw (e, count_lem ps self h)
          (rw (lt→leb_false (length ps) index inside) (
            load_pair_lem self p (self.request.headers.ptr + index * layout.size)
              (Holds-pair ps index p self.mem self.request.headers.ptr e h.views.holds)))
  ]

  -- A header that is appended to a request, with a valid key and value that are not both empty, is
  -- put behind its headers if the buffer has room for it, and nothing outside of the buffer changes;
  -- else the overflow is reported and only unused bytes of the buffer have changed.
  pub az_http_request_append_header_lem :
      (self : Store) (ps : List Pair) (key value : Span)
      → IsHeaders self ps
      → az_span_is_valid key ≡ true
      → az_span_is_valid value ≡ true
      → 1 ≤ key.len + value.len
      → ((self.request.headers.len + layout.size ≤ self.request.headers.capacity)
          × (t : Target) × (az_http_request_append_header layout key value self
              ≡ done tt (set_headers self t))
          × IsHeaders (set_headers self t) (ps ++ (record { key = key; value = value } ∷ []))
          × Spoils (headers_target self) t)
        ⊎ ((self.request.headers.capacity < self.request.headers.len + layout.size)
            × (t : Target) × (az_http_request_append_header layout key value self
                ≡ fail buffer_overflow (set_headers self t))
            × Spoils (headers_target self) t)
  unfolding az_http_request_append_header
  az_http_request_append_header_lem self ps key value h v1 v2 some' =
      let p : Pair = record { key = key; value = value } in
      let filled' : ltb 0 key.len || ltb 0 value.len ≡ true = ground arith in
      elim (Emits-Appends Always (headers_target self) (Emits-literal Always (layout.encode p))
        h.ready tt) [
          | inl (room, t, e, x) ↦ inl (
            omega (arith, laws.size_encode p),
            t,
            rw (v1, v2, filled') (rw (e, on_headers)),
            record {
              ready = Extends-IsOpen x h.ready room;
              views =
                  subst (λ bs. Views t.mem t.self bs) (encode_all-append ps p)
                    (Extends-Views x room h.views);
            },
            Changes-trans _ _ (omega arith) (omega arith) (omega arith) (omega arith) x.changes
                (Changes-refl t.mem (self.request.headers.ptr + self.request.headers.len) 0),
          )
          | inr (full, t, e, x) ↦
              inr
                (omega (arith, laws.size_encode p), t, rw (v1, v2, filled') (rw (e, on_headers)), x)
        ]

  -- A header for which there is room.
  pub append_header_fits :
      (self : Store) (ps : List Pair) (key value : Span)
      → IsHeaders self ps
      → az_span_is_valid key ≡ true
      → az_span_is_valid value ≡ true
      → 1 ≤ key.len + value.len
      → self.request.headers.len + layout.size ≤ self.request.headers.capacity
      → (t : Target) × (az_http_request_append_header layout key value self
          ≡ done tt (set_headers self t))
        × IsHeaders (set_headers self t) (ps ++ (record { key = key; value = value } ∷ []))
        × (t.self.len ≡ self.request.headers.len + layout.size)
        × (t.self.capacity ≡ self.request.headers.capacity)
        × (t.self.ptr ≡ self.request.headers.ptr)
        × Spoils (headers_target self) t
  unfolding az_http_request_append_header
  append_header_fits self ps key value h v1 v2 some' room =
      let p : Pair = record { key = key; value = value } in
      let filled' : ltb 0 key.len || ltb 0 value.len ≡ true = ground arith in
      let fits : self.request.headers.len + length (layout.encode p)
          ≤ self.request.headers.capacity =
        omega (arith, laws.size_encode p) in
      let emits = Emits-literal Always (layout.encode p) in
      let (t, e, x) = emits.fits (headers_target self) h.ready tt fits in
      (
        t,
        rw (v1, v2, filled') (rw (e, on_headers)),
        record {
          ready = Extends-IsOpen x h.ready fits;
          views =
              subst (λ bs. Views t.mem t.self bs) (encode_all-append ps p)
                (Extends-Views x fits h.views);
        },
        omega (arith, laws.size_encode p, x.longer),
        x.same_capacity,
        x.same_ptr,
        Changes-trans _ _ (omega arith) (omega arith) (omega arith) (omega arith) x.changes
            (Changes-refl t.mem (self.request.headers.ptr + self.request.headers.len) 0),
      )
