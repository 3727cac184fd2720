-- ===== src/Http/Request/Query.antt =====
-- `az_http_request_set_query_parameter`: the parameter that it appends to the URL.
use azure_sdk_for_c.Base.{
  ℕ, ◌+◌, ◌≤◌, ◌<◌, ◌==◌, lt→ltb, if◌then◌else◌, Bool-cases, Bytes, [], ◌∷◌, ◌++◌, length,
  length-append, ◌≡◌, refl, ap, ◌∙◌, arith, ◌⊎◌, inl, inr,
}
use azure_sdk_for_c.Http.Request.{
  Request, Store, on_url, separator, note_query_start, az_http_request_set_query_parameter,
}
use azure_sdk_for_c.Memory.Changes.{Changes-trans}
use azure_sdk_for_c.Result.{Run, fail, done, ◌>>=◌, ◌>>◌, when◌then◌else◌, buffer_overflow}
use azure_sdk_for_c.Source.{Source, literal}
use azure_sdk_for_c.Source.Streams.{Provides-len}
use azure_sdk_for_c.Span.Write.{Target, append_to}
use azure_sdk_for_c.Span.Write.Emits.{
  Extends, Extends-trans, Extends-IsOpen, IsOpen, Emits-Appends, FitsIn, Spoils, Keeps, Emits,
  Emits-literal, Emits-Ready,
}
use azure_sdk_for_c.Span.Write.Given.{Given, Keeps-Given, Given-valid, Emits-Given}

-- The URL of a request, with the memory.
abbrev pub url_target : Store → Target
url_target self = record { mem = self.mem; self = self.request.url }

abbrev pub set_url : Store → Target → Store
set_url self t = record { mem = t.mem; request = record self.request { url = t.self } }

-- A request with another URL and query start.
abbrev pub with_url : Store → Target → ℕ → Store
with_url self t n = record {
  mem = t.mem;
  request = record self.request { url = t.self; query_start = n };
}

-- A run that appends to the URL of a request whose URL is `Ready`.
abbrev pub WritesUrl : (Target → Type 0) → Run Store (Unit {0}) → Bytes → Type 0
WritesUrl Ready run bs =
    (self : Store)
    → IsOpen (url_target self)
    → Ready (url_target self)
    → (FitsIn (url_target self) bs
        × (t : Target) × (run self ≡ done tt (set_url self t))
        × Extends (url_target self) bs t)
      ⊎ ((self.request.url.capacity < self.request.url.len + length bs)
          × (t : Target) × (run self ≡ fail buffer_overflow (set_url self t))
          × Spoils (url_target self) t)

module _ (Ready : Target → Type 0) where
  pub on_url-WritesUrl :
      {run : Run Target (Unit {0})} {bs : Bytes}
      → Emits Ready run bs
      → WritesUrl Ready (on_url run) bs
  on_url-WritesUrl {run} {bs} f self b r = elim (Emits-Appends Ready (url_target self) f b r) [
    | inl (room, t, e, x) ↦ inl (room, t, rw (e, on_url), x)
    | inr (full, t, e, x) ↦ inr (full, t, rw (e, on_url), x)
  ]

  module _ (keep : Keeps Ready) {run next : Run Store (Unit {0})} {xs ys : Bytes} where
    pub seq-WritesUrl :
        WritesUrl Ready run xs → WritesUrl Ready next ys → WritesUrl Ready (run >> next) (xs ++ ys)
    seq-WritesUrl f g self b r = elim (f self b r) [
      | inr (full, t, e, x) ↦ inr (omega (arith, length-append xs ys), t, rw (e, ◌>>=◌), x)
      | inl (room, t, e, x) ↦
          elim (g (set_url self t) (Extends-IsOpen x b room)
            (keep (url_target self) t xs x room r)) [
              | inl (room', t', e', y) ↦ inl (
                omega (arith, length-append xs ys, x.longer, x.same_capacity),
                t',
                rw (e, ◌>>=◌) e',
                Extends-trans x y,
              )
              | inr (full, t', e', y) ↦ inr (
                omega (arith, length-append xs ys, x.longer, x.same_capacity),
                t',
                rw (e, ◌>>=◌) e',
                Changes-trans _ _ (omega arith) (omega arith) (omega (arith, x.longer, x.same_ptr))
                    (omega (arith, x.longer, x.same_ptr, x.same_capacity)) x.changes y,
              )
            ]
    ]

-- The start of the query after a parameter was appended.
abbrev pub query_start_after : Request → ℕ
query_start_after request =
    if request.query_start == 0 then request.url.len + 1 else request.query_start

note_query_start_lem :
    (self : Store)
    → note_query_start self
      ≡ done tt (
          with_url self (url_target self) (
            if self.request.query_start == 0
            then self.request.url.len
            else self.request.query_start))
unfolding note_query_start
note_query_start_lem self = elim (Bool-cases (self.request.query_start == 0)) [
  | inl none' ↦ rw none'
  | inr some' ↦ rw some'
]

-- `?name=value`, or `&name=value` behind other parameters
abbrev pub parameter : ℕ → Bytes → Bytes → Bytes
parameter query_start ns vs = separator query_start ++ (ns ++ ((b'=' ∷ []) ++ vs))

module _ (name value : Source) (ns vs : Bytes) where
  abbrev pub BothGiven : Target → Type 0
  BothGiven t = Given name ns t × Given value vs t

  Keeps-BothGiven : Keeps BothGiven
  Keeps-BothGiven t t' bs x h (g, k) =
      (Keeps-Given name ns t t' bs x h g, Keeps-Given value vs t t' bs x h k)

  rest_writes :
      WritesUrl BothGiven
        (on_url (append_to name)
          >> (on_url (append_to (literal (b'=' ∷ []))) >> on_url (append_to value)))
        (ns ++ ((b'=' ∷ []) ++ vs))
  rest_writes =
      seq-WritesUrl BothGiven Keeps-BothGiven
        (on_url-WritesUrl BothGiven (Emits-Ready (λ t r. r.0) (Emits-Given name ns)))
        (seq-WritesUrl BothGiven Keeps-BothGiven
          (on_url-WritesUrl BothGiven (Emits-literal BothGiven (b'=' ∷ [])))
          (on_url-WritesUrl BothGiven (Emits-Ready (λ t r. r.1) (Emits-Given value vs))))

  append_rest : Run Store (Unit {0})
  append_rest =
      on_url (append_to name)
      >> (on_url (append_to (literal (b'=' ∷ []))) >> on_url (append_to value))

  accepted :
      (self : Store)
      → Given name ns (url_target self)
      → Given value vs (url_target self)
      → 1 ≤ length ns
      → 1 ≤ length vs
      → az_http_request_set_query_parameter name value self
        ≡ (on_url (append_to (literal (separator self.request.query_start)))
              >> (note_query_start >> append_rest))
            self
  unfolding az_http_request_set_query_parameter append_rest
  accepted self g k h1 h2 =
      rw
        (
          Given-valid name ns _ g,
          Given-valid value vs _ k,
          Provides-len self.mem name ns g.provides,
          Provides-len self.mem value vs k.provides,
        )
        (rw (lt→ltb 0 (length ns) h1, lt→ltb 0 (length vs) h2))

  -- What follows the separator.
  rest_lem :
      (self : Store) (t : Target)
      → IsOpen t
      → BothGiven t
      → (n : ℕ) × (n
          ≡ (if self.request.query_start == 0 then t.self.len else self.request.query_start))
        × ((FitsIn t (ns ++ ((b'=' ∷ []) ++ vs))
              × (t' : Target) × ((note_query_start >> append_rest) (set_url self t)
                  ≡ done tt (with_url self t' n))
              × Extends t (ns ++ ((b'=' ∷ []) ++ vs)) t')
            ⊎ ((t.self.capacity < t.self.len + length (ns ++ ((b'=' ∷ []) ++ vs)))
                × (t' : Target) × ((note_query_start >> append_rest) (set_url self t)
                    ≡ fail buffer_overflow (with_url self t' n))
                × Spoils t t'))
  unfolding append_rest
  rest_lem self t b r =
      let n = if self.request.query_start == 0 then t.self.len else self.request.query_start in
      (
        n,
        refl,
        elim (rest_writes (with_url self t n) b r) [
          | inl (room, t', e, x) ↦
              inl (room, t', rw (note_query_start_lem (set_url self t), ◌>>=◌) e, x)
          | inr (full, t', e, x) ↦
              inr (full, t', rw (note_query_start_lem (set_url self t), ◌>>=◌) e, x)
        ],
      )

  pub az_http_request_set_query_parameter_lem :
      (self : Store)
      → IsOpen (url_target self)
      → Given name ns (url_target self)
      → Given value vs (url_target self)
      → 1 ≤ length ns
      → 1 ≤ length vs
      → (FitsIn (url_target self) (parameter self.request.query_start ns vs)
          × (t : Target) × (az_http_request_set_query_parameter name value self
              ≡ done tt (with_url self t (query_start_after self.request)))
          × Extends (url_target self) (parameter self.request.query_start ns vs) t)
        ⊎ ((self.request.url.capacity
              < self.request.url.len + length (parameter self.request.query_start ns vs))
            × (t : Target) × (n : ℕ) × (az_http_request_set_query_parameter name value self
                ≡ fail buffer_overflow (with_url self t n))
            × Spoils (url_target self) t)
  az_http_request_set_query_parameter_lem self b g k h1 h2 =
      let text = separator self.request.query_start in
      let start = accepted self g k h1 h2 in
      elim (on_url-WritesUrl BothGiven (Emits-literal BothGiven text) self b (g, k)) [
        | inr (full, t, e, x) ↦
            inr (omega arith, t, self.request.query_start, start ∙ rw (e, ◌>>=◌), x)
        | inl (room, t, e, x) ↦
            let (n, at_n, out) =
              rest_lem self t (Extends-IsOpen x b room)
                (Keeps-BothGiven (url_target self) t text x room (g, k)) in
            elim out [
              | inl (room', t', e', y) ↦ inl (
                omega (arith, x.longer, x.same_capacity),
                t',
                start
                    ∙ rw (e, ◌>>=◌)
                        (e'
                          ∙ ap (λ i. done tt (with_url self t' i))
                              (at_n
                                ∙ ap
                                    (λ l.
                                      if self.request.query_start == 0
                                      then l
                                      else self.request.query_start)
                                    x.longer)),
                Extends-trans x y,
              )
              | inr (full, t', e', y) ↦ inr (
                omega (arith, x.longer, x.same_capacity),
                t',
                n,
                start ∙ rw (e, ◌>>=◌) e',
                Changes-trans _ _ (omega arith) (omega arith) (omega (arith, x.longer, x.same_ptr))
                    (omega (arith, x.longer, x.same_ptr, x.same_capacity)) x.changes y,
              )
            ]
      ]
