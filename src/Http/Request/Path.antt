-- ===== src/Http/Request/Path.antt =====
-- `az_http_request_append_path`: the URL after a segment was added to its path.
use azure_sdk_for_c.Base.{
  ℕ, zero, suc, ◌+◌, ◌-◌, ◌≤◌, ◌<◌, ltb, if◌then◌else◌, Bool-cases, Bytes, [], ◌∷◌, ◌++◌, length,
  length-append, length-take, take, drop, ◌≡◌, refl, ap, subst, arith, ◌⊎◌, inl, inr,
}
use azure_sdk_for_c.Http.Request.{
  Request, Store, on_url, set_query_start, path_end, insert_into_url, az_http_request_append_path,
}
use azure_sdk_for_c.Http.Request.Query.{url_target, set_url, with_url}
use azure_sdk_for_c.Memory.{Memory}
use azure_sdk_for_c.Memory.Changes.{Changes, Changes-trans, Changes-readable}
use azure_sdk_for_c.Result.{Run, return, fail, done, ◌>>=◌, when◌then◌else◌, arg}
use azure_sdk_for_c.Source.{Source, at, literal, source_len}
use azure_sdk_for_c.Source.Streams.{Provides-len}
use azure_sdk_for_c.Span.{Span, Views}
use azure_sdk_for_c.Span.Write.{in_place}
use azure_sdk_for_c.Span.Write.Emits.{IsOpen}
use azure_sdk_for_c.Span.Write.Given.{Given, IsApart}
use azure_sdk_for_c.Span.Write.Replace.{az_span_replace_lem, Provides-Changes}
use native.Mathlib.Decide.{dec_le}

-- `bs` with `new` put in at index `i`.
abbrev pub inserted : ℕ → Bytes → Bytes → Bytes
inserted i new bs = take i bs ++ (new ++ drop i bs)

-- The URL of a request is a buffer, not at address 0, with the content `bs`.
pub record IsUrl (self : Store) (bs : Bytes) : Type 0 where
  pub ready : IsOpen (url_target self)
  pub located : 0 < self.request.url.ptr
  pub views : Views self.mem self.request.url bs

-- Only the buffer of the URL has changed.
abbrev pub KeepsRest : Store → Memory → Type 0
KeepsRest self m = Changes self.mem m self.request.url.ptr self.request.url.capacity

-- The URL of a request with another memory and length.
abbrev pub resized : Store → Memory → ℕ → Store
resized self m n = set_url self (record { mem = m; self = record self.request.url { len = n } })

-- One insertion.
insert_into_url_lem :
    (self : Store) (i : ℕ) (src : Source) (bs new : Bytes)
    → IsUrl self bs
    → Given src new (url_target self)
    → i ≤ length bs
    → ((self.request.url.len + length new ≤ self.request.url.capacity)
        × (m : Memory) × (insert_into_url i src self
            ≡ done tt (resized self m (self.request.url.len + length new)))
        × IsUrl (resized self m (self.request.url.len + length new)) (inserted i new bs)
        × KeepsRest self m)
      ⊎ ((self.request.url.capacity < self.request.url.len + length new)
          × (insert_into_url i src self ≡ fail arg self))
unfolding in_place
insert_into_url_lem self i src bs new u g h =
    let len = self.request.url.len in
    let grown : len - (i - i) + length new ≡ len + length new = omega arith in
    elim (az_span_replace_lem self.mem self.request.url i i src bs new u.ready u.located u.views
      g) [
        | inl ((a, b, c), m, e, (v, k)) ↦ inl (
          rw grown at c,
          m,
          rw (e, in_place, on_url, grown),
          record {
            ready = record {
              buffer = Changes-readable _ _ k u.ready.buffer;
              within = rw grown at c;
            };
            located = u.located;
            views = rw grown at v;
          },
          k,
        )
        | inr (out, e) ↦ inr (
          elim (dec_le (len + length new) self.request.url.capacity) [
            | yes room ↦ absurd (out (omega arith, omega (arith, u.views.count), omega arith))
            | no full ↦ omega arith
          ],
          rw (e, in_place, on_url),
        )
      ]

-- A slash and then a path behind it, put in one after the other.
with_segment :
    (i : ℕ) (ps bs : Bytes)
    → i ≤ length bs
    → inserted (suc i) ps (inserted i (b'/' ∷ []) bs) ≡ inserted i (b'/' ∷ ps) bs
with_segment zero ps bs h = refl
with_segment (suc i) ps [] h = absurd (omega arith)
with_segment (suc i) ps (b ∷ bs) h = ap (λ xs. b ∷ xs) (with_segment i ps bs (omega arith))

with_segment_next :
    (i : ℕ) (ps bs : Bytes)
    → i ≤ length bs
    → inserted (i + 1) ps (inserted i (b'/' ∷ []) bs) ≡ inserted i (b'/' ∷ ps) bs
with_segment_next i ps bs h = let e : i + 1 ≡ suc i = omega arith in rw e (with_segment i ps bs h)

IsApart-resized :
    (src : Source) (s : Span) (n : ℕ) → IsApart src s → IsApart src (record s { len = n })
IsApart-resized (at x) s n a = a
IsApart-resized (literal bs) s n a = tt

-- The index where a segment is put in.
abbrev pub path_index : Request → ℕ
path_index request = if ltb 0 request.query_start then request.query_start - 1 else request.url.len

abbrev pub moved_query_start : Request → Bytes → ℕ
moved_query_start request ps =
    if ltb 0 request.query_start
    then path_index request + 1 + length ps + 1
    else request.query_start

abbrev pub with_path : Store → Memory → Bytes → Store
with_path self m ps =
    with_url self
      (record {
        mem = m;
        self = record self.request.url { len = self.request.url.len + 1 + length ps };
      })
      (moved_query_start self.request ps)

module _ (path : Source) (ps : Bytes) where
  note_moved : Request → Run Store (Unit {0})
  note_moved request =
      when ltb 0 request.query_start
      then set_query_start (path_index request + 1 + source_len path + 1)
      else return tt

  note_moved_lem :
      (self : Store) (m : Memory)
      → source_len path ≡ length ps
      → note_moved self.request (resized self m (self.request.url.len + 1 + length ps))
        ≡ done tt (with_path self m ps)
  unfolding note_moved
  note_moved_lem self m e = elim (Bool-cases (ltb 0 self.request.query_start)) [
    | inl query ↦ rw (query, e)
    | inr none' ↦ rw none'
  ]

  pub az_http_request_append_path_lem :
      (self : Store) (bs : Bytes)
      → IsUrl self bs
      → Given path ps (url_target self)
      → path_index self.request ≤ length bs
      → ((self.request.url.len + 1 + length ps ≤ self.request.url.capacity)
          × (m : Memory) × (az_http_request_append_path path self ≡ done tt (with_path self m ps))
          × IsUrl (with_path self m ps) (inserted (path_index self.request) (b'/' ∷ ps) bs)
          × KeepsRest self m)
        ⊎ ((self.request.url.capacity < self.request.url.len + 1 + length ps)
            × (self' : Store) × (az_http_request_append_path path self ≡ fail arg self')
            × (IsUrl self' bs ⊎ IsUrl self' (inserted (path_index self.request) (b'/' ∷ []) bs)))
  unfolding az_http_request_append_path path_end note_moved
  az_http_request_append_path_lem self bs u g h =
      let i = path_index self.request in
      elim (insert_into_url_lem self i (literal (b'/' ∷ [])) bs (b'/' ∷ []) u
        (record { provides = refl; apart = tt }) h) [
          | inr (full, e) ↦ inr (omega arith, self, rw (e, ◌>>=◌), inl u)
          | inl (room, m, e, u1, k) ↦
              let self1 = resized self m (self.request.url.len + 1) in
              let g1 : Given path ps (url_target self1) = record {
                provides =
                    Provides-Changes self.mem m self.request.url path ps _ _ g.provides g.apart k
                      (omega arith) (omega arith);
                apart = IsApart-resized path self.request.url _ g.apart;
              } in
              elim (insert_into_url_lem self1 (i + 1) path (inserted i (b'/' ∷ []) bs) ps u1 g1
                (omega (arith, length-append (take i bs) (b'/' ∷ drop i bs), length-take i bs))) [
                  | inr (full, e2) ↦ inr (full, self1, rw (e, ◌>>=◌) (rw (e2, ◌>>=◌)), inr u1)
                  | inl (room2, m2, e2, u2, k2) ↦ inl (
                    room2,
                    m2,
                    rw (e, ◌>>=◌)
                        (rw (e2, ◌>>=◌)
                          (note_moved_lem self m2 (Provides-len self.mem path ps g.provides))),
                    record {
                      ready = u2.ready;
                      located = u2.located;
                      views =
                          subst
                            (λ xs.
                              Views m2
                                (resized self1 m2
                                  (self.request.url.len + 1 + length ps)).request.url
                                xs)
                            (with_segment_next i ps bs h) u2.views;
                    },
                    Changes-trans _ _ (omega arith) (omega arith) (omega arith) (omega arith) k k2,
                  )
                ]
        ]
