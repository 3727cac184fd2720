-- ===== src/Span/Write/Zeros.antt =====
-- `_az_span_append_zeros`: what it writes, and when it refuses.
use azure_sdk_for_c.Base.{
  ℕ, zero, suc, ◌+◌, ◌≤◌, ◌<◌, true, le→leb, lt→ltb, le→ltb_false, Bytes, [], ◌∷◌, length, ◌≡◌,
  refl, ap, arith, ◌⊎◌, inl, inr, some,
}
use azure_sdk_for_c.Memory.{Memory, readable, filled, memset, Holds}
use azure_sdk_for_c.Memory.Changes.{Changes-filled, filled_inside}
use azure_sdk_for_c.Result.{fail, done, ◌>>=◌, ◌>>◌, when◌then◌else◌, buffer_overflow}
use azure_sdk_for_c.Span.Write.Copy.{
  Stored, Stored-nothing, IsBuilder, Appended, drop_end, drop_full, readable_part,
}
use azure_sdk_for_c.Span.Write.{az_span_set, az_span_append_zeros}
use azure_sdk_for_c.Span.{Span, az_span_init, az_span_null, az_span_take, az_span_drop}
use native.Mathlib.Decide.{dec_le}

abbrev pub zeros : ℕ → Bytes
zeros zero = []
zeros (suc n) = 0 ∷ zeros n

length-zeros : (n : ℕ) → length (zeros n) ≡ n
length-zeros zero = refl
length-zeros (suc n) = ap suc (length-zeros n)

Holds-zeros :
    (n : ℕ) (m : Memory) (p : ℕ) → ((i : ℕ) → i < n → m (p + i) ≡ some 0) → Holds m p (zeros n)
Holds-zeros zero m p h = tt
Holds-zeros (suc n) m p h = (
  (let e : p + 0 ≡ p = omega arith in rw e at (h 0 (omega arith))),
  Holds-zeros n m (suc p)
      (λ i hi. let e : suc p + i ≡ p + suc i = omega arith in rw e (h (suc i) (omega arith))),
)

set-Stored :
    (n : ℕ) (m : Memory) (p l : ℕ)
    → readable m p n ≡ true
    → (m' : Memory) × (az_span_set (az_span_init p l n) 0 m ≡ done tt m') × Stored m p (zeros n) m'
unfolding az_span_set memset
set-Stored n m p l r = (
  filled m p 0 n,
  rw r,
  record {
    holds = Holds-zeros n (filled m p 0 n) p (filled_inside m p 0 n);
    changes = rw (length-zeros n) (Changes-filled m p 0 n r);
  },
)

-- The rest of the buffer, up to `size` bytes of it.
unfoldable room_for : Span → ℕ → Span
room_for s size = az_span_take (az_span_drop s s.len) size

room_for_nothing : (s : Span) (size : ℕ) → s.capacity ≤ s.len → room_for s size ≡ az_span_null
unfolding room_for az_span_take
room_for_nothing s size h = rw (drop_full s h) (rw (le→leb 0 size (omega arith)) refl)

room_for_some :
    (s : Span) (size : ℕ)
    → s.len < s.capacity
    → s.len + size ≤ s.capacity
    → room_for s size ≡ az_span_init (s.ptr + s.len) 0 size
unfolding room_for az_span_take
room_for_some s size h fits = rw (drop_end s h) (ground arith)

room_for_short :
    (s : Span) (size : ℕ)
    → s.capacity < s.len + size
    → s.len ≤ s.capacity
    → (room_for s size).capacity < size
unfolding room_for az_span_take
room_for_short s size h within = elim (dec_le s.capacity s.len) [
  | yes full ↦ rw (drop_full s full) (rw (le→leb 0 size (omega arith)) (omega arith))
  | no more ↦ rw (drop_end s (omega arith)) (ground arith)
]

zeros-Stored :
    (m : Memory) (s : Span) (size : ℕ)
    → IsBuilder m s
    → s.len + size ≤ s.capacity
    → ((room_for s size).capacity ≡ size)
      × (m' : Memory) × (az_span_set (room_for s size) 0 m ≡ done tt m')
      × Stored m (s.ptr + s.len) (zeros size) m'
zeros-Stored m s zero b fits = elim (dec_le s.capacity s.len) [
  | yes full ↦
      let (m', e, st) = set-Stored 0 m 0 0 (unfold readable in refl) in
      rw (room_for_nothing s 0 full) (refl, m', e, Stored-nothing m 0 _ m' st)
  | no more ↦
      let (m', e, st) = set-Stored 0 m (s.ptr + s.len) 0 (unfold readable in refl) in
      rw (room_for_some s 0 (omega arith) fits) (refl, m', e, st)
]
zeros-Stored m s (suc n) b fits =
    let (m', e, st) =
      set-Stored (suc n) m (s.ptr + s.len) 0
        (readable_part m s.ptr s.capacity s.len (suc n) b.buffer fits) in
    rw (room_for_some s (suc n) (omega arith) fits) (refl, m', e, st)

-- Zeros are appended to a builder: if they are within the remaining capacity they are put behind its
-- content, and nothing else changes; else the overflow is reported and the memory is as before.
pub az_span_append_zeros_lem :
    (m : Memory) (s : Span) (size : ℕ)
    → IsBuilder m s
    → ((s.len + size ≤ s.capacity)
        × (m' : Memory) × (s' : Span) × (az_span_append_zeros s size m ≡ done s' m')
        × Appended m s (zeros size) m' s')
      ⊎ ((s.capacity < s.len + size) × (az_span_append_zeros s size m ≡ fail buffer_overflow m))
unfolding az_span_append_zeros room_for
az_span_append_zeros_lem m s size b = elim (dec_le (s.len + size) s.capacity) [
  | yes fits ↦
      let (c, m', e, st) = zeros-Stored m s size b fits in
      inl (
        fits,
        m',
        az_span_init s.ptr (s.len + size) s.capacity,
        let e' : az_span_set (az_span_take (az_span_drop s s.len) size) 0 m ≡ done tt m' = e in
            let c' : (az_span_take (az_span_drop s s.len) size).capacity ≡ size = c in
            rw (c', le→ltb_false size size (omega arith), ◌>>=◌, ◌>>◌, when◌then◌else◌, e', ◌>>=◌)
              refl,
        record {
          same_ptr = refl;
          longer = rw (length-zeros size) refl;
          same_capacity = refl;
          holds = st.holds;
          changes = st.changes;
        },
      )
  | no short ↦ inr (
    omega arith,
    rw (lt→ltb _ _ (room_for_short s size (omega arith) b.within), ◌>>=◌, ◌>>◌, when◌then◌else◌)
        refl,
  )
]
