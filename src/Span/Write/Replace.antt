-- ===== src/Span/Write/Replace.antt =====
-- `_az_span_replace`: the content after the replacement.
use azure_sdk_for_c.Base.{
  ℕ, ◌+◌, ◌-◌, ◌≤◌, ◌<◌, true, ltb, le→leb, lt→leb_false, if◌then◌else◌, Bytes, [], ◌∷◌, ◌++◌,
  length, length-append, take, drop, length-take, length-drop, ◌≡◌, refl, arith, ◌⊎◌, inl, inr,
}
use azure_sdk_for_c.Memory.{Memory, readable, Holds, Holds-append, Holds-take}
use azure_sdk_for_c.Memory.Changes.{Changes, Changes-trans, Changes-readable, Changes-Holds}
use azure_sdk_for_c.Result.{fail, done, ◌>>=◌, when◌then◌else◌, arg}
use azure_sdk_for_c.Source.{Source, at, literal, source_is_valid, Provides}
use azure_sdk_for_c.Source.Streams.{Provides-len}
use azure_sdk_for_c.Span.{Span, az_span_init, az_span_is_valid, az_span_null, az_span_drop, Views}
use azure_sdk_for_c.Span.Slice.{Views-az_span_drop}
use azure_sdk_for_c.Span.Write.{az_span_copy, az_span_replace}
use azure_sdk_for_c.Span.Write.Copy.{
  Stored, az_span_copy-Stored, IsBuilder, readable_part, Stored-nothing,
}
use azure_sdk_for_c.Span.Write.Given.{Given, IsApart, Given-valid}
use native.Mathlib.Decide.{dec_le}

pub valid_at : (s : Span) → 0 < s.ptr → az_span_is_valid s ≡ true
unfolding az_span_is_valid
valid_at s h = ground arith

valid_null : az_span_is_valid az_span_null ≡ true
unfolding az_span_is_valid
valid_null = refl

-- What is left of a span behind its first `n` bytes, where its capacity is larger.
rest_of : Span → ℕ → Span
rest_of s n = az_span_init (s.ptr + n) (if ltb s.len n then 0 else s.len - n) (s.capacity - n)

drop_some : (s : Span) (n : ℕ) → n < s.capacity → az_span_drop s n ≡ rest_of s n
unfolding az_span_drop rest_of
drop_some s n h = rw (lt→leb_false _ _ h)

drop_every : (s : Span) (n : ℕ) → s.capacity ≤ n → az_span_drop s n ≡ az_span_null
unfolding az_span_drop
drop_every s n h = rw (le→leb _ _ h)

-- A copy to a place in a buffer.
copy_at :
    (m : Memory) (s : Span) (n : ℕ) (src : Source) (bs : Bytes)
    → IsBuilder m s
    → 0 < s.ptr
    → Provides m src bs
    → source_is_valid src ≡ true
    → n + length bs ≤ s.capacity
    → (m' : Memory) × (out : Span) × (az_span_copy (az_span_drop s n) src m ≡ done out m')
      × Stored m (s.ptr + n) bs m'
unfolding rest_of readable
copy_at m s n src bs b h v valid fits = elim (dec_le s.capacity n) [
  | yes full ↦ at_end bs v (omega arith) full
  | no room ↦
      let (m', e, stored) =
        az_span_copy-Stored m (rest_of s n) src bs v (valid_at (rest_of s n) (omega arith)) valid
          (omega arith) (readable_part m s.ptr s.capacity n (length bs) b.buffer fits) in
      (
        m',
        az_span_init (s.ptr + n) (length bs) (s.capacity - n),
        rw (drop_some s n (omega arith)) e,
        stored,
      )
]
  where
    at_end :
        (bs : Bytes)
        → Provides m src bs
        → length bs ≡ 0
        → s.capacity ≤ n
        → (m' : Memory) × (out : Span) × (az_span_copy (az_span_drop s n) src m ≡ done out m')
          × Stored m (s.ptr + n) bs m'
    at_end [] v z full =
        let (m', e, stored) =
          az_span_copy-Stored m az_span_null src [] v valid_null valid (omega arith) refl in
        (m', az_span_init 0 0 0, rw (drop_every s n full) e, Stored-nothing m 0 _ m' stored)
    at_end (x ∷ xs) v z full = absurd (omega arith)

drop-IsValid : (s : Span) (n : ℕ) → 0 < s.ptr → az_span_is_valid (az_span_drop s n) ≡ true
unfolding rest_of
drop-IsValid s n h = elim (dec_le s.capacity n) [
  | yes full ↦ rw (drop_every s n full) valid_null
  | no room ↦ rw (drop_some s n (omega arith)) (valid_at (rest_of s n) (omega arith))
]

-- The content with the bytes from `start` to `end` replaced.
abbrev pub replaced : ℕ → ℕ → Bytes → Bytes → Bytes
replaced start end new bs = take start bs ++ (new ++ drop end bs)

-- A source outside of a buffer keeps its content.
pub Provides-Changes :
    (m m' : Memory) (s : Span) (src : Source) (bs : Bytes) (p n : ℕ)
    → Provides m src bs
    → IsApart src s
    → Changes m m' p n
    → s.ptr ≤ p
    → p + n ≤ s.ptr + s.capacity
    → Provides m' src bs
Provides-Changes m m' s (literal xs) bs p n v apart c lo hi = v
Provides-Changes m m' s (at x) bs p n v apart c lo hi = record {
  count = v.count;
  fits = v.fits;
  holds = Changes-Holds bs x.ptr c (omega arith) v.holds;
}

-- The two copies, where the arguments are accepted.
module _ (m : Memory) (s : Span) (start end : ℕ) (src : Source) (bs new : Bytes) where
  abbrev pub Replaces : Memory → Type 0
  Replaces m' =
      Views m' (record s { len = s.len - (end - start) + length new }) (replaced start end new bs)
      × Changes m m' s.ptr s.capacity

  -- First what follows is moved, then the new bytes are put in their place.
  put_together :
      (m1 m2 : Memory)
      → Views m s bs
      → s.len ≤ s.capacity
      → start ≤ end
      → end ≤ s.len
      → s.len - (end - start) + length new ≤ s.capacity
      → Stored m (s.ptr + (start + length new)) (drop end bs) m1
      → Stored m1 (s.ptr + start) new m2
      → Replaces m2
  put_together m1 m2 v within le1 le2 fits st1 st2 =
      let tail = drop end bs in
      let head = take start bs in
      let tail_len : length tail ≡ s.len - end = omega (arith, length-drop end bs, v.count) in
      let head_len : length head ≡ start = omega (arith, length-take start bs, v.count) in
      let head1 : Holds m1 s.ptr head =
        Changes-Holds head _ st1.changes (inl (omega arith))
          (Holds-take start bs m s.ptr v.holds) in
      let head2 : Holds m2 s.ptr head =
        Changes-Holds head _ st2.changes (inl (omega arith)) head1 in
      let tail2 : Holds m2 (s.ptr + (start + length new)) tail =
        Changes-Holds tail _ st2.changes (inr (omega arith)) st1.holds in
      let place : s.ptr + (start + length new) ≡ s.ptr + start + length new = omega arith in
      let rest2 : Holds m2 (s.ptr + length head) (new ++ tail) =
        rw head_len (Holds-append new tail m2 (s.ptr + start) st2.holds (rw place at tail2)) in
      (
        record {
          count = omega (arith, length-append head (new ++ tail), length-append new tail);
          fits = omega arith;
          holds = Holds-append head (new ++ tail) m2 s.ptr head2 rest2;
        },
        Changes-trans _ _ (omega arith) (omega arith) (omega arith) (omega arith) st1.changes
            st2.changes,
      )

  replace_copies :
      IsBuilder m s
      → 0 < s.ptr
      → Views m s bs
      → Given src new (record { mem = m; self = s })
      → source_is_valid src ≡ true
      → start ≤ end
      → end ≤ s.len
      → s.len - (end - start) + length new ≤ s.capacity
      → (m1 : Memory) × (out : Span) × (m2 : Memory) × (out' : Span) × (az_span_copy
            (az_span_drop s (start + length new))
            (at (az_span_drop s end))
            m
          ≡ done out m1)
        × (az_span_copy (az_span_drop s start) src m1 ≡ done out' m2)
        × Replaces m2
  unfolding source_is_valid
  replace_copies b h v given valid le1 le2 fits =
      let tail_len : length (drop end bs) ≡ s.len - end =
        omega (arith, length-drop end bs, v.count) in
      let (m1, out, e1, st1) =
        copy_at m s (start + length new) (at (az_span_drop s end)) (drop end bs) b h
          (Views-az_span_drop end bs v) (drop-IsValid s end h) (omega arith) in
      let new1 : Provides m1 src new =
        Provides-Changes m m1 s src new _ _ given.provides given.apart st1.changes (omega arith)
          (omega arith) in
      let (m2, out', e2, st2) =
        copy_at m1 s start src new
          (record { buffer = Changes-readable _ _ st1.changes b.buffer; within = b.within }) h new1
          valid (omega arith) in
      (m1, out, m2, out', e1, e2, put_together m1 m2 v b.within le1 le2 fits st1 st2)

  -- The arguments that are accepted.
  abbrev pub IsInside : Type 0
  IsInside = (start ≤ end) × (end ≤ s.len) × (s.len - (end - start) + length new ≤ s.capacity)

  inside? : Dec IsInside
  inside? = elim (dec_le start end) [
    | no a ↦ no (λ h. a h.0)
    | yes a ↦ elim (dec_le end s.len) [
      | no b ↦ no (λ h. b h.1)
      | yes b ↦ elim (dec_le (s.len - (end - start) + length new) s.capacity) [
        | no c ↦ no (λ h. c h.2)
        | yes c ↦ yes (a, b, c)
      ]
    ]
  ]

  refused : Provides m src new → ¬ IsInside → az_span_replace s start end src m ≡ fail arg m
  unfolding az_span_replace
  refused v out = rw (Provides-len m src new v) (ground arith)

  pub az_span_replace_lem :
      IsBuilder m s
      → 0 < s.ptr
      → Views m s bs
      → Given src new (record { mem = m; self = s })
      → (IsInside
          × (m' : Memory) × (az_span_replace s start end src m
              ≡ done (record s { len = s.len - (end - start) + length new }) m')
          × Replaces m')
        ⊎ (¬ IsInside × (az_span_replace s start end src m ≡ fail arg m))
  unfolding az_span_replace
  az_span_replace_lem b h v given = elim (inside?) [
    | no out ↦ inr (out, refused given.provides out)
    | yes (le1, le2, fits) ↦
        let (m1, out, m2, out', e1, e2, r) =
          replace_copies b h v given (Given-valid src new _ given) le1 le2 fits in
        inl (
          (le1, le2, fits),
          m2,
          rw (Provides-len m src new given.provides) (
              rw
                (
                  le→leb (end - start) s.len (omega arith),
                  le→leb start s.len (omega arith),
                  le→leb end s.len le2,
                  le→leb start end le1,
                  le→leb _ _ fits,
                )
                (rw (e1, ◌>>=◌) (rw (e2, ◌>>=◌)))),
          r,
        )
  ]
