-- ===== src/Span/Write/Copy.antt =====
-- `az_span_copy` and `az_span_append`: what they write, and when they refuse.
use azure_sdk_for_c.Base.{
  ℕ, ◌+◌, ◌-◌, ◌≤◌, ◌<◌, true, le→leb, lt→leb_false, ne→==_false, Bytes, [], ◌∷◌, length, ◌≡◌, refl,
  arith, ◌⊎◌, inl, inr,
}
use azure_sdk_for_c.Memory.{
  Memory, readable, moved, memmove, written, write, Holds, readable-Holds, readable_all,
  readable_at,
}
use azure_sdk_for_c.Memory.Changes.{
  Changes, Changes-refl, Holds-moved, Changes-moved, Holds-written, Changes-written,
}
use azure_sdk_for_c.Result.{fail, done, ◌>>=◌, when◌then◌else◌, buffer_overflow}
use azure_sdk_for_c.Source.{Source, at, literal, source_is_valid, move_from, Provides}
use azure_sdk_for_c.Source.Streams.{Provides-len}
use azure_sdk_for_c.Span.{Span, az_span_init, az_span_is_valid, az_span_null, az_span_drop}
use azure_sdk_for_c.Span.Write.{az_span_copy, az_span_append}
use native.Mathlib.Decide.{dec_le}

-- `bs` was moved to `p`, and nothing else happened.
pub record Stored (m : Memory) (p : ℕ) (bs : Bytes) (m' : Memory) : Type 0 where
  pub holds : Holds m' p bs
  pub changes : Changes m m' p (length bs)

pub move_from-Stored :
    (m : Memory) (p : ℕ) (src : Source) (bs : Bytes)
    → Provides m src bs
    → readable m p (length bs) ≡ true
    → (m' : Memory) × (move_from p src m ≡ done tt m') × Stored m p bs m'
unfolding move_from memmove write
move_from-Stored m p (at s) bs v r =
    let r' = readable-Holds bs m s.ptr v.holds in
    (
      moved m p s.ptr (length bs),
      rw (v.count, r', r),
      record {
        holds = Holds-moved bs m p s.ptr v.holds;
        changes = Changes-moved m p s.ptr (length bs) r' r;
      },
    )
move_from-Stored m p (literal xs) bs e r = (
  written m p bs,
  rw (e, r),
  record { holds = Holds-written bs m p; changes = Changes-written bs m p r },
)

pub az_span_copy-Stored :
    (m : Memory) (dst : Span) (src : Source) (bs : Bytes)
    → Provides m src bs
    → az_span_is_valid dst ≡ true
    → source_is_valid src ≡ true
    → length bs ≤ dst.capacity
    → readable m dst.ptr (length bs) ≡ true
    → (m' : Memory) × (az_span_copy dst src m
        ≡ done (az_span_init dst.ptr (length bs) dst.capacity) m')
      × Stored m dst.ptr bs m'
unfolding az_span_copy
az_span_copy-Stored m dst src [] v a b fits r = (
  m,
  rw (a, b, Provides-len m src [] v) (rw (le→leb _ _ fits)),
  record { holds = tt; changes = Changes-refl m _ _ },
)
az_span_copy-Stored m dst src (x ∷ bs) v a b fits r =
    let (m', e, s) = move_from-Stored m dst.ptr src (x ∷ bs) v r in
    (
      m',
      rw (a, b, Provides-len m src (x ∷ bs) v)
          (rw (le→leb _ _ fits, ne→==_false (length (x ∷ bs)) 0 (omega arith))
            (rw (e, ◌>>=◌, when◌then◌else◌))),
      s,
    )

pub az_span_copy_overflow :
    (m : Memory) (dst : Span) (src : Source) (bs : Bytes)
    → Provides m src bs
    → az_span_is_valid dst ≡ true
    → source_is_valid src ≡ true
    → dst.capacity < length bs
    → az_span_copy dst src m ≡ fail buffer_overflow m
unfolding az_span_copy
az_span_copy_overflow m dst src bs v a b h =
    rw (a, b, Provides-len m src bs v) (rw (lt→leb_false _ _ h))

-- The buffer of a span is there: all of its capacity may be accessed.
abbrev pub IsBuffer : Memory → Span → Type 0
IsBuffer m s = readable m s.ptr s.capacity ≡ true

-- `s` was extended by `bs` at its end, within its capacity, and nothing else happened.
pub record Appended (m : Memory) (s : Span) (bs : Bytes) (m' : Memory) (s' : Span) : Type 0 where
  pub same_ptr : s'.ptr ≡ s.ptr
  pub longer : s'.len ≡ s.len + length bs
  pub same_capacity : s'.capacity ≡ s.capacity
  pub holds : Holds m' (s.ptr + s.len) bs
  pub changes : Changes m m' (s.ptr + s.len) (length bs)

-- What the code asks of the span that it appends to: a buffer with its length in the capacity.
pub record IsBuilder (m : Memory) (s : Span) : Type 0 where
  pub buffer : IsBuffer m s
  pub within : s.len ≤ s.capacity

pub readable_part :
    (m : Memory) (p n i k : ℕ) → readable m p n ≡ true → i + k ≤ n → readable m (p + i) k ≡ true
readable_part m p n i k h le = readable_all k m (p + i) (λ j hj.
    let e : p + i + j ≡ p + (i + j) = omega arith in
    rw e (readable_at n (i + j) m p h (omega arith)))

valid_empty : (p c : ℕ) → az_span_is_valid (az_span_init p 0 c) ≡ true
unfolding az_span_is_valid
valid_empty p c = refl

valid_null : az_span_is_valid az_span_null ≡ true
valid_null = valid_empty 0 0

pub drop_end :
    (s : Span)
    → s.len < s.capacity
    → az_span_drop s s.len ≡ az_span_init (s.ptr + s.len) 0 (s.capacity - s.len)
unfolding az_span_drop
drop_end s h = rw (lt→leb_false _ _ h) (ground arith)

pub drop_full : (s : Span) → s.capacity ≤ s.len → az_span_drop s s.len ≡ az_span_null
unfolding az_span_drop
drop_full s h = rw (le→leb _ _ h)

pub Stored-nothing : (m : Memory) (p q : ℕ) (m' : Memory) → Stored m p [] m' → Stored m q [] m'
Stored-nothing m p q m' s = record {
  holds = tt;
  changes = record {
    outside = λ a h. s.changes.outside a (omega arith);
    access = s.changes.access;
  };
}

-- The copy behind the content.
copy_behind :
    (m : Memory) (s : Span) (src : Source) (bs : Bytes)
    → IsBuilder m s
    → Provides m src bs
    → source_is_valid src ≡ true
    → s.len + length bs ≤ s.capacity
    → (m' : Memory) × (out : Span) × (az_span_copy (az_span_drop s s.len) src m ≡ done out m')
      × Stored m (s.ptr + s.len) bs m'
copy_behind m s src [] b v valid fits = elim (dec_le s.capacity s.len) [
  | yes full ↦
      let (m', e, stored) =
        az_span_copy-Stored m az_span_null src [] v (valid_empty _ _) valid (omega arith)
          (unfold readable in refl) in
      (m', az_span_init 0 0 0, rw (drop_full s full) e, Stored-nothing m 0 _ m' stored)
  | no room ↦
      let (m', e, stored) =
        az_span_copy-Stored m (az_span_init (s.ptr + s.len) 0 (s.capacity - s.len)) src [] v
          (valid_empty _ _) valid (omega arith) (unfold readable in refl) in
      (
        m',
        az_span_init (s.ptr + s.len) 0 (s.capacity - s.len),
        rw (drop_end s (omega arith)) e,
        stored,
      )
]
copy_behind m s src (x ∷ bs) b v valid fits =
    let (m', e, stored) =
      az_span_copy-Stored m (az_span_init (s.ptr + s.len) 0 (s.capacity - s.len)) src (x ∷ bs) v
        (valid_empty _ _) valid (omega arith)
        (readable_part m s.ptr s.capacity s.len (length (x ∷ bs)) b.buffer fits) in
    (
      m',
      az_span_init (s.ptr + s.len) (length (x ∷ bs)) (s.capacity - s.len),
      rw (drop_end s (omega arith)) e,
      stored,
    )

-- An append that fits succeeds.
pub az_span_append-Appended :
    (m : Memory) (s : Span) (src : Source) (bs : Bytes)
    → IsBuilder m s
    → Provides m src bs
    → source_is_valid src ≡ true
    → s.len + length bs ≤ s.capacity
    → (m' : Memory) × (s' : Span) × (az_span_append s src m ≡ done s' m') × Appended m s bs m' s'
unfolding az_span_append
az_span_append-Appended m s src bs b v valid fits =
    let (m', out, e, stored) = copy_behind m s src bs b v valid fits in
    (
      m',
      az_span_init s.ptr (s.len + length bs) s.capacity,
      rw (e, Provides-len m src bs v, ◌>>=◌),
      record {
        same_ptr = refl;
        longer = refl;
        same_capacity = refl;
        holds = stored.holds;
        changes = stored.changes;
      },
    )

-- One that does not fit reports the overflow and writes nothing.
pub az_span_append_overflow :
    (m : Memory) (s : Span) (src : Source) (bs : Bytes)
    → Provides m src bs
    → source_is_valid src ≡ true
    → s.len ≤ s.capacity
    → s.capacity < s.len + length bs
    → az_span_append s src m ≡ fail buffer_overflow m
unfolding az_span_append
az_span_append_overflow m s src bs v valid within h = elim (dec_le s.capacity s.len) [
  | yes full ↦
      rw (drop_full s full)
        (rw (az_span_copy_overflow m az_span_null src bs v valid_null valid (omega arith), ◌>>=◌))
  | no room ↦
      let rest = az_span_init (s.ptr + s.len) 0 (s.capacity - s.len) in
      rw (drop_end s (omega arith))
        (rw (az_span_copy_overflow m rest src bs v (valid_empty _ _) valid (omega arith), ◌>>=◌))
]

-- `az_span_append` to a builder, with a valid span: if the content is within the remaining capacity
-- it is put behind the content of the builder, and nothing else changes; else the overflow is
-- reported and the memory is as before.
pub az_span_append_lem :
    (m : Memory) (s : Span) (src : Source) (bs : Bytes)
    → IsBuilder m s
    → Provides m src bs
    → source_is_valid src ≡ true
    → ((s.len + length bs ≤ s.capacity)
        × (m' : Memory) × (s' : Span) × (az_span_append s src m ≡ done s' m')
        × Appended m s bs m' s')
      ⊎ ((s.capacity < s.len + length bs) × (az_span_append s src m ≡ fail buffer_overflow m))
az_span_append_lem m s src bs b v valid = elim (dec_le (s.len + length bs) s.capacity) [
  | yes room ↦
      let (m', s', e, a) = az_span_append-Appended m s src bs b v valid room in
      inl (room, m', s', e, a)
  | no full ↦ inr (omega arith, az_span_append_overflow m s src bs v valid b.within (omega arith))
]
