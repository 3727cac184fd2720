-- ===== src/Memory/Changes.antt =====
-- What the writing functions of `Memory` change: the bytes of one region, and nothing else.
use azure_sdk_for_c.Base.{
  ℕ, suc, ◌+◌, ◌-◌, ◌≤◌, ◌<◌, true, some, Bytes, [], ◌∷◌, length, ◌≡◌, refl, sym, ap, subst, ◌∙◌,
  arith, ◌⊎◌, inl, inr,
}
use azure_sdk_for_c.Memory.{
  Memory, is_accessible, readable, moved, written, filled, Holds, Holds-agree, readable_at,
  readable_all, readable-Holds,
}
use native.Mathlib.Decide.{dec_le, dec_lt}

-- `m'` differs from `m` at most in the `n` bytes from `p` on, and has the same accessible bytes.
pub record Changes (m m' : Memory) (p n : ℕ) : Type 0 where
  pub outside : (a : ℕ) → (a < p) ⊎ (p + n ≤ a) → m' a ≡ m a
  pub access : (a : ℕ) → is_accessible (m' a) ≡ is_accessible (m a)

pub Changes-refl : (m : Memory) (p n : ℕ) → Changes m m p n
Changes-refl m p n = record { outside = λ a h. refl; access = λ a. refl }

pub Changes-trans :
    {m m' m'' : Memory} {p n q k : ℕ} (r l : ℕ)
    → r ≤ p
    → p + n ≤ r + l
    → r ≤ q
    → q + k ≤ r + l
    → Changes m m' p n
    → Changes m' m'' q k
    → Changes m m'' r l
Changes-trans r l a b c d f g = record {
  outside = λ x h. g.outside x (omega arith) ∙ f.outside x (omega arith);
  access = λ x. g.access x ∙ f.access x;
}

pub Changes-readable :
    {m m' : Memory} {p n : ℕ} (q k : ℕ)
    → Changes m m' p n
    → readable m q k ≡ true
    → readable m' q k ≡ true
Changes-readable {m} {m'} q k c h =
    readable_all k m' q (λ i hi. c.access (q + i) ∙ readable_at k i m q h hi)

-- Bytes that stand outside of the region are kept.
pub Changes-Holds :
    {m m' : Memory} {p n : ℕ} (bs : Bytes) (q : ℕ)
    → Changes m m' p n
    → (q + length bs ≤ p) ⊎ (p + n ≤ q)
    → Holds m q bs
    → Holds m' q bs
Changes-Holds {m} {m'} bs q c apart h =
    Holds-agree bs m m' q q (λ i hi. c.outside (q + i) (omega arith)) h

moved_inside : (m : Memory) (dst src n i : ℕ) → i < n → moved m dst src n (dst + i) ≡ m (src + i)
unfolding moved
moved_inside m dst src n i h = let e : dst + i - dst ≡ i = omega arith in rw e (ground arith)

pub Holds-moved :
    (bs : Bytes) (m : Memory) (dst src : ℕ)
    → Holds m src bs
    → Holds (moved m dst src (length bs)) dst bs
Holds-moved bs m dst src h =
    Holds-agree bs m (moved m dst src (length bs)) src dst
      (λ i hi. moved_inside m dst src (length bs) i hi) h

moved_outside :
    (m : Memory) (dst src n a : ℕ) → (a < dst) ⊎ (dst + n ≤ a) → moved m dst src n a ≡ m a
unfolding moved
moved_outside m dst src n a h = ground arith

filled_outside : (m : Memory) (p c n a : ℕ) → (a < p) ⊎ (p + n ≤ a) → filled m p c n a ≡ m a
unfolding filled
filled_outside m p c n a h = ground arith

written_later :
    (b : ℕ) (bs : Bytes) (m : Memory) (p i : ℕ)
    → written m p (b ∷ bs) (suc p + i) ≡ written m (suc p) bs (suc p + i)
unfolding written
written_later b bs m p i = ground arith

place : (a p n : ℕ) → ((i : ℕ) × (i < n) × (p + i ≡ a)) ⊎ ((a < p) ⊎ (p + n ≤ a))
place a p n = elim (dec_le p a) [
  | yes low ↦ elim (dec_lt a (p + n)) [
    | yes high ↦ inl (a - p, omega arith, omega arith)
    | no high ↦ inr (inr (omega arith))
  ]
  | no low ↦ inr (inl (omega arith))
]

-- A region written over readable bytes by readable bytes.
Changes-make :
    (m m' : Memory) (p n : ℕ)
    → readable m p n ≡ true
    → ((a : ℕ) → (a < p) ⊎ (p + n ≤ a) → m' a ≡ m a)
    → ((i : ℕ) → i < n → is_accessible (m' (p + i)) ≡ true)
    → Changes m m' p n
Changes-make m m' p n h out inn = record {
  outside = out;
  access = λ a. elim (place a p n) [
    | inl (i, below, at) ↦
        subst (λ x. is_accessible (m' x) ≡ is_accessible (m x)) at
          (inn i below ∙ sym (readable_at n i m p h below))
    | inr apart ↦ ap is_accessible (out a apart)
  ];
}

pub Changes-moved :
    (m : Memory) (dst src n : ℕ)
    → readable m src n ≡ true
    → readable m dst n ≡ true
    → Changes m (moved m dst src n) dst n
Changes-moved m dst src n h k =
    Changes-make m (moved m dst src n) dst n k (λ a out. moved_outside m dst src n a out)
      (λ i below. rw (moved_inside m dst src n i below) (readable_at n i m src h below))

written_outside :
    (bs : Bytes) (m : Memory) (p a : ℕ) → (a < p) ⊎ (p + length bs ≤ a) → written m p bs a ≡ m a
unfolding written
written_outside [] m p a h = refl
written_outside (b ∷ bs) m p a h = ground (arith, written_outside bs m (suc p) a)

pub Holds-written : (bs : Bytes) (m : Memory) (p : ℕ) → Holds (written m p bs) p bs
Holds-written [] m p = tt
Holds-written (b ∷ bs) m p = (
  unfold written in ground arith,
  Holds-agree bs (written m (suc p) bs) (written m p (b ∷ bs)) (suc p) (suc p)
      (λ i hi. written_later b bs m p i) (Holds-written bs m (suc p)),
)

written_access :
    (bs : Bytes) (m : Memory) (p i : ℕ)
    → i < length bs
    → is_accessible (written m p bs (p + i)) ≡ true
written_access bs m p i h =
    readable_at (length bs) i (written m p bs) p
      (readable-Holds bs (written m p bs) p (Holds-written bs m p)) h

pub Changes-written :
    (bs : Bytes) (m : Memory) (p : ℕ)
    → readable m p (length bs) ≡ true
    → Changes m (written m p bs) p (length bs)
Changes-written bs m p k =
    Changes-make m (written m p bs) p (length bs) k (λ a out. written_outside bs m p a out)
      (λ i below. written_access bs m p i below)

pub filled_inside : (m : Memory) (p c n i : ℕ) → i < n → filled m p c n (p + i) ≡ some c
unfolding filled
filled_inside m p c n i h = ground arith

pub Changes-filled :
    (m : Memory) (p c n : ℕ) → readable m p n ≡ true → Changes m (filled m p c n) p n
Changes-filled m p c n k =
    Changes-make m (filled m p c n) p n k (λ a out. filled_outside m p c n a out)
      (λ i below. rw (filled_inside m p c n i below))
