-- ===== src/Memory.antt =====
-- The memory that spans point into, and what the code uses of <string.h>. An address has a byte,
-- or nothing that may be accessed. `Holds m p bs` says that the bytes `bs` stand from `p` on.
pub mod Changes
use azure_sdk_for_c.Base.{
  ℕ, zero, suc, ◌+◌, ◌-◌, ◌<◌, Bool, true, false, ◌&&◌, ltb, leb, ◌==◌, if◌then◌else◌, Option, some,
  none, Bytes, [], ◌∷◌, ◌++◌, length, take, drop, ◌≡◌, refl, sym, ◌∙◌, arith,
}
use mathlib.Core.Option.{some-injective}
use native.Mathlib.Nat.{add-zero}
use azure_sdk_for_c.Result.{Run, fault, done}

abbrev pub Memory : Type 0
Memory = ℕ → Option ℕ

abbrev pub is_accessible : Option ℕ → Bool
is_accessible none = false
is_accessible (some b) = true

-- The `n` bytes from `p` on may all be accessed.
unfoldable pub readable : Memory → ℕ → ℕ → Bool
readable m p zero = true
readable m p (suc n) = is_accessible (m p) && readable m (suc p) n

-- The memory after `n` bytes from `src` on were moved to `dst`; the two may overlap.
unfoldable pub moved : Memory → ℕ → ℕ → ℕ → Memory
moved m dst src n a = if leb dst a && ltb a (dst + n) then m (src + (a - dst)) else m a

unfoldable pub memmove : ℕ → ℕ → ℕ → Run Memory (Unit {0})
memmove dst src n m =
    if readable m src n && readable m dst n then done tt (moved m dst src n) else fault

unfoldable pub filled : Memory → ℕ → ℕ → ℕ → Memory
filled m p c n a = if leb p a && ltb a (p + n) then some c else m a

unfoldable pub memset : ℕ → ℕ → ℕ → Run Memory (Unit {0})
memset p c n m = if readable m p n then done tt (filled m p c n) else fault

-- `*p = c`
unfoldable pub store : ℕ → ℕ → Run Memory (Unit {0})
unfolding memset
store p c = memset p c 1

-- Storage of bytes that are at hand as values: a string literal, or a local array.
unfoldable pub written : Memory → ℕ → Bytes → Memory
written m p [] a = m a
written m p (b ∷ bs) a = if a == p then some b else written m (suc p) bs a

unfoldable pub write : ℕ → Bytes → Run Memory (Unit {0})
write p bs m = if readable m p (length bs) then done tt (written m p bs) else fault

abbrev pub Holds : Memory → ℕ → Bytes → Type 0
Holds m p [] = Unit {0}
Holds m p (b ∷ bs) = (m p ≡ some b) × Holds m (suc p) bs

suc-add : (p i : ℕ) → suc p + i ≡ p + suc i
suc-add p i = omega arith

-- All that `Holds` says, carried to another memory or another place that agrees byte by byte.
pub Holds-agree :
    (bs : Bytes) (m m' : Memory) (p p' : ℕ)
    → ((i : ℕ) → i < length bs → m' (p' + i) ≡ m (p + i))
    → Holds m p bs
    → Holds m' p' bs
Holds-agree [] m m' p p' h k = tt
Holds-agree (b ∷ bs) m m' p p' h (k, ks) = (
  (simp add-zero at (h 0 (omega arith))) ∙ k,
  Holds-agree bs m m' (suc p) (suc p')
      (λ i hi. rw (suc-add p i, suc-add p' i) (h (suc i) (omega arith))) ks,
)

pub Holds-append :
    (xs ys : Bytes) (m : Memory) (p : ℕ)
    → Holds m p xs
    → Holds m (p + length xs) ys
    → Holds m p (xs ++ ys)
Holds-append [] ys m p h k = rw add-zero at k
Holds-append (x ∷ xs) ys m p (h, hs) k =
    (h, Holds-append xs ys m (suc p) hs (rw (suc-add p (length xs)) k))

pub Holds-left : (xs ys : Bytes) (m : Memory) (p : ℕ) → Holds m p (xs ++ ys) → Holds m p xs
Holds-left [] ys m p h = tt
Holds-left (x ∷ xs) ys m p (h, hs) = (h, Holds-left xs ys m (suc p) hs)

pub Holds-right :
    (xs ys : Bytes) (m : Memory) (p : ℕ) → Holds m p (xs ++ ys) → Holds m (p + length xs) ys
Holds-right [] ys m p h = rw add-zero h
Holds-right (x ∷ xs) ys m p (h, hs) = rw (← suc-add p (length xs)) (Holds-right xs ys m (suc p) hs)

pub Holds-take : (n : ℕ) (bs : Bytes) (m : Memory) (p : ℕ) → Holds m p bs → Holds m p (take n bs)
Holds-take zero bs m p h = tt
Holds-take (suc n) [] m p h = tt
Holds-take (suc n) (b ∷ bs) m p (h, hs) = (h, Holds-take n bs m (suc p) hs)

pub Holds-drop :
    (n : ℕ) (bs : Bytes) (m : Memory) (p : ℕ) → Holds m p bs → Holds m (p + n) (drop n bs)
Holds-drop zero bs m p h = rw add-zero h
Holds-drop (suc n) [] m p h = tt
Holds-drop (suc n) (b ∷ bs) m p (h, hs) = rw (← suc-add p n) (Holds-drop n bs m (suc p) hs)

-- The bytes at a place and of a length are determined.
pub Holds-unique :
    (xs ys : Bytes) (m : Memory) (p : ℕ)
    → length xs ≡ length ys
    → Holds m p xs
    → Holds m p ys
    → xs ≡ ys
Holds-unique [] [] m p e h k = refl
Holds-unique [] (y ∷ ys) m p e h k = absurd (omega arith)
Holds-unique (x ∷ xs) [] m p e h k = absurd (omega arith)
Holds-unique (x ∷ xs) (y ∷ ys) m p e (h, hs) (k, ks) =
    cc (some-injective _ _ (sym h ∙ k), Holds-unique xs ys m (suc p) (omega arith) hs ks)

pub readable-Holds :
    (bs : Bytes) (m : Memory) (p : ℕ) → Holds m p bs → readable m p (length bs) ≡ true
unfolding readable
readable-Holds [] m p h = refl
readable-Holds (b ∷ bs) m p (h, hs) = rw h (readable-Holds bs m (suc p) hs)

-- A part of a readable region is readable.
pub readable_at :
    (n i : ℕ) (m : Memory) (p : ℕ)
    → readable m p n ≡ true
    → i < n
    → is_accessible (m (p + i)) ≡ true
unfolding readable
readable_at zero i m p h k = absurd (omega arith)
readable_at (suc n) zero m p h k = rw add-zero (ground arith)
readable_at (suc n) (suc i) m p h k =
    rw (← suc-add p i) (readable_at n i m (suc p) (ground arith) (omega arith))

pub readable_all :
    (n : ℕ) (m : Memory) (p : ℕ)
    → ((i : ℕ) → i < n → is_accessible (m (p + i)) ≡ true)
    → readable m p n ≡ true
unfolding readable
readable_all zero m p h = refl
readable_all (suc n) m p h =
    rw (rw add-zero at (h 0 (omega arith)))
      (readable_all n m (suc p) (λ i hi. rw (suc-add p i) (h (suc i) (omega arith))))
