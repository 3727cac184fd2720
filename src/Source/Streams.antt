-- ===== src/Source/Streams.antt =====
-- Reading the content of a source byte by byte.
use azure_sdk_for_c.Base.{ℕ, suc, ◌+◌, some, Bytes, [], ◌∷◌, length, ◌≡◌, refl, subst, arith}
use azure_sdk_for_c.Memory.{Memory, Holds}
use azure_sdk_for_c.Span.{Span}
use azure_sdk_for_c.Source.{Source, at, literal, source_len, byte_at, Provides}
use native.Mathlib.Nat.{add-zero}

-- The bytes of a source from index `i` on.
abbrev pub Streams : Memory → Source → ℕ → Bytes → Type 0
Streams m src i [] = Unit {0}
Streams m src i (b ∷ bs) = (byte_at m src i ≡ some b) × Streams m src (suc i) bs

Streams-at :
    (bs : Bytes) (m : Memory) (s : Span) (i : ℕ) → Holds m (s.ptr + i) bs → Streams m (at s) i bs
unfolding byte_at
Streams-at [] m s i h = tt
Streams-at (b ∷ bs) m s i (h, hs) = (
  h,
  Streams-at bs m s (suc i) (let e : s.ptr + suc i ≡ suc (s.ptr + i) = omega arith in rw e hs),
)

Streams-shift :
    (bs : Bytes) (x : ℕ) (xs : Bytes) (m : Memory) (i : ℕ)
    → Streams m (literal xs) i bs
    → Streams m (literal (x ∷ xs)) (suc i) bs
unfolding byte_at
Streams-shift [] x xs m i h = tt
Streams-shift (b ∷ bs) x xs m i (h, hs) = (h, Streams-shift bs x xs m (suc i) hs)

Streams-literal : (bs : Bytes) (m : Memory) → Streams m (literal bs) 0 bs
unfolding byte_at
Streams-literal [] m = tt
Streams-literal (b ∷ bs) m = (refl, Streams-shift bs b bs m 0 (Streams-literal bs m))

pub Provides-Streams :
    (m : Memory) (src : Source) (bs : Bytes) → Provides m src bs → Streams m src 0 bs
Provides-Streams m (at s) bs v = Streams-at bs m s 0 (rw add-zero v.holds)
Provides-Streams m (literal xs) bs e =
    subst (λ ys. Streams m (literal xs) 0 ys) e (Streams-literal xs m)

pub Provides-len :
    (m : Memory) (src : Source) (bs : Bytes) → Provides m src bs → source_len src ≡ length bs
Provides-len m (at s) bs v = v.count
Provides-len m (literal xs) bs e = rw e
