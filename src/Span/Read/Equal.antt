-- ===== src/Span/Read/Equal.antt =====
-- `az_span_is_equal` and `az_span_is_content_equal_ignoring_case`: whether two contents are equal.
use azure_sdk_for_c.Base.{
  ℕ, suc, Bool, true, false, ◌==◌, ==_iff, Bool-cases, Bytes, [], ◌∷◌, map, length, ◌≡◌, refl, ap,
  ◌⊎◌, inl, inr, arith,
}
use azure_sdk_for_c.Memory.{Memory}
use azure_sdk_for_c.Result.{Outcome, done}
use azure_sdk_for_c.Source.{Source, Provides}
use azure_sdk_for_c.Source.Streams.{Streams, Provides-Streams, Provides-len}
use azure_sdk_for_c.Span.Read.{
  memcmp_equal, az_span_is_equal, az_ascii_lower, equal_ignoring_case_from,
  az_span_is_content_equal_ignoring_case,
}

-- The run says truly whether `P` holds, and leaves the state as it is.
abbrev pub Decides : {S : Type 0} → Outcome S Bool → S → Type 0 → Type 0
Decides o s P = ((o ≡ done true s) × P) ⊎ ((o ≡ done false s) × ¬ P)

head_of : Bytes → ℕ
head_of [] = 0
head_of (x ∷ xs) = x

tail_of : Bytes → Bytes
tail_of [] = []
tail_of (x ∷ xs) = xs

differs : (x y : ℕ) → (x == y) ≡ false → ¬ (x ≡ y)
differs x y h e = ground (arith, h, e)

Decides-cons :
    {S : Type 0} (o : Outcome S Bool) (s : S) (x y : ℕ) (xs ys : Bytes)
    → x ≡ y
    → Decides o s (xs ≡ ys)
    → Decides o s ((x ∷ xs) ≡ (y ∷ ys))
unfolding tail_of
Decides-cons o s x y xs ys e (inl (r, h)) = inl (r, rw (e, h) refl)
Decides-cons o s x y xs ys e (inr (r, h)) = inr (r, λ q. h (ap tail_of q))

memcmp-Decides :
    {S : Type 0} (xs ys : Bytes) (m : Memory) (a b : Source) (i : ℕ) (s : S)
    → length xs ≡ length ys
    → Streams m a i xs
    → Streams m b i ys
    → Decides (memcmp_equal m a b (length xs) i s) s (xs ≡ ys)
unfolding memcmp_equal head_of
memcmp-Decides [] [] m a b i s e u v = inl (refl, refl)
memcmp-Decides [] (y ∷ ys) m a b i s e u v = absurd (omega (arith, e))
memcmp-Decides (x ∷ xs) [] m a b i s e u v = absurd (omega (arith, e))
memcmp-Decides (x ∷ xs) (y ∷ ys) m a b i s e (u, us) (v, vs) = elim (Bool-cases (x == y)) [
  | inl same ↦
      rw (u, v, same)
        (Decides-cons (memcmp_equal m a b (length xs) (suc i) s) s x y xs ys ((==_iff x y).0 same)
          (memcmp-Decides xs ys m a b (suc i) s (omega (arith, e)) us vs))
  | inr differ ↦ rw (u, v, differ) (inr (refl, λ q. differs x y differ (ap head_of q)))
]

ignoring_case-Decides :
    {S : Type 0} (xs ys : Bytes) (m : Memory) (a b : Source) (i : ℕ) (s : S)
    → length xs ≡ length ys
    → Streams m a i xs
    → Streams m b i ys
    → Decides
        (equal_ignoring_case_from m a b (length xs) i s)
        s
        (map az_ascii_lower xs ≡ map az_ascii_lower ys)
unfolding equal_ignoring_case_from head_of
ignoring_case-Decides [] [] m a b i s e u v = inl (refl, refl)
ignoring_case-Decides [] (y ∷ ys) m a b i s e u v = absurd (omega (arith, e))
ignoring_case-Decides (x ∷ xs) [] m a b i s e u v = absurd (omega (arith, e))
ignoring_case-Decides (x ∷ xs) (y ∷ ys) m a b i s e (u, us) (v, vs) =
    elim (Bool-cases (az_ascii_lower x == az_ascii_lower y)) [
      | inl same ↦
          rw (u, v, same)
            (Decides-cons (equal_ignoring_case_from m a b (length xs) (suc i) s) s
              (az_ascii_lower x) (az_ascii_lower y) (map az_ascii_lower xs) (map az_ascii_lower ys)
              ((==_iff _ _).0 same)
              (ignoring_case-Decides xs ys m a b (suc i) s (omega (arith, e)) us vs))
      | inr differ ↦ rw (u, v, differ) (inr (refl, λ q. differs _ _ differ (ap head_of q)))
    ]

length-lower : (xs : Bytes) → length (map az_ascii_lower xs) ≡ length xs
length-lower [] = refl
length-lower (x ∷ xs) = ap suc (length-lower xs)

module _ {S : Type 0} (m : Memory) (a b : Source) (xs ys : Bytes) (s : S) where
  -- Two spans with given contents are found equal if their contents are, and unequal if they are not.
  pub az_span_is_equal_lem :
      Provides m a xs → Provides m b ys → Decides (az_span_is_equal m a b s) s (xs ≡ ys)
  unfolding az_span_is_equal
  az_span_is_equal_lem u v =
      rw (Provides-len m a xs u, Provides-len m b ys v)
        (elim (Bool-cases (length xs == length ys)) [
          | inl same ↦ rw same (
              memcmp-Decides xs ys m a b 0 s ((==_iff _ _).0 same) (Provides-Streams m a xs u)
                (Provides-Streams m b ys v))
          | inr differ ↦ rw differ (inr (refl, λ q. differs _ _ differ (ap length q)))
        ])

  pub az_span_is_content_equal_ignoring_case_lem :
      Provides m a xs
      → Provides m b ys
      → Decides
          (az_span_is_content_equal_ignoring_case m a b s)
          s
          (map az_ascii_lower xs ≡ map az_ascii_lower ys)
  unfolding az_span_is_content_equal_ignoring_case
  az_span_is_content_equal_ignoring_case_lem u v =
      rw (Provides-len m a xs u, Provides-len m b ys v)
        (elim (Bool-cases (length xs == length ys)) [
          | inl same ↦ rw same (
              ignoring_case-Decides xs ys m a b 0 s ((==_iff _ _).0 same)
                (Provides-Streams m a xs u) (Provides-Streams m b ys v))
          | inr differ ↦ rw differ (
              inr (
                refl,
                λ q.
                    differs _ _ differ
                      (omega (arith, ap length q, length-lower xs, length-lower ys)),
              ))
        ])
