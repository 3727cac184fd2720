-- ===== src/Span/Read/Scan.antt =====
-- `_az_scan_until`: the first place in a content where a predicate holds.
use azure_sdk_for_c.Base.{
  ℕ, zero, suc, ◌+◌, ◌≤◌, Bool, true, false, if◌then◌else◌, Bytes, [], ◌∷◌, ◌++◌, All, drop, length,
  ◌≡◌, refl, sym, ap, subst, arith, ◌⊎◌, inl, inr, Bool-cases, length-append,
}
use azure_sdk_for_c.Memory.{Memory}
use azure_sdk_for_c.Result.{
  Run, done, fail, ◌>>=◌, when◌then◌else◌, Success, az_ok, az_continue, item_not_found,
}
use azure_sdk_for_c.Span.Slice.{Views-az_span_slice}
use azure_sdk_for_c.Span.{Span, Views, az_span_slice, to_end}
use native.Mathlib.Nat.{zero-add}
use azure_sdk_for_c.Span.Read.{scan_from, az_scan_until}

-- The predicate tests the first byte of a slice by `t`.
abbrev pub Tests : {S : Type 0} → Memory → (Span → Run S Success) → (ℕ → Bool) → Type 0
Tests {S} m predicate t =
    (slice : Span) (b : ℕ) (bs : Bytes) (s : S)
    → Views m slice (b ∷ bs)
    → predicate slice s ≡ done (if t b then az_ok else az_continue) s

abbrev pub Rejects : (ℕ → Bool) → Bytes → Type 0
Rejects t xs = All (λ b. t b ≡ false) xs

drop_more : (i : ℕ) (bs : Bytes) (x : ℕ) (xs : Bytes) → drop i bs ≡ x ∷ xs → drop (suc i) bs ≡ xs
drop_more zero [] x xs e = cc
drop_more zero (b ∷ bs) x xs e = cc
drop_more (suc i) [] x xs e = cc
drop_more (suc i) (b ∷ bs) x xs e = drop_more i bs x xs e

module _ {S : Type 0} (m : Memory) (predicate : Span → Run S Success) (t : ℕ → Bool)
    (tests : Tests m predicate t) (self : Span) (bs : Bytes) (v : Views m self bs) (s : S) where
  at_index :
      (index b : ℕ) (rest : Bytes)
      → drop index bs ≡ b ∷ rest
      → predicate (az_span_slice self index to_end) s ≡ done (if t b then az_ok else az_continue) s
  at_index index b rest e =
      tests (az_span_slice self index to_end) b rest s
        (rw e at ((Views-az_span_slice index to_end bs v).0))

  -- The bytes in front of the first one that the test accepts are counted.
  scan_from-finds :
      (xs : Bytes) (b : ℕ) (rest : Bytes) (n index : ℕ)
      → Rejects t xs
      → t b ≡ true
      → drop index bs ≡ xs ++ (b ∷ rest)
      → length xs + 1 ≤ n
      → scan_from predicate self n index s ≡ done (index + length xs) s
  unfolding scan_from
  scan_from-finds xs b rest zero index rej found e h = absurd (omega (arith, h))
  scan_from-finds [] b rest (suc n) index rej found e h =
      let here : index + 0 ≡ index = omega arith in
      rw (at_index index b rest e, ◌>>=◌, found) (rw here)
  scan_from-finds (x ∷ xs) b rest (suc n) index (rej, rejs) found e h =
      let more : index + suc (length xs) ≡ suc index + length xs = omega arith in
      rw (at_index index x (xs ++ (b ∷ rest)) e, ◌>>=◌, rej, more)
        (scan_from-finds xs b rest n (suc index) rejs found (drop_more index bs x _ e)
          (omega arith))

  scan_from-misses :
      (xs : Bytes) (index : ℕ)
      → Rejects t xs
      → drop index bs ≡ xs
      → scan_from predicate self (length xs) index s ≡ fail item_not_found s
  unfolding scan_from
  scan_from-misses [] index rej e = refl
  scan_from-misses (x ∷ xs) index (rej, rejs) e =
      rw (at_index index x xs e, ◌>>=◌, rej)
        (scan_from-misses xs (suc index) rejs (drop_more index bs x xs e))

  pub az_scan_until_finds :
      (xs : Bytes) (b : ℕ) (rest : Bytes)
      → Rejects t xs
      → t b ≡ true
      → bs ≡ xs ++ (b ∷ rest)
      → az_scan_until predicate self s ≡ done (length xs) s
  unfolding az_scan_until
  az_scan_until_finds xs b rest rejs found e = rw zero-add at (
      scan_from-finds xs b rest self.len 0 rejs found e
        (omega (arith, v.count, ap length e, length-append xs (b ∷ rest))))

-- A content has a first byte that passes the test, or none.
first_found :
    (t : ℕ → Bool) (bs : Bytes)
    → ((xs : Bytes) × (b : ℕ) × (rest : Bytes) × (bs ≡ xs ++ (b ∷ rest))
        × Rejects t xs
        × (t b ≡ true))
      ⊎ Rejects t bs
first_found t [] = inr tt
first_found t (b ∷ bs) = elim (Bool-cases (t b)) [
  | inl found ↦ inl ([], b, bs, refl, tt, found)
  | inr rej ↦ elim (first_found t bs) [
    | inl (xs, c, rest, e, rejs, found) ↦
        inl (b ∷ xs, c, rest, ap (λ ys. b ∷ ys) e, (rej, rejs), found)
    | inr rejs ↦ inr (rej, rejs)
  ]
]

-- A scan of a content for a predicate that tests the first byte of a slice counts the bytes in front
-- of the first one that passes; where no byte passes, it reports that no item was found.
pub az_scan_until_lem :
    {S : Type 0} (m : Memory) (predicate : Span → Run S Success) (t : ℕ → Bool) (self : Span)
    (bs : Bytes) (s : S)
    → Tests m predicate t
    → Views m self bs
    → ((xs : Bytes) × (b : ℕ) × (rest : Bytes) × (bs ≡ xs ++ (b ∷ rest))
        × Rejects t xs
        × (t b ≡ true)
        × (az_scan_until predicate self s ≡ done (length xs) s))
      ⊎ (Rejects t bs × (az_scan_until predicate self s ≡ fail item_not_found s))
unfolding az_scan_until
az_scan_until_lem m predicate t self bs s tests v = elim (first_found t bs) [
  | inl (xs, b, rest, e, rejs, found) ↦ inl (
    xs,
    b,
    rest,
    e,
    rejs,
    found,
    az_scan_until_finds m predicate t tests self bs v s xs b rest rejs found e,
  )
  | inr rejs ↦ inr (
    rejs,
    subst (λ n. scan_from predicate self n 0 s ≡ fail item_not_found s) (sym v.count)
        (scan_from-misses m predicate t tests self bs v s bs 0 rejs refl),
  )
]
