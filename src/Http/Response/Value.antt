-- ===== src/Http/Response/Value.antt =====
-- The loop over the value of a header.
use azure_sdk_for_c.Base.{
  some, ◌⊎◌, length-append, ℕ, zero, suc, ◌+◌, ◌<◌, Bool, true, false, ◌||◌, ◌==◌, ltb, leb, Bytes,
  [], ◌∷◌, ◌++◌, All, length, ◌≡◌, refl, ◌∙◌, arith, inl, inr,
}
use azure_sdk_for_c.Http.Response.{az_is_http_whitespace, value_from, max_rounds}
use azure_sdk_for_c.Memory.{Memory, Holds}
use azure_sdk_for_c.Result.{done, ◌>>=◌, when◌then◌else◌}
use azure_sdk_for_c.Span.{Span}
use native.Mathlib.Nat.{add-zero, zero-add}

-- A byte that a value may start or end with: no control character, space or tab.
abbrev pub is_visible : ℕ → Bool
is_visible c = ltb b' ' c

-- The value starts with a visible byte; if it is empty, so is the white space behind it.
abbrev pub StartsVisible : Bytes → Bytes → Type 0
StartsVisible [] tail = tail ≡ []
StartsVisible (c ∷ cs) tail = is_visible c ≡ true

-- Its bytes are visible, or white space, and the last one is visible.
abbrev pub EndsVisible : Bytes → Type 0
EndsVisible [] = Unit {0}
EndsVisible (c ∷ []) = is_visible c ≡ true
EndsVisible (c ∷ d ∷ cs) = ((is_visible c || az_is_http_whitespace c) ≡ true) × EndsVisible (d ∷ cs)

abbrev pub IsSpace : Bytes → Type 0
IsSpace bs = All (λ c. az_is_http_whitespace c ≡ true) bs

space_tests : (c : ℕ) → az_is_http_whitespace c ≡ true → (c == b'\r') ≡ false
unfolding az_is_http_whitespace
space_tests c h = ground (arith, h)

visible_tests :
    (c : ℕ)
    → is_visible c ≡ true
    → ((c == b'\r') ≡ false) × (az_is_http_whitespace c ≡ false) × (leb c b' ' ≡ false)
unfolding az_is_http_whitespace
visible_tests c h = ground (arith, h)

or_cases : (a b : Bool) → (a || b) ≡ true → (a ≡ true) ⊎ (b ≡ true)
or_cases true b h = inl refl
or_cases false b h = inr h

max_rounds_lem : max_rounds ≡ 0x8000_0000
unfolding max_rounds
max_rounds_lem = refl

module _ (m : Memory) (s : Span) (rest : Bytes) where
  -- A step over a byte of white space, and one over a visible byte.
  over_space :
      (c fuel offset end : ℕ)
      → m (s.ptr + offset) ≡ some c
      → az_is_http_whitespace c ≡ true
      → value_from m (suc fuel) offset end s ≡ value_from m fuel (offset + 1) end s
  unfolding value_from
  over_space c fuel offset end h sp = rw (h, ◌>>=◌, space_tests c sp, sp, when◌then◌else◌) refl

  over_visible :
      (c fuel offset end : ℕ)
      → m (s.ptr + offset) ≡ some c
      → is_visible c ≡ true
      → value_from m (suc fuel) offset end s ≡ value_from m fuel (offset + 1) (offset + 1) s
  unfolding value_from
  over_visible c fuel offset end h v =
      let (a, b, d) = visible_tests c v in rw (h, ◌>>=◌, a, b, d, when◌then◌else◌) refl

  later :
      (bs : Bytes) (offset : ℕ)
      → Holds m (suc (s.ptr + offset)) bs
      → Holds m (s.ptr + (offset + 1)) bs
  later bs offset h = let e : s.ptr + (offset + 1) ≡ suc (s.ptr + offset) = omega arith in rw e h

  tail_lem :
      (tail : Bytes) (fuel offset end : ℕ)
      → IsSpace tail
      → Holds m (s.ptr + offset) (tail ++ (b'\r' ∷ rest))
      → length tail < fuel
      → value_from m fuel offset end s ≡ done (offset + length tail + 1, end) s
  unfolding value_from
  tail_lem tail zero offset end sp h lt = absurd (omega (arith, lt))
  tail_lem [] (suc fuel) offset end sp (h, hs) lt = rw (h, ◌>>=◌, add-zero)
  tail_lem (c ∷ cs) (suc fuel) offset end (sp, sps) (h, hs) lt =
      let e : offset + suc (length cs) + 1 ≡ offset + 1 + length cs + 1 = omega arith in
      rw e (
        over_space c fuel offset end h sp
        ∙ tail_lem cs fuel (offset + 1) end sps (later (cs ++ (b'\r' ∷ rest)) offset hs)
            (omega (arith, lt)))

  value_lem :
      (c : ℕ) (cs tail : Bytes) (fuel offset end : ℕ)
      → EndsVisible (c ∷ cs)
      → IsSpace tail
      → Holds m (s.ptr + offset) ((c ∷ cs) ++ (tail ++ (b'\r' ∷ rest)))
      → length (c ∷ cs) + length tail < fuel
      → value_from m fuel offset end s
        ≡ done (offset + length (c ∷ cs) + length tail + 1, offset + length (c ∷ cs)) s
  unfolding value_from
  value_lem c cs tail zero offset end e sp h lt = absurd (omega (arith, lt))
  value_lem c [] tail (suc fuel) offset end e sp (h, hs) lt =
      over_visible c fuel offset end h e
      ∙ tail_lem tail fuel (offset + 1) (offset + 1) sp (later (tail ++ (b'\r' ∷ rest)) offset hs)
          (omega (arith, lt))
  value_lem c (d ∷ ds) tail (suc fuel) offset end (e, es) sp (h, hs) lt =
      let total : offset + suc (suc (length ds)) + length tail + 1
          ≡ offset + 1 + suc (length ds) + length tail + 1 =
        omega arith in
      let size : offset + suc (suc (length ds)) ≡ offset + 1 + suc (length ds) = omega arith in
      let next = λ (end' : ℕ).
        value_lem d ds tail fuel (offset + 1) end' es sp
          (later ((d ∷ ds) ++ (tail ++ (b'\r' ∷ rest))) offset hs) (omega (arith, lt)) in
      rw (total, size)
        (elim (or_cases (is_visible c) (az_is_http_whitespace c) e) [
          | inl v ↦ over_visible c fuel offset end h v ∙ next (offset + 1)
          | inr sp' ↦ over_space c fuel offset end h sp' ∙ next end
        ])

  -- From the start of a value: where the byte behind the carriage return is, and the length of the
  -- value.
  pub value_from_start :
      (value tail : Bytes)
      → StartsVisible value tail
      → EndsVisible value
      → IsSpace tail
      → Holds m s.ptr (value ++ (tail ++ (b'\r' ∷ rest)))
      → length value + length tail < 0x8000_0000
      → value_from m max_rounds 0 0 s ≡ done (length (value ++ tail) + 1, length value) s
  value_from_start [] tail st en sp h lt =
      tail_lem tail max_rounds 0 0 sp (rw add-zero h) (omega (arith, max_rounds_lem, lt))
      ∙ rw (zero-add)
  value_from_start (c ∷ cs) tail st en sp h lt =
      let total : 0 + suc (length cs) + length tail + 1 ≡ suc (length (cs ++ tail)) + 1 =
        omega (arith, length-append cs tail) in
      value_lem c cs tail max_rounds 0 0 en sp (rw add-zero h) (omega (arith, max_rounds_lem, lt))
      ∙ rw (total, zero-add)
