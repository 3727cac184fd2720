-- ===== src/Span/Decimal/Print.antt =====
-- What `az_span_append_uint64` prints.
use azure_sdk_for_c.Base.{
  ℕ, zero, suc, ◌+◌, ◌-◌, ◌/◌, ◌%◌, ◌^◌, ◌≤◌, ◌<◌, true, Bytes, [], ◌∷◌, length, lt→ltb,
  ne→==_false, ◌≡◌, ◌≢◌, refl, ◌∙◌, arith, ◌⊎◌, inl, inr,
}
use azure_sdk_for_c.Base.Int.{ℤ, pos, negsuc}
use azure_sdk_for_c.Result.{Run, done, >>=-known}
use azure_sdk_for_c.Span.Decimal.{
  az_decimal_to_ascii, find_divisor, append_digit, append_digits, rounds,
  az_span_builder_append_uint64, az_span_append_uint64, az_span_append_int64,
}
use azure_sdk_for_c.Span.Decimal.Digits.{
  digits, length-digits, pow_pos, quotient-lt, remainder-lt, all_digits-digits, decimal-digits,
}
use azure_sdk_for_c.Span.Read.Uint64.{all_digits, decimal}
use azure_sdk_for_c.Span.Write.{Target}
use azure_sdk_for_c.Span.Write.Emits.{
  Appends, Emits-Appends, IsOpen, Emits, Emits-literal, Emits-seq, Keeps,
}
use native.Mathlib.Decide.{dec_le}
use native.Mathlib.Nat.{pow-suc}

tenfold : (k : ℕ) → 1 < 10 ^ suc k
tenfold k = omega (arith, pow-suc 10 k, pow_pos k)

tenth : (k : ℕ) → 10 ^ suc k / 10 ≡ 10 ^ k
tenth k = omega (arith, pow-suc 10 k)

quotient_small : (n p : ℕ) → 0 < p → n < p → n / p ≡ 0
quotient_small n p h l = grind arith

quotient_positive : (n p : ℕ) → 0 < p → p ≤ n → n / p ≢ 0
quotient_positive n p h l = grind arith

-- The greatest power of ten that is not above `n`.
find_divisor_lem :
    (S : Type 0) (j fuel n : ℕ)
    → 0 < n
    → n < 10 ^ suc j
    → j < fuel
    → (k : ℕ) × ((s : S) → find_divisor fuel n (10 ^ j) s ≡ done (10 ^ k) s)
      × (10 ^ k ≤ n)
      × (n < 10 ^ suc k)
      × (k ≤ j)
unfolding find_divisor
find_divisor_lem S j zero n p h f = absurd (omega arith)
find_divisor_lem S zero (suc fuel) n p h f =
    (0, λ s. rw (ne→==_false _ _ (quotient_positive n 1 (omega arith) p)), p, h, omega arith)
find_divisor_lem S (suc j) (suc fuel) n p h f = elim (dec_le (10 ^ suc j) n) [
  | yes reached ↦ (
    suc j,
    λ s. rw (ne→==_false _ _ (quotient_positive n (10 ^ suc j) (pow_pos (suc j)) reached)),
    reached,
    h,
    omega arith,
  )
  | no below ↦
      let (k, e, lo, hi, le) = find_divisor_lem S j fuel n p (omega arith) (omega arith) in
      (
        k,
        λ s.
            rw (quotient_small n (10 ^ suc j) (pow_pos (suc j)) (omega arith)) (rw (tenth j) (e s)),
        lo,
        hi,
        omega arith,
      )
]

module _ (Ready : Target → Type 0) (keep : Keeps Ready) where
  digit-Emits : (d : ℕ) → d < 10 → Emits Ready (append_digit d) ((b'0' + d) ∷ [])
  unfolding az_decimal_to_ascii
  digit-Emits d h =
      let e : (b'0' + d % 256) % 256 ≡ b'0' + d = omega arith in
      rw e (Emits-literal Ready ((b'0' + d) ∷ []))

  append_digits-Emits :
      (k fuel n : ℕ)
      → n < 10 ^ suc k
      → k < fuel
      → Emits Ready (append_digits fuel n (10 ^ k)) (digits k n)
  unfolding append_digits digits
  append_digits-Emits k zero n h f = absurd (omega arith)
  append_digits-Emits zero (suc fuel) n h f = digit-Emits n h
  append_digits-Emits (suc k) (suc fuel) n h f =
      let p = 10 ^ suc k in
      rw (lt→ltb 1 p (tenfold k)) (
        rw (tenth k) (
          Emits-seq Ready keep
            (digit-Emits (n / p)
              (quotient-lt n p (pow_pos (suc k)) (omega (arith, pow-suc 10 (suc k)))))
            (append_digits-Emits k fuel (n % p) (remainder-lt n p (pow_pos (suc k)))
              (omega arith))))

-- `text` is the decimal numeral of `n`: its digits have the value `n`, and the first of them is not
-- a zero unless it is the only one.
pub record IsNumeral (n : ℕ) (text : Bytes) : Type 0 where
  pub only_digits : all_digits text ≡ true
  pub value : decimal 0 text ≡ n
  pub not_empty : 1 ≤ length text
  pub at_most_20 : length text ≤ 20
  pub no_leading_zero : (length text ≡ 1) ⊎ (10 ^ (length text - 1) ≤ n)

digits-IsNumeral : (k n : ℕ) → n < 10 ^ suc k → 10 ^ k ≤ n → k ≤ 19 → IsNumeral n (digits k n)
digits-IsNumeral k n h lo le = record {
  not_empty = omega (arith, length-digits k n);
  at_most_20 = omega (arith, length-digits k n);
  only_digits = all_digits-digits k n h;
  value = decimal-digits k 0 n h ∙ omega arith;
  no_leading_zero = inr (rw (length-digits k n) (let e : suc k - 1 ≡ k = omega arith in rw e lo));
}

abbrev pub IsInt64 : ℤ → Type 0
IsInt64 (pos n) = n < 2 ^ 63
IsInt64 (negsuc k) = k < 2 ^ 63

-- The text of an integer: its numeral, behind a sign if it is negative.
abbrev pub IsIntegerText : ℤ → Bytes → Type 0
IsIntegerText (pos n) text = IsNumeral n text
IsIntegerText (negsuc k) [] = ⊥
IsIntegerText (negsuc k) (c ∷ cs) = (c ≡ b'-') × IsNumeral (suc k) cs

abbrev pub Always : Target → Type 0
Always t = Unit {0}

module _ (Ready : Target → Type 0) (keep : Keeps Ready) where
  abbrev pub Prints : ℕ → Run Target (Unit {0}) → Type 0
  Prints n run = (text : Bytes) × Emits Ready run text × IsNumeral n text

  uint64-Prints : (n : ℕ) → n < 2 ^ 64 → Prints n (az_span_builder_append_uint64 n)
  unfolding az_span_builder_append_uint64
  uint64-Prints zero h = (
    b'0' ∷ [],
    Emits-literal Ready (b'0' ∷ []),
    record {
      only_digits = refl;
      value = refl;
      not_empty = omega arith;
      at_most_20 = omega arith;
      no_leading_zero = inl refl;
    },
  )
  uint64-Prints (suc n') h =
      let n = suc n' in
      let (k, found, lo, hi, le) =
        find_divisor_lem Target 19 rounds n (omega arith) (omega arith) (omega arith) in
      (
        digits k n,
        rw (ne→==_false n 0 (omega arith)) (
            rw (>>=-known _ (append_digits rounds n) (10 ^ k) found)
              (append_digits-Emits Ready keep k rounds n hi (omega arith))),
        digits-IsNumeral k n hi lo le,
      )

  int64-IsIntegerText :
      (n : ℤ)
      → IsInt64 n
      → (text : Bytes) × Emits Ready (az_span_append_int64 n) text × IsIntegerText n text
  unfolding az_span_append_int64
  int64-IsIntegerText (pos n) h = uint64-Prints n (omega arith)
  int64-IsIntegerText (negsuc k) h =
      let (text, emits, numeral) = uint64-Prints (suc k) (omega arith) in
      (b'-' ∷ text, Emits-seq Ready keep (Emits-literal Ready (b'-' ∷ [])) emits, (refl, numeral))

  pub az_span_append_uint64-Prints : (n : ℕ) → n < 2 ^ 64 → Prints n (az_span_append_uint64 n)
  unfolding az_span_append_uint64
  az_span_append_uint64-Prints = uint64-Prints

-- Every `int64_t` is appended to an open target as its numeral, the negative ones behind a minus
-- sign; where there is no room for it, the overflow is reported.
pub az_span_append_int64_lem :
    (n : ℤ) (t : Target)
    → IsInt64 n
    → IsOpen t
    → (text : Bytes) × IsIntegerText n text × Appends (az_span_append_int64 n) t text
az_span_append_int64_lem n t h ready =
    let (text, emits, k) = int64-IsIntegerText Always (λ t t' bs x f r. tt) n h in
    (text, k, Emits-Appends Always t emits ready tt)
