-- ===== src/Span/Decimal/Digits.antt =====
-- The decimal digits of a number, and the number that digits write.
use azure_sdk_for_c.Base.{
  ℕ, zero, suc, ◌+◌, ◌-◌, ◌*◌, ◌/◌, ◌%◌, ◌^◌, ◌<◌, true, Bytes, [], ◌∷◌, length, ◌≡◌, refl, sym, ap,
  ◌∙◌, arith,
}
use azure_sdk_for_c.Span.Read.Uint64.{all_digits, decimal}
use native.Mathlib.Nat.{div-add-mod, pow-suc}

-- The `k + 1` digits of a number below `10 ^ (k + 1)`.
unfoldable pub digits : ℕ → ℕ → Bytes
digits zero n = (b'0' + n) ∷ []
digits (suc k) n = (b'0' + n / 10 ^ suc k) ∷ digits k (n % 10 ^ suc k)

pub length-digits : (k n : ℕ) → length (digits k n) ≡ suc k
unfolding digits
length-digits zero n = refl
length-digits (suc k) n = ap suc (length-digits k (n % 10 ^ suc k))

pub pow_pos : (k : ℕ) → 0 < 10 ^ k
pow_pos zero = omega arith
pow_pos (suc k) = omega (arith, pow-suc 10 k, pow_pos k)

pub quotient-lt : (n d : ℕ) → 0 < d → n < 10 * d → n / d < 10
quotient-lt n d p h = grind arith

pub remainder-lt : (n d : ℕ) → 0 < d → n % d < d
remainder-lt n d p = omega arith

pub all_digits-digits : (k n : ℕ) → n < 10 ^ suc k → all_digits (digits k n) ≡ true
unfolding digits
all_digits-digits zero n h = ground arith
all_digits-digits (suc k) n h = ground (
  arith,
  quotient-lt n (10 ^ suc k) (pow_pos (suc k)) (omega (arith, pow-suc 10 (suc k))),
  all_digits-digits k (n % 10 ^ suc k) (remainder-lt n (10 ^ suc k) (pow_pos (suc k))),
)

regroup : (v n p : ℕ) → (v * 10 + n / p) * p + n % p ≡ v * (p * 10) + n
regroup v n p = omega (arith, div-add-mod n p)

pub decimal-digits : (k v n : ℕ) → n < 10 ^ suc k → decimal v (digits k n) ≡ v * 10 ^ suc k + n
unfolding digits
decimal-digits zero v n h = omega arith
decimal-digits (suc k) v n h =
    let q = n / 10 ^ suc k in
    let e : v * 10 + (b'0' + q - b'0') ≡ v * 10 + q = omega arith in
    ap (λ w. decimal w (digits k (n % 10 ^ suc k))) e
    ∙ (decimal-digits k (v * 10 + q) (n % 10 ^ suc k)
          (remainder-lt n (10 ^ suc k) (pow_pos (suc k)))
        ∙ regroup v n (10 ^ suc k)
        ∙ ap (λ p. v * p + n) (sym (pow-suc 10 (suc k))))
