-- ===== src/Result/Ensures.antt =====
-- What holds after `AZ_OK`.
use azure_sdk_for_c.Base.{◌≡◌, refl, subst}
use azure_sdk_for_c.Result.Preserves.{Leaves}
use azure_sdk_for_c.Result.{Outcome, fault, hang, fail, done, Run, ◌>>=◌}

-- `P` holds of the value and of the state, if the outcome is `AZ_OK`.
abbrev pub Ensures : {S A : Type 0} → (A → S → Type 0) → Outcome S A → Type 0
Ensures P fault = Unit {0}
Ensures P hang = Unit {0}
Ensures P (fail e s) = Unit {0}
Ensures P (done a s) = P a s

module _ {S A : Type 0} where
  pub Ensures-done :
      (P : A → S → Type 0) {o : Outcome S A} {a : A} {s : S} → Ensures P o → o ≡ done a s → P a s
  Ensures-done P h e = subst (Ensures P) e h

  pub Ensures-itself : (o : Outcome S A) → Ensures (λ a s. o ≡ done a s) o
  Ensures-itself fault = tt
  Ensures-itself hang = tt
  Ensures-itself (fail e s) = tt
  Ensures-itself (done a s) = refl

  pub Ensures-less :
      {P Q : A → S → Type 0} (o : Outcome S A)
      → Ensures P o
      → ((a : A) (s : S) → P a s → Q a s)
      → Ensures Q o
  Ensures-less fault h f = tt
  Ensures-less hang h f = tt
  Ensures-less (fail e s) h f = tt
  Ensures-less (done a s) h f = f a s h

  module _ {B : Type 0} where
    pub Ensures-bind :
        (P : B → S → Type 0) {Q : A → S → Type 0} (run : Run S A) (next : A → Run S B) (s : S)
        → Ensures Q (run s)
        → ((a : A) (s' : S) → Q a s' → Ensures P (next a s'))
        → Ensures P ((run >>= next) s)
    Ensures-bind P {Q} run next s h f = go (run s) h
      where
        go :
            (o : Outcome S A)
            → Ensures Q o
            → Ensures P (elim o as (λ x. Outcome S B) [
              | fault ↦ fault
              | hang ↦ hang
              | fail e s' ↦ fail e s'
              | done a s' ↦ next a s'
            ])
        go fault h = tt
        go hang h = tt
        go (fail e s') h = tt
        go (done a s') h = f a s' h

-- `F` holds of the state after an error, `D` of the value and of the state after `AZ_OK`.
abbrev pub Ends : {S A : Type 0} → (S → Type 0) → (A → S → Type 0) → Outcome S A → Type 0
Ends F D fault = Unit {0}
Ends F D hang = Unit {0}
Ends F D (fail e s) = F s
Ends F D (done a s) = D a s

module _ {S : Type 0} (F : S → Type 0) where
  pub Ends-Leaves : {A : Type 0} (o : Outcome S A) → Leaves F o → Ends F (λ (a : A). F) o
  Ends-Leaves fault h = tt
  Ends-Leaves hang h = tt
  Ends-Leaves (fail e s) h = h
  Ends-Leaves (done a s) h = h

  -- With the equation for the outcome.
  pub Ends-seen :
      {A : Type 0} (o : Outcome S A) → Leaves F o → Ends F (λ (a : A) s. F s × (o ≡ done a s)) o
  Ends-seen fault h = tt
  Ends-seen hang h = tt
  Ends-seen (fail e s) h = h
  Ends-seen (done a s) h = (h, refl)

  module _ {A B : Type 0} (D : B → S → Type 0) {G : A → S → Type 0} where
    pub Ends-bind :
        (run : Run S A) (next : A → Run S B) (s : S)
        → Ends F G (run s)
        → ((a : A) (s' : S) → G a s' → Ends F D (next a s'))
        → Ends F D ((run >>= next) s)
    Ends-bind run next s h f = go (run s) h
      where
        go :
            (o : Outcome S A)
            → Ends F G o
            → Ends F D (elim o as (λ x. Outcome S B) [
              | fault ↦ fault
              | hang ↦ hang
              | fail e s' ↦ fail e s'
              | done a s' ↦ next a s'
            ])
        go fault h = tt
        go hang h = tt
        go (fail e s') h = h
        go (done a s') h = f a s' h

-- A fact that needs no state is added.
pub Ends-and :
    {S A : Type 0} (F : S → Type 0) (D : A → S → Type 0) (Fact : Type 0) (o : Outcome S A)
    → Ends F D o
    → Fact
    → Ends F (λ a s. D a s × Fact) o
Ends-and F D Fact fault h x = tt
Ends-and F D Fact hang h x = tt
Ends-and F D Fact (fail e s) h x = h
Ends-and F D Fact (done a s) h x = (h, x)
