-- ===== src/Result/Preserves.antt =====
-- What a run keeps, whether it ends with `AZ_OK` or with an error.
use azure_sdk_for_c.Base.{Bool, true, false}
use azure_sdk_for_c.Result.{
  Outcome, fault, hang, fail, done, Run, ◌>>=◌, when◌then◌else◌, return, throw, Error,
}

-- `P` holds of the state that is left, if there is one.
abbrev pub Leaves : {S A : Type 0} → (S → Type 0) → Outcome S A → Type 0
Leaves P fault = Unit {0}
Leaves P hang = Unit {0}
Leaves P (fail e s) = P s
Leaves P (done a s) = P s

pub record Preserves {S A : Type 0} (P : S → Type 0) (run : Run S A) : Type 0 where
  pub keeps : (s : S) → P s → Leaves P (run s)

module _ {S : Type 0} (P : S → Type 0) {A : Type 0} where
  pub Leaves-less :
      {Q : S → Type 0} (o : Outcome S A) → ((s : S) → P s → Q s) → Leaves P o → Leaves Q o
  Leaves-less fault f h = tt
  Leaves-less hang f h = tt
  Leaves-less (fail e s) f h = f s h
  Leaves-less (done a s) f h = f s h

  pub Preserves-return : (a : A) → Preserves P (return a)
  Preserves-return a = record { keeps = λ s p. p }

  pub Preserves-throw : (e : Error) → Preserves P (throw {S = S} {A = A} e)
  Preserves-throw e = record { keeps = λ s p. p }

  pub Preserves-when :
      (b : Bool) (x y : Run S A)
      → Preserves P x
      → Preserves P y
      → Preserves P (when b then x else y)
  Preserves-when true x y f g = f
  Preserves-when false x y f g = g

  module _ {B : Type 0} where
    pub Preserves-bind :
        (run : Run S A) (next : A → Run S B)
        → Preserves P run
        → ((a : A) → Preserves P (next a))
        → Preserves P (run >>= next)
    Preserves-bind run next f g = record { keeps = λ s p. go (run s) (f.keeps s p) }
      where
        go :
            (o : Outcome S A)
            → Leaves P o
            → Leaves P (elim o as (λ x. Outcome S B) [
              | fault ↦ fault
              | hang ↦ hang
              | fail e s' ↦ fail e s'
              | done a s' ↦ next a s'
            ])
        go fault h = tt
        go hang h = tt
        go (fail e s') h = h
        go (done a s') h = (g a).keeps s' h

pub ruleset keeping = (Preserves-bind, Preserves-when, Preserves-return, Preserves-throw)
