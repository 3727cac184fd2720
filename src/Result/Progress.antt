-- ===== src/Result/Progress.antt =====
-- How a run consumes its input, whose amount a measure of the state tells: the rules by which the
-- loops are shown to end.
use azure_sdk_for_c.Base.{ℕ, ◌+◌, ◌≤◌, Bool, true, false, arith}
use azure_sdk_for_c.Result.{
  Error, item_not_found, Outcome, fault, hang, fail, done, Run, ◌>>=◌, when◌then◌else◌,
}

-- `AZ_ERROR_ITEM_NOT_FOUND` ends some loops and lets others go on, so it is counted by itself.
abbrev pub loss : ℕ → Error → ℕ
loss j item_not_found = j
loss j e = 0

module _ {S : Type 0} (size : S → ℕ) {A : Type 0} where
  -- From a state of size `n`: the run ends within the rounds of its loops, `AZ_OK` has taken `r`
  -- at least, an item that was not found `j`, and no other error has grown the input.
  abbrev pub Takes : ℕ → ℕ → ℕ → Outcome S A → Type 0
  Takes r j n fault = Unit {0}
  Takes r j n hang = ⊥
  Takes r j n (fail e s) = size s + loss j e ≤ n
  Takes r j n (done a s) = size s + r ≤ n

  pub Takes-less :
      (r j n : ℕ) (q i : ℕ) (o : Outcome S A) → q ≤ r → i ≤ j → Takes r j n o → Takes q i n o
  Takes-less r j n q i fault h k t = tt
  Takes-less r j n q i hang h k t = elim t [ ]
  Takes-less r j n q i (fail item_not_found s) h k t = omega arith
  Takes-less r j n q i (fail _ s) h k t = t
  Takes-less r j n q i (done a s) h k t = omega arith

  -- A run from a smaller state, which has taken the difference already.
  pub Takes-later :
      (q i k r j n : ℕ) (o : Outcome S A)
      → r + k ≤ n + q
      → j + k ≤ n + i
      → k ≤ n
      → Takes q i k o
      → Takes r j n o
  Takes-later q i k r j n fault a b c t = tt
  Takes-later q i k r j n hang a b c t = elim t [ ]
  Takes-later q i k r j n (fail item_not_found s) a b c t = omega arith
  Takes-later q i k r j n (fail _ s) a b c t = omega (arith, c, t)
  Takes-later q i k r j n (done v s) a b c t = omega arith

module _ {S : Type 0} (size : S → ℕ) {A B : Type 0} where
  pub Takes-bind :
      (r q j n : ℕ) (run : Run S A) (next : A → Run S B) (s : S)
      → Takes size r j n (run s)
      → ((a : A) (s' : S) → size s' + r ≤ n → Takes size q j n (next a s'))
      → Takes size q j n ((run >>= next) s)
  Takes-bind r q j n run next s t f = go (run s) t
    where
      go :
          (o : Outcome S A)
          → Takes size r j n o
          → Takes size q j n (elim o [
            | fault ↦ fault
            | hang ↦ hang
            | fail e s' ↦ fail e s'
            | done a s' ↦ next a s'
          ])
      go fault u = tt
      go hang u = elim u [ ]
      go (fail e s') u = u
      go (done a s') u = f a s' u

module _ {S : Type 0} (size : S → ℕ) {A : Type 0} where
  pub Takes-when :
      (r j n : ℕ) (b : Bool) (x y : Run S A) (s : S)
      → Takes size r j n (x s)
      → Takes size r j n (y s)
      → Takes size r j n ((when b then x else y) s)
  Takes-when r j n true x y s t u = t
  Takes-when r j n false x y s t u = u
