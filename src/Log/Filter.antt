-- ===== src/Log/Filter.antt =====
-- Which messages reach a listener.
use azure_sdk_for_c.Base.{
  ℕ, true, false, ◌==◌, ==_iff, Bool-cases, arith, Option, none, some, List, Bytes, [], ◌∷◌, ◌++◌,
  ◌≡◌, refl, sym, ◌⊎◌, inl, inr,
}
use azure_sdk_for_c.Http.Request.Headers.{load_bytes-Holds}
use azure_sdk_for_c.Log.{
  Log, az_log_set_classifications, az_log_set_listener, is_listed, passes, az_log_should_write,
  az_log_write,
}
use azure_sdk_for_c.Memory.{Memory}
use azure_sdk_for_c.Result.{done}
use azure_sdk_for_c.Span.{Span, Views}
use mathlib.Core.List.Memᴰ
use mathlib.Core.List.{Memᴰ}

-- A classification is wanted if no classifications were set, if none are in the list, or if it is.
abbrev pub IsWanted : ℕ → Option (List ℕ) → Type 0
IsWanted c none = Unit {0}
IsWanted c (some []) = Unit {0}
IsWanted c (some (x ∷ xs)) = Memᴰ c (x ∷ xs)

is_listed-Mem :
    (c : ℕ) (cs : List ℕ)
    → ((is_listed c cs ≡ true) × Memᴰ c cs) ⊎ ((is_listed c cs ≡ false) × ¬ Memᴰ c cs)
unfolding is_listed
is_listed-Mem c [] = inr (refl, Memᴰ.not-nil)
is_listed-Mem c (x ∷ xs) = elim (Bool-cases (x == c)) [
  | inl same ↦ inl (rw same refl, Memᴰ.head (sym ((==_iff x c).0 same)))
  | inr other ↦ elim (is_listed-Mem c xs) [
    | inl (e, member) ↦ inl (rw other e, Memᴰ.tail member)
    | inr (e, absent) ↦ inr (
      rw other e,
      λ h. elim (Memᴰ.cases_cons h) [
        | inl same ↦ absurd (ground (arith, other, sym same))
        | inr later ↦ absent later
      ],
    )
  ]
]

passes-IsWanted :
    (c : ℕ) (classes : Option (List ℕ))
    → ((passes c classes ≡ true) × IsWanted c classes)
      ⊎ ((passes c classes ≡ false) × ¬ IsWanted c classes)
unfolding passes
passes-IsWanted c none = inl (refl, tt)
passes-IsWanted c (some []) = inl (refl, tt)
passes-IsWanted c (some (x ∷ xs)) = is_listed-Mem c (x ∷ xs)

-- A message with a given text that is written to the log when a listener and classifications were
-- set reaches the listener, once and with this text, if no classifications were given or its
-- classification is one of them; else the log is as before.
pub az_log_write_lem :
    (m : Memory) (c : ℕ) (message : Span) (text : Bytes) (log : Log) (l : ℕ)
    (classes : Option (List ℕ))
    → Views m message text
    → (IsWanted c classes
        × (az_log_write m c message
              (az_log_set_listener (some l) (az_log_set_classifications classes log))
            ≡ done tt (
                az_log_set_listener (some l) (
                  az_log_set_classifications classes
                    (record log { calls = log.calls ++ ((l, c, text) ∷ []) })))))
      ⊎ ((¬ IsWanted c classes)
          × (az_log_write m c message
                (az_log_set_listener (some l) (az_log_set_classifications classes log))
              ≡ done tt (az_log_set_listener (some l) (az_log_set_classifications classes log))))
unfolding az_log_write az_log_should_write az_log_set_listener az_log_set_classifications
az_log_write_lem m c message text log l classes v = elim (passes-IsWanted c classes) [
  | inl (e, wanted) ↦
      inl (wanted, rw (e, v.count) (rw (load_bytes-Holds text m message.ptr v.holds) refl))
  | inr (e, unwanted) ↦ inr (unwanted, rw e refl)
]
