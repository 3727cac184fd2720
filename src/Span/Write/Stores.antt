-- ===== src/Span/Write/Stores.antt =====
-- Bytes that are stored one after the other.
use azure_sdk_for_c.Base.{
  ℕ, ◌+◌, true, some, Bytes, [], ◌∷◌, ◌++◌, length, length-append, ◌≡◌, arith, inl,
}
use azure_sdk_for_c.Memory.{Memory, readable, filled, memset, store, Holds-append}
use azure_sdk_for_c.Memory.Changes.{Changes-trans, Changes-Holds, Changes-filled}
use azure_sdk_for_c.Result.{done}
use azure_sdk_for_c.Span.Write.Copy.{Stored}

filled_first : (m : Memory) (p c : ℕ) → filled m p c 1 p ≡ some c
unfolding filled
filled_first m p c = ground arith

pub store-Stored :
    (m : Memory) (p c : ℕ)
    → readable m p 1 ≡ true
    → (m' : Memory) × (store p c m ≡ done tt m') × Stored m p (c ∷ []) m'
unfolding store memset
store-Stored m p c r = (
  filled m p c 1,
  rw r,
  record { holds = (filled_first m p c, tt); changes = Changes-filled m p c 1 r },
)

pub Stored-append :
    {m m1 m2 : Memory} {p : ℕ} {xs ys : Bytes}
    → Stored m p xs m1
    → Stored m1 (p + length xs) ys m2
    → Stored m p (xs ++ ys) m2
Stored-append {m} {m1} {m2} {p} {xs} {ys} f g = record {
  holds =
      Holds-append xs ys m2 p (Changes-Holds xs _ g.changes (inl (omega arith)) f.holds) g.holds;
  changes =
      Changes-trans _ _ (omega arith) (omega (arith, length-append xs ys)) (omega arith)
        (omega (arith, length-append xs ys)) f.changes g.changes;
}
