-- ===== src/Json/Stack/Bounded.antt =====
-- The word refines a stack of at most 63 items.
use azure_sdk_for_c.Base.{
  ℕ, zero, suc, ◌+◌, ◌*◌, ◌/◌, ◌%◌, ◌^◌, ◌≤◌, ◌<◌, Bool, true, false, ltb, List, [], ◌∷◌, length,
  if◌then◌else◌, ◌≡◌, refl, arith, le→ltb_false, lt→ltb, ne→==_false, lt→leb_false, ==_iff, ◌≢◌,
}
use azure_sdk_for_c.Json.Stack.{
  StackItem, stack_object, stack_array, item_bit, json_stack_size, az_json_parser_stack_is_empty,
  az_json_parser_stack_last, az_json_parser_push_stack, az_json_stack_pop,
}
use azure_sdk_for_c.Result.{Outcome, done, fail, json_nesting_overflow, json_invalid_state}
use native.Mathlib.Nat.{pow-suc}
use native.Mathlib.Decide.{dec_lt}

-- The word of a stack, its top first.
abbrev pub word : List StackItem → ℕ
word [] = 1
word (item ∷ items) = word items * 2 + item_bit item

word_bounds :
    (items : List StackItem)
    → (2 ^ length items ≤ word items) × (word items < 2 ^ suc (length items))
word_bounds [] = omega arith
word_bounds (stack_object ∷ items) =
    omega (arith, word_bounds items, pow-suc 2 (length items), pow-suc 2 (suc (length items)))
word_bounds (stack_array ∷ items) =
    omega (arith, word_bounds items, pow-suc 2 (length items), pow-suc 2 (suc (length items)))

halves : (item : StackItem) (w : ℕ) → (w * 2 + item_bit item) / 2 ≡ w
halves stack_object w = omega arith
halves stack_array w = omega arith

pow_mono : (k n : ℕ) → k ≤ n → 2 ^ k ≤ 2 ^ n
pow_mono k zero h = let e : k ≡ 0 = omega arith in rw e (omega arith)
pow_mono zero (suc n) h = omega (arith, pow_mono zero n (omega arith), pow-suc 2 n)
pow_mono (suc k) (suc n) h = omega (arith, pow_mono k n (omega arith), pow-suc 2 n, pow-suc 2 k)

-- What a push does to an abstract stack: 63 items are the most.
abbrev pub pushed : {S : Type 0} → StackItem → List StackItem → S → Outcome S ℕ
pushed item items s =
    if ltb (length items) json_stack_size
    then done (word (item ∷ items)) s
    else fail json_nesting_overflow s

pub push_stack-word :
    {S : Type 0} (item : StackItem) (items : List StackItem) (s : S)
    → az_json_parser_push_stack item (word items) s ≡ pushed item items s
unfolding az_json_parser_push_stack
push_stack-word item items s = elim (dec_lt (length items) json_stack_size) [
  | yes room ↦
      let small : word items < 2 ^ 63 =
        omega (arith, word_bounds items, pow_mono (suc (length items)) 63 room) in
      rw (lt→ltb _ _ room) (
        rw ((==_iff (word items / 2 ^ 63) 0).1 (omega arith))
          (let e : word items * 2 % 2 ^ 64 ≡ word items * 2 = omega arith in rw e))
  | no full ↦
      let large : 2 ^ 63 ≤ word items =
        omega (arith, word_bounds items, pow_mono 63 (length items) (omega arith)) in
      let high : word items / 2 ^ 63 ≢ 0 = omega arith in
      rw (le→ltb_false 63 (length items) (omega arith)) (rw (ne→==_false _ 0 high))
]

-- What a pop does to an abstract stack: the bottom cannot be taken off.
abbrev pub popped : {S : Type 0} → List StackItem → S → Outcome S ℕ
popped [] s = fail json_invalid_state s
popped (item ∷ items) s = done (word items) s

pub stack_pop-word :
    {S : Type 0} (items : List StackItem) (s : S)
    → az_json_stack_pop (word items) s ≡ popped items s
unfolding az_json_stack_pop
stack_pop-word [] s = refl
stack_pop-word (item ∷ items) s =
    let positive : 1 ≤ word items =
      omega (arith, word_bounds items, pow_mono 0 (length items) (omega arith)) in
    let above : (word items * 2 + item_bit item) / 2 ≡ word items = halves item (word items) in
    rw (lt→leb_false (word items * 2 + item_bit item) 1 (omega arith)) (rw above)

abbrev pub is_nil : List StackItem → Bool
is_nil [] = true
is_nil (item ∷ items) = false

abbrev pub top_or_array : List StackItem → StackItem
top_or_array [] = stack_array
top_or_array (item ∷ items) = item

pub stack_is_empty-word :
    (items : List StackItem) → az_json_parser_stack_is_empty (word items) ≡ is_nil items
unfolding az_json_parser_stack_is_empty
stack_is_empty-word [] = refl
stack_is_empty-word (item ∷ items) =
    ne→==_false _ 1
      (λ e. absurd (omega (arith, word_bounds items, pow_mono 0 (length items) (omega arith), e)))

pub stack_last-word :
    (items : List StackItem) → az_json_parser_stack_last (word items) ≡ top_or_array items
unfolding az_json_parser_stack_last
stack_last-word [] = refl
stack_last-word (stack_object ∷ items) = let e : (word items * 2 + 0) % 2 ≡ 0 = omega arith in rw e
stack_last-word (stack_array ∷ items) = let e : (word items * 2 + 1) % 2 ≡ 1 = omega arith in rw e

-- The four operations on the word of a stack of items do what they mean to: a push puts the item on
-- top and refuses the 64th, a pop takes the top off and refuses at the bottom, the emptiness test
-- tells whether there is no item, and the last item is the top (an array, if there is none).
pub stack_refines :
    {S : Type 0} (item : StackItem) (items : List StackItem) (s : S)
    → (az_json_parser_push_stack item (word items) s ≡ pushed item items s)
      × (az_json_stack_pop (word items) s ≡ popped items s)
      × (az_json_parser_stack_is_empty (word items) ≡ is_nil items)
      × (az_json_parser_stack_last (word items) ≡ top_or_array items)
stack_refines item items s = (
  push_stack-word item items s,
  stack_pop-word items s,
  stack_is_empty-word items,
  stack_last-word items,
)
