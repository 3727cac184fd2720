-- ===== src/Json/Stack.antt =====
-- The nesting stack of sdk/core/core/src/az_json_parser.c: a `uint64_t` with a bit for each open
-- object or array, above them a bit that marks the bottom.
pub mod Bounded
use azure_sdk_for_c.Base.{ℕ, ◌+◌, ◌*◌, ◌/◌, ◌%◌, ◌^◌, Bool, true, false, not, leb, ◌==◌}
use azure_sdk_for_c.Result.{
  Run, Outcome, when◌then◌else◌, return, throw, json_nesting_overflow, json_invalid_state, done,
  fail,
}

-- `az_json_stack_item`
pub data StackItem : Type 0 where
  stack_object stack_array : StackItem

abbrev pub item_bit : StackItem → ℕ
item_bit stack_object = 0
item_bit stack_array = 1

abbrev pub item_of_bit : ℕ → StackItem
item_of_bit bit = elim (bit == 0) [ true ↦ stack_object | false ↦ stack_array ]

abbrev pub json_stack_size : ℕ
json_stack_size = 63

unfoldable pub az_json_parser_stack_is_empty : ℕ → Bool
az_json_parser_stack_is_empty stack = stack == 1

-- `stack & 1`
unfoldable pub az_json_parser_stack_last : ℕ → StackItem
az_json_parser_stack_last stack = item_of_bit (stack % 2)

-- The lowest bit of the shifted word is 0, so that `|` adds the new one.
unfoldable pub az_json_parser_push_stack : {S : Type 0} → StackItem → ℕ → Run S ℕ
az_json_parser_push_stack item stack =
    when not (stack / 2 ^ json_stack_size == 0)
    then throw json_nesting_overflow
    else return (stack * 2 % 2 ^ 64 + item_bit item)

unfoldable pub az_json_stack_pop : {S : Type 0} → ℕ → Run S ℕ
az_json_stack_pop self = when leb self 1 then throw json_invalid_state else return (self / 2)
