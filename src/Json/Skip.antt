-- ===== src/Json/Skip.antt =====
-- `az_json_parser_skip_children` of sdk/core/core/src/az_json_parser.c.
use azure_sdk_for_c.Base.{ℕ, zero, suc, not, ◌==◌}
use azure_sdk_for_c.Double.{Doubles}
use azure_sdk_for_c.Json.Parser.{
  Parser, is_container, az_json_parser_parse_token_member, az_json_parser_parse_array_item,
}
use azure_sdk_for_c.Json.Stack.{
  StackItem, stack_object, stack_array, az_json_parser_stack_last, az_json_stack_pop,
}
use azure_sdk_for_c.Json.Token.{Token}
use azure_sdk_for_c.Memory.{Memory}
use azure_sdk_for_c.Result.{
  Run, fault, hang, fail, done, ◌>>◌, when◌then◌else◌, return, too_long, Error, item_not_found,
}

-- `if (result != AZ_ERROR_ITEM_NOT_FOUND) { AZ_RETURN_IF_FAILED(result); }`
abbrev pub unless_not_found : {S : Type 0} → Error → Run S (Unit {0})
unless_not_found item_not_found s = done tt s
unless_not_found e s = fail e s

abbrev pub or_not_found : {S A : Type 0} → Run S A → Run S (Unit {0})
or_not_found run s = elim (run s) [
  | fault ↦ fault
  | hang ↦ hang
  | fail e s' ↦ unless_not_found e s'
  | done a s' ↦ done tt s'
]

module _ (fp : Doubles) where
  -- One round of the loop: a member or an item of the innermost container.
  unfoldable pub skip_one : Memory → StackItem → Run Parser (Unit {0})
  unfolding az_json_parser_parse_token_member az_json_parser_parse_array_item
  skip_one m stack_object = or_not_found (az_json_parser_parse_token_member fp m)
  skip_one m stack_array = or_not_found (az_json_parser_parse_array_item fp m)

  unfoldable pub skip_children_from : Memory → ℕ → ℕ → Run Parser (Unit {0})
  unfolding skip_one
  skip_children_from m zero target_stack = too_long
  skip_children_from m (suc fuel) target_stack = do
    (λ self. skip_one m (az_json_parser_stack_last self.stack) self)
    (λ self.
        (when self.stack == target_stack then return tt else skip_children_from m fuel target_stack)
          self)

  -- A round that goes on takes a byte.
  unfoldable pub az_json_parser_skip_children : Memory → Token fp.Double → Run Parser (Unit {0})
  unfolding skip_children_from
  az_json_parser_skip_children m token =
      when not (is_container fp token) then return tt else (λ self.
        elim (az_json_stack_pop self.stack tt) [
          | fault ↦ fault
          | hang ↦ hang
          | fail e u ↦ fail e self
          | done target_stack u ↦ skip_children_from m (suc self.reader.len) target_stack self
        ])
