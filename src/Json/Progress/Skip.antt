-- ===== src/Json/Progress/Skip.antt =====
-- The skipping of children.
use azure_sdk_for_c.Base.{ℕ, zero, suc, ◌<◌, ◌==◌, arith, Bool-cases, inl, inr}
use azure_sdk_for_c.Double.{Doubles}
use azure_sdk_for_c.Json.Parser.{
  Parser, is_container, az_json_parser_parse_token_member, az_json_parser_parse_array_item,
}
use azure_sdk_for_c.Json.Progress.Value.{left}
use azure_sdk_for_c.Json.Skip.{
  unless_not_found, or_not_found, skip_one, skip_children_from, az_json_parser_skip_children,
}
use azure_sdk_for_c.Json.Stack.{
  StackItem, stack_object, stack_array, az_json_parser_stack_last, az_json_stack_pop,
}
use azure_sdk_for_c.Json.Token.{Token}
use azure_sdk_for_c.Memory.{Memory}
use azure_sdk_for_c.Result.Progress.{Takes, Takes-bind, Takes-when, Takes-later}
use azure_sdk_for_c.Result.{Run, Outcome, fault, hang, fail, done, return, item_not_found}
use azure_sdk_for_c.Json.Progress.Item.{array_item-Takes, member-Takes}

pop-Takes : (stack : ℕ) → Takes (λ (u : Unit {0}). 0) 0 1 0 (az_json_stack_pop stack tt)
unfolding az_json_stack_pop
pop-Takes stack = ground arith

module _ (fp : Doubles) (m : Memory) where
  or_not_found-Takes :
      {A : Type 0} (run : Run Parser A) (n j : ℕ) (self : Parser)
      → Takes left 1 1 n (run self)
      → Takes left 1 j n (or_not_found run self)
  or_not_found-Takes {A} run n j self t = go (run self) t
    where
      go :
          (o : Outcome Parser A)
          → Takes left 1 1 n o
          → Takes left 1 j n (elim o [
            | fault ↦ fault
            | hang ↦ hang
            | fail e s' ↦ unless_not_found e s'
            | done a s' ↦ done tt s'
          ])
      go fault u = tt
      go hang u = elim u [ ]
      go (fail item_not_found s') u = u
      go (fail _ s') u = u
      go (done a s') u = u

  skip_one-Takes :
      (item : StackItem) (j : ℕ) (self : Parser)
      → Takes left 1 j self.reader.len (skip_one fp m item self)
  unfolding skip_one
  skip_one-Takes stack_object j self =
      or_not_found-Takes (az_json_parser_parse_token_member fp m) self.reader.len j self
        (member-Takes fp m self)
  skip_one-Takes stack_array j self =
      or_not_found-Takes (az_json_parser_parse_array_item fp m) self.reader.len j self
        (array_item-Takes fp m self)

  skip_from-Takes :
      (fuel target j : ℕ) (self : Parser)
      → self.reader.len < fuel
      → Takes left 0 j self.reader.len (skip_children_from fp m fuel target self)
  unfolding skip_children_from
  skip_from-Takes zero target j self f = absurd (omega arith)
  skip_from-Takes (suc fuel) target j self f =
      Takes-bind left 1 0 j self.reader.len
        (λ p. skip_one fp m (az_json_parser_stack_last p.stack) p) _ self
        (skip_one-Takes (az_json_parser_stack_last self.stack) j self)
        (λ u s' h.
          Takes-when left 0 j self.reader.len (s'.stack == target) (return tt)
            (skip_children_from fp m fuel target) s' (omega arith)
            (Takes-later left 0 j s'.reader.len 0 j self.reader.len _ (omega arith) (omega arith)
              (omega arith) (skip_from-Takes fuel target j s' (omega arith))))

  -- Skipping until the stack is what a pop leaves.
  target-Takes :
      (o : Outcome (Unit {0}) ℕ) (j : ℕ) (self : Parser)
      → Takes (λ u. 0) 0 1 0 o
      → Takes left 0 j self.reader.len (elim o as (λ x. Outcome Parser (Unit {0})) [
        | fault ↦ fault
        | hang ↦ hang
        | fail e u ↦ fail e self
        | done target_stack u ↦ skip_children_from fp m (suc self.reader.len) target_stack self
      ])
  target-Takes fault j self t = tt
  target-Takes hang j self t = elim t [ ]
  target-Takes (fail item_not_found u) j self t = absurd (omega (arith, t))
  target-Takes (fail _ u) j self t = omega arith
  target-Takes (done target u) j self t =
      skip_from-Takes (suc self.reader.len) target j self (omega arith)

  pub skip_children-Takes :
      (token : Token fp.Double) (j : ℕ) (self : Parser)
      → Takes left 0 j self.reader.len (az_json_parser_skip_children fp m token self)
  unfolding az_json_parser_skip_children
  skip_children-Takes token j self = elim (Bool-cases (is_container fp token)) [
    | inr other ↦ rw other (omega arith)
    | inl container ↦
        rw container (target-Takes (az_json_stack_pop self.stack tt) j self (pop-Takes self.stack))
  ]

  -- Skipping the children of a token ends, and with success or an error the reader is no longer than
  -- it was.
  pub az_json_parser_skip_children-ends :
      (token : Token fp.Double) (self : Parser)
      → Takes left 0 0 self.reader.len (az_json_parser_skip_children fp m token self)
  az_json_parser_skip_children-ends token self = skip_children-Takes token 0 self

  -- Reading an item or a member ends: one that is read has taken a byte at least, and so has the end
  -- of its container, which is reported as not found; with any other error the reader is no longer
  -- than it was.
  pub parse_item-ends :
      (self : Parser)
      → Takes left 1 1 self.reader.len (az_json_parser_parse_array_item fp m self)
        × Takes left 1 1 self.reader.len (az_json_parser_parse_token_member fp m self)
  parse_item-ends self = (array_item-Takes fp m self, member-Takes fp m self)
