-- ===== src/Json/Builder/Values/Text.antt =====
-- The calls of the builder for a JSON value write its text.
use azure_sdk_for_c.Base.{true, Bytes, ◌++◌, append_assoc, refl, subst, arith, inl}
use azure_sdk_for_c.Double.{Doubles}
use azure_sdk_for_c.Json.Builder.Items.{Builds}
use azure_sdk_for_c.Json.Builder.Values.{
  Value, leaf, list, dict, Items, no_items, item, Members, no_members, member, named_text,
  append_value, append_items, append_members, value_text, items_text, members_text, ValueGiven,
  ItemsGiven, MembersGiven, items_flag, members_flag, Puts, item-Puts, member-Puts,
  container-WritesJson,
}
use azure_sdk_for_c.Json.Builder.Writes.{
  comma, WritesJson, seq-WritesJson, token_text, Keeps-TokenGiven,
}
use azure_sdk_for_c.Json.Builder.{
  Builder, token_needs_comma, az_json_builder_append_array_item, az_json_builder_append_object,
  az_json_builder_append_array_close, az_json_builder_append_object_close,
}
use azure_sdk_for_c.Json.Token.{Token, array, object}
use azure_sdk_for_c.Result.{Run}
use azure_sdk_for_c.Span.Write.Emits.{IsOpen, Extends-refl, Keeps}
use azure_sdk_for_c.Span.Write.Given.{Keeps-Given}
use azure_sdk_for_c.Span.Write.{Target}

module _ (fp : Doubles) where
  mutual
    unfolding ValueGiven ItemsGiven MembersGiven

    Keeps-ValueGiven : (value : Value fp.Double) → Keeps (ValueGiven fp value)
    Keeps-ValueGiven (leaf token cs) t t' bs b x r =
        (Keeps-TokenGiven fp token cs t t' bs b x r.0, r.1)
    Keeps-ValueGiven (list items) t t' bs b x r = Keeps-ItemsGiven items t t' bs b x r
    Keeps-ValueGiven (dict members) t t' bs b x r = Keeps-MembersGiven members t t' bs b x r

    Keeps-ItemsGiven : (items : Items fp.Double) → Keeps (ItemsGiven fp items)
    Keeps-ItemsGiven no_items t t' bs b x r = tt
    Keeps-ItemsGiven (item value items) t t' bs b x r =
        (Keeps-ValueGiven value t t' bs b x r.0, Keeps-ItemsGiven items t t' bs b x r.1)

    Keeps-MembersGiven : (members : Members fp.Double) → Keeps (MembersGiven fp members)
    Keeps-MembersGiven no_members t t' bs b x r = tt
    Keeps-MembersGiven (member name ns value members) t t' bs b x r = (
      Keeps-Given name ns t t' bs b x r.0,
      (Keeps-ValueGiven value t t' bs b x r.1.0, Keeps-MembersGiven members t t' bs b x r.1.1),
    )

  mutual
    unfolding append_value append_items append_members value_text items_text members_text ValueGiven
        ItemsGiven MembersGiven items_flag members_flag az_json_builder_append_array_close
        az_json_builder_append_object_close token_needs_comma

    value-WritesJson :
        (Ready : Target → Type 0)
        → Keeps Ready
        → (put : Token fp.Double → Run Builder (Unit {0})) (pre : Bytes → Bytes)
        → Puts fp Ready put pre
        → (value : Value fp.Double) → ((t : Target) → Ready t → ValueGiven fp value t)
        → WritesJson Ready
            (append_value fp put value)
            (λ b. comma b ++ pre (value_text fp value))
            (λ b. true)
    value-WritesJson Ready keep put pre puts (leaf token cs) given self b r =
        subst
          (λ c. Builds (put token) self (comma self.need_comma ++ pre (token_text fp token cs)) c)
          (given self.json r).1 (puts.writes token cs (λ t r. (given t r).0) self b r)
    value-WritesJson Ready keep put pre puts (list items) given self b r =
        container-WritesJson fp Ready keep put pre puts array b'[' b']' (append_items fp items)
          (λ b. items_text fp b items) (λ b. items_flag fp b items) (λ t r. tt) refl refl
          (items-WritesJson Ready keep items given) self b r
    value-WritesJson Ready keep put pre puts (dict members) given self b r =
        container-WritesJson fp Ready keep put pre puts object b'{' b'}' (append_members fp members)
          (λ b. members_text fp b members) (λ b. members_flag fp b members) (λ t r. tt) refl refl
          (members-WritesJson Ready keep members given) self b r

    items-WritesJson :
        (Ready : Target → Type 0)
        → Keeps Ready
        → (items : Items fp.Double) → ((t : Target) → Ready t → ItemsGiven fp items t)
        → WritesJson Ready
            (append_items fp items)
            (λ b. items_text fp b items)
            (λ b. items_flag fp b items)
    items-WritesJson Ready keep no_items given self b r =
        inl (omega (arith, b.within), self.json, refl, Extends-refl self.json)
    items-WritesJson Ready keep (item value items) given self b r =
        subst
          (λ text. Builds (append_items fp (item value items)) self text (items_flag fp true items))
          (append_assoc (comma self.need_comma) (value_text fp value) (items_text fp true items))
          (seq-WritesJson Ready keep (λ b. comma b ++ value_text fp value) (λ b. true)
            (λ b. items_text fp b items) (λ b. items_flag fp b items)
            (value-WritesJson Ready keep (az_json_builder_append_array_item fp) (λ xs. xs)
              (item-Puts fp Ready keep) value (λ t r. (given t r).0))
            (items-WritesJson Ready keep items (λ t r. (given t r).1)) self b r)

    members-WritesJson :
        (Ready : Target → Type 0)
        → Keeps Ready
        → (members : Members fp.Double) → ((t : Target) → Ready t → MembersGiven fp members t)
        → WritesJson Ready
            (append_members fp members)
            (λ b. members_text fp b members)
            (λ b. members_flag fp b members)
    members-WritesJson Ready keep no_members given self b r =
        inl (omega (arith, b.within), self.json, refl, Extends-refl self.json)
    members-WritesJson Ready keep (member name ns value members) given self b r =
        subst
          (λ text.
            Builds (append_members fp (member name ns value members)) self text
              (members_flag fp true members))
          (append_assoc (comma self.need_comma) (named_text ns (value_text fp value))
            (members_text fp true members))
          (seq-WritesJson Ready keep (λ b. comma b ++ named_text ns (value_text fp value))
            (λ b. true) (λ b. members_text fp b members) (λ b. members_flag fp b members)
            (value-WritesJson Ready keep (az_json_builder_append_object fp name) (named_text ns)
              (member-Puts fp Ready keep name ns (λ t r. (given t r).0)) value
              (λ t r. (given t r).1.0))
            (members-WritesJson Ready keep members (λ t r. (given t r).1.1)) self b r)

  pub append_value_lem :
      (self : Builder) (value : Value fp.Double)
      → IsOpen self.json
      → ValueGiven fp value self.json
      → Builds
          (append_value fp (az_json_builder_append_array_item fp) value)
          self
          (comma self.need_comma ++ value_text fp value)
          true
  append_value_lem self value b g =
      value-WritesJson (ValueGiven fp value) (Keeps-ValueGiven value)
        (az_json_builder_append_array_item fp) (λ xs. xs)
        (item-Puts fp (ValueGiven fp value) (Keeps-ValueGiven value)) value (λ t r. r) self b g
