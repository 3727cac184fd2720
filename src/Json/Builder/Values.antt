-- ===== src/Json/Builder/Values.antt =====
-- The calls of the builder that write a whole JSON value, and the text that they write.
use azure_sdk_for_c.Base.{
  ℕ, ◌+◌, ◌≤◌, ◌<◌, Bool, true, false, Bytes, [], ◌∷◌, ◌++◌, length, append-nil, append_assoc, ◌≡◌,
  refl, sym, ap, ◌∙◌, subst, fun_ext, arith, ◌⊎◌, inl, inr,
}
use azure_sdk_for_c.Double.{Doubles}
use azure_sdk_for_c.Json.Builder.Items.{Builds, array_item-WritesJson, object-WritesJson}
use azure_sdk_for_c.Json.Builder.Writes.{
  comma, WritesJson, on_json-WritesJson, flag-WritesJson, seq-WritesJson, write_comma-WritesJson,
  close-WritesJson, token_text, TokenGiven, Keeps-TokenGiven,
}
use azure_sdk_for_c.Json.Builder.{
  Builder, token_needs_comma, az_json_builder_append_array_item, az_json_builder_append_object,
  az_json_builder_append_array_close, az_json_builder_append_object_close,
  az_json_builder_write_close,
}
use azure_sdk_for_c.Json.Token.{Token, array, object}
use azure_sdk_for_c.Result.{Run, Outcome, done, fail, ◌>>=◌, ◌>>◌, return, buffer_overflow}
use azure_sdk_for_c.Span.Write.Emits.{IsOpen, FitsIn, Spoils, Extends, Extends-refl, Keeps}
use azure_sdk_for_c.Source.{Source}
use azure_sdk_for_c.Span.Write.Given.{Given}
use azure_sdk_for_c.Span.Write.{Target}
pub mod Text

-- A token, with the content of its span; the items of an array; or the members of an object, each with
-- its name and the content of the name.
mutual
  pub data Value (D : Type 0) : Type 0 where
    leaf : Token D → Bytes → Value D
    list : Items D → Value D
    dict : Members D → Value D

  pub data Items (D : Type 0) : Type 0 where
    no_items : Items D
    item : Value D → Items D → Items D

  pub data Members (D : Type 0) : Type 0 where
    no_members : Members D
    member : Source → Bytes → Value D → Members D → Members D

-- The name of a member in front of its value, as the builder writes it.
abbrev pub named_text : Bytes → Bytes → Bytes
named_text ns text = (b'"' ∷ (ns ++ (b'"' ∷ []))) ++ (b':' ∷ text)

module _ (fp : Doubles) where
  -- The calls for a value: `put` appends its first token, as an item or as a member.
  unfoldable mutual
    pub append_value :
        (Token fp.Double → Run Builder (Unit {0})) → Value fp.Double → Run Builder (Unit {0})
    append_value put (leaf token cs) = put token
    append_value put (list items) =
        put array >> (append_items items >> az_json_builder_append_array_close)
    append_value put (dict members) =
        put object >> (append_members members >> az_json_builder_append_object_close)

    pub append_items : Items fp.Double → Run Builder (Unit {0})
    append_items no_items = return tt
    append_items (item value items) =
        append_value (az_json_builder_append_array_item fp) value >> append_items items

    pub append_members : Members fp.Double → Run Builder (Unit {0})
    append_members no_members = return tt
    append_members (member name ns value members) =
        append_value (az_json_builder_append_object fp name) value >> append_members members

  -- The JSON text, with commas between items and between members.
  mutual
    pub value_text : Value fp.Double → Bytes
    value_text (leaf token cs) = token_text fp token cs
    value_text (list items) = b'[' ∷ (items_text false items ++ (b']' ∷ []))
    value_text (dict members) = b'{' ∷ (members_text false members ++ (b'}' ∷ []))

    pub items_text : Bool → Items fp.Double → Bytes
    items_text more no_items = []
    items_text more (item value items) = comma more ++ (value_text value ++ items_text true items)

    pub members_text : Bool → Members fp.Double → Bytes
    members_text more no_members = []
    members_text more (member name ns value members) =
        comma more ++ (named_text ns (value_text value) ++ members_text true members)

  -- The tokens are no numbers and open no containers, and all spans stand outside of the buffer.
  unfoldable mutual
    pub ValueGiven : Value fp.Double → Target → Type 0
    ValueGiven (leaf token cs) t = TokenGiven fp token cs t × (token_needs_comma fp token ≡ true)
    ValueGiven (list items) t = ItemsGiven items t
    ValueGiven (dict members) t = MembersGiven members t

    pub ItemsGiven : Items fp.Double → Target → Type 0
    ItemsGiven no_items t = Unit {0}
    ItemsGiven (item value items) t = ValueGiven value t × ItemsGiven items t

    pub MembersGiven : Members fp.Double → Target → Type 0
    MembersGiven no_members t = Unit {0}
    MembersGiven (member name ns value members) t =
        Given name ns t × (ValueGiven value t × MembersGiven members t)

  -- The flag after items, and after members.
  pub items_flag : Bool → Items fp.Double → Bool
  items_flag b no_items = b
  items_flag b (item value items) = items_flag true items

  pub members_flag : Bool → Members fp.Double → Bool
  members_flag b no_members = b
  members_flag b (member name ns value members) = members_flag true members

  -- What `put` writes: the token, with something in front of it.
  pub record Puts (Ready : Target → Type 0) (put : Token fp.Double → Run Builder (Unit {0}))
      (pre : Bytes → Bytes) : Type 0 where
    writes :
        (token : Token fp.Double) (cs : Bytes)
        → ((t : Target) → Ready t → TokenGiven fp token cs t)
        → WritesJson Ready
            (put token)
            (λ b. comma b ++ pre (token_text fp token cs))
            (λ b. token_needs_comma fp token)
    extends : (xs ys : Bytes) → pre xs ++ ys ≡ pre (xs ++ ys)

  pub item-Puts :
      (Ready : Target → Type 0)
      → Keeps Ready
      → Puts Ready (az_json_builder_append_array_item fp) (λ xs. xs)
  item-Puts Ready keep = record {
    writes = λ token cs given. array_item-WritesJson fp token cs Ready given keep;
    extends = λ xs ys. refl;
  }

  pub member-Puts :
      (Ready : Target → Type 0)
      → Keeps Ready
      → (name : Source) (ns : Bytes) → ((t : Target) → Ready t → Given name ns t)
      → Puts Ready (az_json_builder_append_object fp name) (named_text ns)
  member-Puts Ready keep name ns named = record {
    writes = λ token cs given. object-WritesJson fp token cs Ready name ns named given keep;
    extends = λ xs ys. append_assoc (b'"' ∷ (ns ++ (b'"' ∷ []))) (b':' ∷ xs) ys;
  }

  -- A container: its opening token, what it holds, and its end.
  pub container-WritesJson :
      (Ready : Target → Type 0)
      → Keeps Ready
      → (put : Token fp.Double → Run Builder (Unit {0})) (pre : Bytes → Bytes) → Puts Ready put pre
      → (open' : Token fp.Double) (o c : ℕ) (run : Run Builder (Unit {0})) (inner : Bool → Bytes)
        (flag : Bool → Bool)
      → ((t : Target) → Ready t → TokenGiven fp open' [] t)
      → token_text fp open' [] ≡ o ∷ []
      → token_needs_comma fp open' ≡ false
      → WritesJson Ready run inner flag
      → WritesJson Ready
          (put open' >> (run >> az_json_builder_write_close (c ∷ [])))
          (λ b. comma b ++ pre (o ∷ (inner false ++ (c ∷ []))))
          (λ b. true)
  container-WritesJson Ready keep put pre puts open' o c run inner flag given e1 e2 w self b r =
      subst
        (λ text. Builds (put open' >> (run >> az_json_builder_write_close (c ∷ []))) self text true)
        (ap
            (λ x.
              (comma self.need_comma ++ pre x) ++ (inner (token_needs_comma fp open') ++ (c ∷ [])))
            e1
          ∙ ap (λ x. (comma self.need_comma ++ pre (o ∷ [])) ++ (inner x ++ (c ∷ []))) e2
          ∙ append_assoc (comma self.need_comma) (pre (o ∷ [])) (inner false ++ (c ∷ []))
          ∙ ap (λ x. comma self.need_comma ++ x) (puts.extends (o ∷ []) (inner false ++ (c ∷ []))))
        (seq-WritesJson Ready keep (λ b. comma b ++ pre (token_text fp open' []))
          (λ b. token_needs_comma fp open') (λ b. inner b ++ (c ∷ [])) (λ b. true)
          (puts.writes open' [] given)
          (seq-WritesJson Ready keep inner flag (λ b. c ∷ []) (λ b. true) w
            (close-WritesJson Ready keep c))
          self b r)
