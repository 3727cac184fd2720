-- ===== src/Json/Builder/Items.antt =====
-- The operations of the builder on items, members and the ends of containers.
use azure_sdk_for_c.Base.{◌+◌, ◌<◌, Bool, Bytes, [], ◌∷◌, ◌++◌, length, ◌≡◌, ◌⊎◌}
use azure_sdk_for_c.Double.{Doubles}
use azure_sdk_for_c.Json.Builder.Writes.{
  comma, WritesJson, on_json-WritesJson, flag-WritesJson, seq-WritesJson, write_comma-WritesJson,
  str-Emits, token_text, TokenGiven, Keeps-TokenGiven, token-Emits,
}
use azure_sdk_for_c.Json.Builder.{
  Builder, token_needs_comma, az_json_builder_append_token, az_json_builder_append_object,
  az_json_builder_append_array_item,
}
use azure_sdk_for_c.Json.Token.{Token}
use azure_sdk_for_c.Result.{Run, done, fail, buffer_overflow}
use azure_sdk_for_c.Source.{Source}
use azure_sdk_for_c.Span.Write.Emits.{
  IsOpen, FitsIn, Spoils, Extends, Emits-Ready, Emits-literal, Keeps,
}
use azure_sdk_for_c.Span.Write.Given.{Given, Keeps-Given}
use azure_sdk_for_c.Span.Write.{Target}

-- An operation on a builder appends the text and sets the flag for a comma, or reports the overflow.
abbrev pub Builds : Run Builder (Unit {0}) → Builder → Bytes → Bool → Type 0
Builds run self text flag =
    (FitsIn self.json text
      × (t : Target) × (run self ≡ done tt (record { json = t; need_comma = flag }))
      × Extends self.json text t)
    ⊎ ((self.json.self.capacity < self.json.self.len + length text)
        × (t : Target) × (b : Bool) × (run self
            ≡ fail buffer_overflow (record { json = t; need_comma = b }))
        × Spoils self.json t)

module _ (fp : Doubles) (token : Token fp.Double) (cs : Bytes) where
  token-WritesJson :
      (Ready : Target → Type 0)
      → ((t : Target) → Ready t → TokenGiven fp token cs t)
      → Keeps Ready
      → WritesJson Ready
          (az_json_builder_append_token fp token)
          (λ b. token_text fp token cs)
          (λ b. token_needs_comma fp token)
  unfolding az_json_builder_append_token
  token-WritesJson Ready given keep =
      seq-WritesJson Ready keep (λ b. []) (λ b. token_needs_comma fp token)
        (λ b. token_text fp token cs) (λ b. b) (flag-WritesJson Ready (token_needs_comma fp token))
        (on_json-WritesJson Ready (Emits-Ready given (token-Emits fp token cs)))

  pub array_item-WritesJson :
      (Ready : Target → Type 0)
      → ((t : Target) → Ready t → TokenGiven fp token cs t)
      → Keeps Ready
      → WritesJson Ready
          (az_json_builder_append_array_item fp token)
          (λ b. comma b ++ token_text fp token cs)
          (λ b. token_needs_comma fp token)
  unfolding az_json_builder_append_array_item
  array_item-WritesJson Ready given keep =
      seq-WritesJson Ready keep comma (λ b. b) (λ b. token_text fp token cs)
        (λ b. token_needs_comma fp token) (write_comma-WritesJson Ready)
        (token-WritesJson Ready given keep)

  pub az_json_builder_append_array_item_lem :
      (self : Builder)
      → IsOpen self.json
      → TokenGiven fp token cs self.json
      → Builds
          (az_json_builder_append_array_item fp token)
          self
          (comma self.need_comma ++ token_text fp token cs)
          (token_needs_comma fp token)
  az_json_builder_append_array_item_lem self b g =
      array_item-WritesJson (TokenGiven fp token cs) (λ t r. r) (Keeps-TokenGiven fp token cs) self
        b g

  -- The text of a member: its name between quotes, as it is, and a colon before the token.
  abbrev pub member_text : Bytes → Bytes
  member_text ns = (b'"' ∷ (ns ++ (b'"' ∷ []))) ++ ((b':' ∷ []) ++ token_text fp token cs)

  pub object-WritesJson :
      (Ready : Target → Type 0) (name : Source) (ns : Bytes)
      → ((t : Target) → Ready t → Given name ns t)
      → ((t : Target) → Ready t → TokenGiven fp token cs t)
      → Keeps Ready
      → WritesJson Ready
          (az_json_builder_append_object fp name token)
          (λ b. comma b ++ member_text ns)
          (λ b. token_needs_comma fp token)
  unfolding az_json_builder_append_object
  object-WritesJson Ready name ns named given keep =
      seq-WritesJson Ready keep comma (λ b. b) (λ b. member_text ns)
        (λ b. token_needs_comma fp token) (write_comma-WritesJson Ready)
        (seq-WritesJson Ready keep (λ b. b'"' ∷ (ns ++ (b'"' ∷ []))) (λ b. b)
          (λ b. (b':' ∷ []) ++ token_text fp token cs) (λ b. token_needs_comma fp token)
          (on_json-WritesJson Ready (str-Emits Ready keep name ns named))
          (seq-WritesJson Ready keep (λ b. b':' ∷ []) (λ b. b) (λ b. token_text fp token cs)
            (λ b. token_needs_comma fp token)
            (on_json-WritesJson Ready (Emits-literal Ready (b':' ∷ [])))
            (token-WritesJson Ready given keep)))

  pub az_json_builder_append_object_lem :
      (self : Builder) (name : Source) (ns : Bytes)
      → IsOpen self.json
      → Given name ns self.json
      → TokenGiven fp token cs self.json
      → Builds
          (az_json_builder_append_object fp name token)
          self
          (comma self.need_comma ++ member_text ns)
          (token_needs_comma fp token)
  az_json_builder_append_object_lem self name ns b g k =
      object-WritesJson (λ t. Given name ns t × TokenGiven fp token cs t) name ns (λ t r. r.0)
        (λ t r. r.1)
        (λ t t' bs x h r.
          (Keeps-Given name ns t t' bs x h r.0, Keeps-TokenGiven fp token cs t t' bs x h r.1))
        self b (g, k)
