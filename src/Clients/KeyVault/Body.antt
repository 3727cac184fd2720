-- ===== src/Clients/KeyVault/Body.antt =====
-- The JSON body of a request for a new key, as a JSON value.
use azure_sdk_for_c.Base.{false, some, Bytes, ◌≡◌, sym, ap, ◌∙◌, inl, inr}
use azure_sdk_for_c.Base.Text.{ascii}
use azure_sdk_for_c.Clients.KeyVault.{
  append_enabled, append_key_ops, append_options, create_build_json_body,
}
use azure_sdk_for_c.Double.{Doubles}
use azure_sdk_for_c.Json.Builder.{
  Builder, az_json_builder_append_token, az_json_builder_append_object, az_json_builder_write_comma,
  az_json_builder_append_array_item, az_json_builder_append_object_close,
}
use azure_sdk_for_c.Json.Builder.Values.{append_value, append_members, value_text, ValueGiven}
use azure_sdk_for_c.Json.Builder.Values.Text.{append_value_lem}
use azure_sdk_for_c.Json.Token.{string, object}
use azure_sdk_for_c.Result.{Run, ◌>>◌, >>-assoc}
use azure_sdk_for_c.Source.{literal}
use azure_sdk_for_c.Span.{Span}
use azure_sdk_for_c.Span.Write.{Target}
use azure_sdk_for_c.Span.Write.Emits.{IsOpen, Appends}
use azure_sdk_for_c.Clients.KeyVault.Calls.{
  with_builder-done, with_builder-fail, KeyRequest, options_of, AllSet, enabled_members,
  ops_members, tags_members, body_value, enabled_lem, ops_lem, tags_lem,
}

module _ (fp : Doubles) where
  options_lem :
      (k : KeyRequest)
      → AllSet k
      → append_options fp (some (options_of k))
        ≡ append_members fp
            (enabled_members fp k.enabled (ops_members fp k.operations (tags_members fp k.tags)))
  unfolding append_options
  options_lem k (ops, tags) =
      let put = append_enabled fp k.enabled in
      ap (λ run. put >> (append_key_ops fp (options_of k).operations >> run))
        (tags_lem fp k.tags tags)
      ∙ (ap (λ run. put >> run) (ops_lem fp k.operations (tags_members fp k.tags) ops)
          ∙ enabled_lem fp k.enabled (ops_members fp k.operations (tags_members fp k.tags)))

  -- The calls for the body, and those for the value.
  module _ (kty : Span) (ks : Bytes) (k : KeyRequest) where
    abbrev body_run : Run Builder (Unit {0})
    body_run = do
      az_json_builder_append_token fp object
      az_json_builder_append_object fp (literal (ascii "kty")) (string kty)
      append_options fp (some (options_of k))
      az_json_builder_append_object_close

    body_run_lem :
        AllSet k
        → body_run ≡ append_value fp (az_json_builder_append_token fp) (body_value fp kty ks k)
    unfolding append_members append_value
    body_run_lem h =
        let first = az_json_builder_append_object fp (literal (ascii "kty")) (string kty) in
        ap
          (λ run.
            az_json_builder_append_token fp object
            >> (first >> (run >> az_json_builder_append_object_close)))
          (options_lem k h)
        ∙ ap (λ run. az_json_builder_append_token fp object >> run)
            (sym (>>-assoc first _ az_json_builder_append_object_close))

    pub create_build_json_body_lem :
        (t : Target)
        → IsOpen t
        → ValueGiven fp (body_value fp kty ks k) t
        → AllSet k
        → Appends
            (create_build_json_body fp kty (some (options_of k)))
            t
            (value_text fp (body_value fp kty ks k))
    unfolding create_build_json_body append_value az_json_builder_append_array_item
        az_json_builder_write_comma
    create_build_json_body_lem t b g h =
        let start : Builder = record { json = t; need_comma = false } in
        let same : body_run start
            ≡ append_value fp (az_json_builder_append_array_item fp) (body_value fp kty ks k)
                start =
          ap (λ run. run start) (body_run_lem h) in
        elim (append_value_lem fp start (body_value fp kty ks k) b g) [
          | inl (room, t', e, x) ↦ inl (room, t', with_builder-done body_run t _ (same ∙ e), x)
          | inr (full, t', c, e, x) ↦ inr (
            full,
            record { mem = t'.mem; self = t.self },
            with_builder-fail body_run t _ (same ∙ e),
            x,
          )
        ]
