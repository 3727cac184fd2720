-- ===== src/Clients/KeyVault.antt =====
-- sdk/keyvault/keyvault/src/az_keyvault_client.c: the client of the Key Vault service.
pub mod Calls
pub mod Body
use azure_sdk_for_c.Base.{ℕ, Bool, false, ltb, Option, none, some, List, [], ◌∷◌}
use azure_sdk_for_c.Base.Text.{ascii}
use azure_sdk_for_c.Clients.{client_pipeline}
use azure_sdk_for_c.Clients.Parts.{
  Client, ClientOptions, ClientPlaces, init_client, with_request, append_path, copy_url,
  create_request,
}
use azure_sdk_for_c.Credentials.{ClientSecretCredential}
use azure_sdk_for_c.Credentials.ClientSecret.{request_body_buf_size}
use azure_sdk_for_c.Double.{Doubles}
use azure_sdk_for_c.Http.Pipeline.{
  World, Platform, append_header, az_http_pipeline_process, option_location_queryparameter,
}
use azure_sdk_for_c.Http.Request.{Pair}
use azure_sdk_for_c.Json.Builder.{
  Builder, az_json_builder_append_token, az_json_builder_append_object,
  az_json_builder_append_array_item, az_json_builder_append_object_close,
  az_json_builder_append_array_close,
}
use azure_sdk_for_c.Json.Token.{string, boolean, object, array}
use azure_sdk_for_c.Result.{Run, fault, hang, fail, done, ◌>>=◌, ◌>>◌, when◌then◌else◌, return}
use azure_sdk_for_c.Source.{at, literal}
use azure_sdk_for_c.Span.{Span, az_span_init, az_span_null}
use azure_sdk_for_c.Span.Read.{az_span_is_equal}
use azure_sdk_for_c.Span.Write.{Target}

-- `az_keyvault_create_key_options`. The arrays end with a null span; `none` is a null pointer.
pub record CreateKeyOptions : Type 0 where
  pub enabled : Option Bool
  pub operations : Option (List Span)
  pub tags : Option (List Pair)

unfoldable pub az_keyvault_create_key_options_default : CreateKeyOptions
az_keyvault_create_key_options_default = record { enabled = none; operations = none; tags = none }

-- `az_span_is_equal(s, az_span_null())`
unfoldable pub is_null_span : Span → Run Builder Bool
unfolding az_span_is_equal
is_null_span s self = az_span_is_equal self.json.mem (at s) (at az_span_null) self

-- `az_json_builder_init(&builder, *http_body)`, and the span of the builder after the calls.
abbrev pub with_builder : Run Builder (Unit {0}) → Run Target (Unit {0})
with_builder run http_body = elim (run (record { json = http_body; need_comma = false })) [
  | fault ↦ fault
  | hang ↦ hang
  | fail e b ↦ fail e (record { mem = b.json.mem; self = http_body.self })
  | done u b ↦ done tt b.json
]

module _ (fp : Doubles) where
  -- The loop over the operations. There is nothing to read behind the end of the array.
  unfoldable pub append_operations : List Span → Run Builder (Unit {0})
  unfolding is_null_span az_json_builder_append_array_item
  append_operations [] = λ b. fault
  append_operations (s ∷ ss) = do
    last ← is_null_span s
    when last
        then return tt
        else (do az_json_builder_append_array_item fp (string s); append_operations ss)

  -- The loop over the tags.
  unfoldable pub append_tags : List Pair → Run Builder (Unit {0})
  unfolding is_null_span az_json_builder_append_object
  append_tags [] = λ b. fault
  append_tags (tag ∷ tags) = do
    last ← is_null_span tag.key
    when last
        then return tt
        else (do az_json_builder_append_object fp (at tag.key) (string tag.value); append_tags tags)

  unfoldable pub append_enabled : Option Bool → Run Builder (Unit {0})
  unfolding az_json_builder_append_object az_json_builder_append_object_close
  append_enabled none = return tt
  append_enabled (some enabled) = do
    az_json_builder_append_object fp (literal (ascii "attributes")) object
    az_json_builder_append_object fp (literal (ascii "enabled")) (boolean enabled)
    az_json_builder_append_object_close

  unfoldable pub append_key_ops : Option (List Span) → Run Builder (Unit {0})
  unfolding append_operations az_json_builder_append_array_close
  append_key_ops none = return tt
  append_key_ops (some operations) = do
    az_json_builder_append_object fp (literal (ascii "key_ops")) array
    append_operations operations
    az_json_builder_append_array_close

  unfoldable pub append_all_tags : Option (List Pair) → Run Builder (Unit {0})
  unfolding append_tags
  append_all_tags none = return tt
  append_all_tags (some tags) = do
    az_json_builder_append_object fp (literal (ascii "tags")) object
    append_tags tags
    az_json_builder_append_object_close

  unfoldable pub append_options : Option CreateKeyOptions → Run Builder (Unit {0})
  unfolding append_enabled append_key_ops append_all_tags
  append_options none = return tt
  append_options (some options) = do
    append_enabled options.enabled
    append_key_ops options.operations
    append_all_tags options.tags

  unfoldable pub create_build_json_body : Span → Option CreateKeyOptions → Run Target (Unit {0})
  unfolding append_options az_json_builder_append_token
  create_build_json_body json_web_key_type options = with_builder (do
    az_json_builder_append_token fp object
    az_json_builder_append_object fp (literal (ascii "kty")) (string json_web_key_type)
    append_options options
    az_json_builder_append_object_close)

module _ (places : ClientPlaces) where
  unfoldable pub az_keyvault_keys_client_options_default : ℕ → ClientOptions
  az_keyvault_keys_client_options_default http_transport_options = record {
    api_version = record {
      option_location = option_location_queryparameter;
      name = places.api_version;
      version = places.keyvault_api_version;
    };
    telemetry_os = az_span_null;
    http_transport_options = http_transport_options;
  }

  -- The pipeline keeps pointers to the options of the caller, which are taken to stay as they are.
  unfoldable pub az_keyvault_keys_client_init :
      Span
      → Run World (Unit {0})
      → Option (Span → ClientSecretCredential → ClientSecretCredential)
      → ClientOptions
      → Run World Client
  unfolding init_client client_pipeline
  az_keyvault_keys_client_init uri apply_credential set_scopes options =
      init_client places.client_url_buffer uri set_scopes places.vault_scope (
        client_pipeline options.api_version options.telemetry_os apply_credential
          options.http_transport_options)

module _ (platform : Platform) (places : ClientPlaces) where
  -- A run on the buffer of a body, whose span is returned.
  abbrev on_body : Run Target (Unit {0}) → Run World Span
  on_body run w =
      elim (run
        (record { mem = w.mem; self = az_span_init places.body_buffer 0 request_body_buf_size })) [
          | fault ↦ fault
          | hang ↦ hang
          | fail e t ↦ fail e (record w { mem = t.mem })
          | done u t ↦ done t.self (record w { mem = t.mem })
        ]

  unfoldable pub az_keyvault_keys_key_create :
      Doubles → Client → Span → Span → Option CreateKeyOptions → Run World (Unit {0})
  unfolding create_build_json_body az_http_pipeline_process
  az_keyvault_keys_key_create fp client key_name json_web_key_type options = do
    request_url_span ← copy_url platform places client
    created_body ← on_body (create_build_json_body fp json_web_key_type options)
    hrb ← create_request platform places places.http_method_post request_url_span created_body
    with_request hrb (do
      append_path (literal (ascii "keys"))
      append_path (at key_name)
      append_path (literal (ascii "create"))
      append_header platform places.content_type places.application_json
      az_http_pipeline_process platform client.pipeline)

  -- A key of no version is the latest.
  unfoldable pub az_keyvault_keys_key_get : Client → Span → Span → Run World (Unit {0})
  unfolding az_http_pipeline_process
  az_keyvault_keys_key_get client key_name key_version = do
    request_url_span ← copy_url platform places client
    hrb ← create_request platform places places.http_method_get request_url_span az_span_null
    with_request hrb (do
      append_path (literal (ascii "keys"))
      append_path (at key_name)
      when ltb 0 key_version.len then append_path (at key_version) else return tt
      az_http_pipeline_process platform client.pipeline)

  unfoldable pub az_keyvault_keys_key_delete : Client → Span → Run World (Unit {0})
  unfolding az_http_pipeline_process
  az_keyvault_keys_key_delete client key_name = do
    request_url_span ← copy_url platform places client
    hrb ← create_request platform places places.http_method_delete request_url_span az_span_null
    with_request hrb (do
      append_path (literal (ascii "keys"))
      append_path (at key_name)
      az_http_pipeline_process platform client.pipeline)
