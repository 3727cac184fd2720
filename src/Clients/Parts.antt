-- ===== src/Clients/Parts.antt =====
-- What the operations of both clients share: their buffers, and a request of their own.
use azure_sdk_for_c.Base.{ℕ, ◌*◌, List, Option, none, some}
use azure_sdk_for_c.Credentials.{ClientSecretCredential}
use azure_sdk_for_c.Credentials.ClientSecret.{on_memory, request_url_buf_size, request_header_count}
use azure_sdk_for_c.Http.Pipeline.{World, Platform, Policy, ApiversionOptions, on_store}
use azure_sdk_for_c.Http.Request.{Request, az_http_request_init, az_http_request_append_path}
use azure_sdk_for_c.Memory.{filled}
use azure_sdk_for_c.Result.{Run, fault, hang, fail, done, ◌>>=◌, ◌>>◌, return}
use azure_sdk_for_c.Source.{Source, at}
use azure_sdk_for_c.Span.{Span, az_span_init}
use azure_sdk_for_c.Span.Write.{az_span_copy}

-- `az_keyvault_keys_client` and `az_storage_blobs_blob_client`
pub record Client : Type 0 where
  pub uri : Span
  pub pipeline : List Policy

-- The options that both clients have; the telemetry options are the name of the operating system,
-- and the transport is told by its address.
pub record ClientOptions : Type 0 where
  pub api_version : ApiversionOptions
  pub telemetry_os : Span
  pub http_transport_options : ℕ

-- Where the literals and the local arrays of the clients stand.
pub record ClientPlaces : Type 0 where
  pub http_method_get : Span
  pub http_method_put : Span
  pub http_method_post : Span
  pub http_method_delete : Span
  pub content_type : Span
  pub application_json : Span
  pub text_plain : Span
  pub content_length_name : Span
  pub blob_type : Span
  pub block_blob : Span
  pub x_ms_version : Span
  pub storage_api_version : Span
  pub unknown_os : Span
  pub api_version : Span
  pub keyvault_api_version : Span
  pub storage_scope : Span
  pub vault_scope : Span
  pub client_url_buffer : ℕ
  pub url_buffer : ℕ
  pub headers_buffer : ℕ
  pub body_buffer : ℕ
  pub content_length : ℕ

-- `_az_credential_set_scopes`: a credential may have no scopes.
unfoldable pub az_credential_set_scopes :
    Option (Span → ClientSecretCredential → ClientSecretCredential) → Span → Run World (Unit {0})
az_credential_set_scopes none scopes w = done tt w
az_credential_set_scopes (some set_scopes) scopes w =
    done tt (record w { credential = set_scopes scopes w.credential })

-- A run on the request of an operation; the response is the caller's.
abbrev pub with_request : Request → Run World (Unit {0}) → Run World (Unit {0})
with_request request run w = elim (run (record w { request = request })) [
  | fault ↦ fault
  | hang ↦ hang
  | fail e w' ↦ fail e (record w' { request = w.request })
  | done u w' ↦ done tt (record w' { request = w.request })
]

abbrev pub append_path : Source → Run World (Unit {0})
append_path path = on_store (az_http_request_append_path path)

module _ (platform : Platform) (places : ClientPlaces) where
  -- `AZ_SPAN_FROM_BUFFER(url_buffer)` with a copy of the URL of the client
  abbrev pub copy_url : Client → Run World Span
  copy_url client =
      on_memory
        (az_span_copy (az_span_init places.url_buffer 0 request_url_buf_size) (at client.uri))

  abbrev pub headers_span : Span
  headers_span = az_span_init places.headers_buffer 0 (request_header_count * platform.layout.size)

  abbrev pub create_request : Span → Span → Span → Run World Request
  create_request method url body =
      on_memory (az_http_request_init platform.layout method url headers_span body)

-- The buffer of the client is set to zeros, the URL is copied into it, and the scopes of the service are set.
unfoldable pub init_client :
    ℕ
    → Span
    → Option (Span → ClientSecretCredential → ClientSecretCredential)
    → Span
    → List Policy
    → Run World Client
unfolding az_credential_set_scopes
init_client client_url_buffer uri set_scopes scopes pipeline = do
  copy ← on_memory (λ m.
      az_span_copy (az_span_init client_url_buffer 0 request_url_buf_size) (at uri)
        (filled m client_url_buffer 0 request_url_buf_size))
  az_credential_set_scopes set_scopes scopes
  return (record { uri = copy; pipeline = pipeline })
