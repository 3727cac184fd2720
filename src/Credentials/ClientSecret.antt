-- ===== src/Credentials/ClientSecret.antt =====
-- sdk/core/core/src/az_credentials.c: a credential asks for a token and puts it into a header.
use azure_sdk_for_c.Base.{ℕ, ◌*◌}
use azure_sdk_for_c.Base.Int.{ℤ, pos}
use azure_sdk_for_c.Credentials.{ClientSecretCredential}
use azure_sdk_for_c.Credentials.Aad.{
  Places, on_buffer, az_token_expired, az_aad_build_url, az_aad_build_body, az_aad_request_token,
}
use azure_sdk_for_c.Double.{Doubles}
use azure_sdk_for_c.Http.Pipeline.{World, Platform, append_header}
use azure_sdk_for_c.Http.Request.{Request, az_http_request_init}
use azure_sdk_for_c.Memory.{Memory}
use azure_sdk_for_c.Result.{Run, fault, hang, fail, done, ◌>>=◌, ◌>>◌, when◌then◌else◌, return}
use azure_sdk_for_c.Source.{at}
use azure_sdk_for_c.Span.{Span, az_span_init, az_span_null}

abbrev pub request_url_buf_size : ℕ
request_url_buf_size = 2 * 1024

abbrev pub request_body_buf_size : ℕ
request_body_buf_size = 1024

abbrev pub request_header_count : ℕ
request_header_count = 10

-- The token has the address of its buffer, which is part of the credential.
unfoldable pub az_client_secret_credential_init :
    ℕ → Span → Span → Span → ℕ → ClientSecretCredential
az_client_secret_credential_init token_buf tenant_id client_id client_secret transport = record {
  http_transport_options = transport;
  tenant_id = tenant_id;
  client_id = client_id;
  client_secret = client_secret;
  scopes = az_span_null;
  token = record { token = token_buf; token_length = 0; expires_at_msec = pos 0 };
}

unfoldable pub az_client_secret_credential_set_scopes :
    Span → ClientSecretCredential → ClientSecretCredential
az_client_secret_credential_set_scopes scopes self = record self { scopes = scopes }

-- A run that has its own request and response.
abbrev pub with_own : Request → Run World (Unit {0}) → Run World (Unit {0})
with_own request run w = elim (run (record w { request = request })) [
  | fault ↦ fault
  | hang ↦ hang
  | fail e w' ↦ fail e (record w' { request = w.request; response = w.response })
  | done u w' ↦ done tt (record w' { request = w.request; response = w.response })
]

-- A run on the memory.
abbrev pub on_memory : {A : Type 0} → Run Memory A → Run World A
on_memory run w = elim (run w.mem) [
  | fault ↦ fault
  | hang ↦ hang
  | fail e m ↦ fail e (record w { mem = m })
  | done a m ↦ done a (record w { mem = m })
]

module _ (platform : Platform) (fp : Doubles) (to_int64 : fp.Double → ℤ) (places : Places) where
  unfoldable pub az_client_secret_credential_request_token : Run World (Unit {0})
  unfolding az_aad_build_url az_aad_build_body az_http_request_init az_aad_request_token
  az_client_secret_credential_request_token = do
    self ← (λ w. done w.credential w)
    url ← on_buffer places.url_buf request_url_buf_size (az_aad_build_url (at self.tenant_id))
    body ←
        on_buffer places.body_buf request_body_buf_size
          (az_aad_build_body (at self.client_id) (at self.scopes) self.client_secret)
    let headers = az_span_init places.header_buf 0 (request_header_count * platform.layout.size)
    request ←
        on_memory (az_http_request_init platform.layout places.http_method_post url headers body)
    with_own request (az_aad_request_token platform fp to_int64 places)

  -- `_az_client_secret_credential_apply`
  unfoldable pub az_client_secret_credential_apply : Run World (Unit {0})
  unfolding az_token_expired az_client_secret_credential_request_token
  az_client_secret_credential_apply = do
    self ← (λ w. done w.credential w)
    expired ← az_token_expired platform self.token
    when expired then az_client_secret_credential_request_token else return tt
    (λ w.
        append_header platform platform.authorization
          (az_span_init w.credential.token.token w.credential.token.token_length
            w.credential.token.token_length)
          w)
