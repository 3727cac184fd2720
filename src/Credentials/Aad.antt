-- ===== src/Credentials/Aad.antt =====
-- sdk/core/core/src/az_aad.c: how a token is asked for.
use azure_sdk_for_c.Base.{ℕ, ◌+◌, ◌-◌, ◌*◌, Bool, true, not, ltb, ◌==◌, if◌then◌else◌, [], ◌∷◌}
use azure_sdk_for_c.Base.Int.{ℤ, pos, ltbℤ, ◌-ℤ◌, ◌+ℤ◌, scale}
use azure_sdk_for_c.Base.Text.{ascii}
use azure_sdk_for_c.Credentials.{Token}
use azure_sdk_for_c.Double.{Doubles}
use azure_sdk_for_c.Http.Pipeline.{
  World, Platform, az_pal_clock_msec, az_http_pipeline_process, policy_retry, policy_logging,
  policy_transport, policy_null,
}
use azure_sdk_for_c.Http.Response.{
  Response, az_http_response_init, az_http_response_get_status_line, az_http_response_get_body,
}
use azure_sdk_for_c.Http.StatusCode.{ok, status_code}
use azure_sdk_for_c.Json.Get.{az_json_parse_by_pointer}
use azure_sdk_for_c.Json.Token.{az_json_token_get_number, az_json_token_get_string}
use azure_sdk_for_c.Memory.{Memory, filled, memmove}
use azure_sdk_for_c.Result.{
  Run, fault, hang, fail, done, ◌>>=◌, ◌>>◌, when◌then◌else◌, return, throw,
  http_authentication_failed,
}
use azure_sdk_for_c.Source.{Source, at, literal}
use azure_sdk_for_c.Span.{Span, az_span_init}
use azure_sdk_for_c.Span.Url.{az_span_copy_url_encode}
use azure_sdk_for_c.Span.Write.{Target, in_place, append_to, az_span_copy}

-- The encoded text is copied into the unused part of the buffer.
unfoldable pub az_span_append_with_url_encode : Source → Run Target (Unit {0})
unfolding az_span_copy_url_encode
az_span_append_with_url_encode src = in_place (λ dst. do
  let remaining = dst.capacity - dst.len
  out ← az_span_copy_url_encode (az_span_init (dst.ptr + dst.len) 0 remaining) src
  return (az_span_init dst.ptr (dst.len + out.len) dst.capacity))

unfoldable pub az_aad_build_url : Source → Run Target (Unit {0})
unfolding az_span_append_with_url_encode
az_aad_build_url tenant_id = do
  append_to (literal (ascii "https://login.microsoftonline.com/"))
  az_span_append_with_url_encode tenant_id
  append_to (literal (ascii "/oauth2/v2.0/token"))

-- The secret is left out if it is empty.
unfoldable pub append_secret : Span → Run Target (Unit {0})
unfolding az_span_append_with_url_encode
append_secret client_secret =
    when ltb 0 client_secret.len
    then (do
      append_to (literal (ascii "&client_secret="))
      az_span_append_with_url_encode (at client_secret))
    else return tt

unfoldable pub az_aad_build_body : Source → Source → Span → Run Target (Unit {0})
unfolding append_secret
az_aad_build_body client_id scopes client_secret = do
  append_to (literal (ascii "grant_type=client_credentials&client_id="))
  az_span_append_with_url_encode client_id
  append_to (literal (ascii "&scope="))
  az_span_append_with_url_encode scopes
  append_secret client_secret

abbrev pub response_buf_size : ℕ
response_buf_size = 3 * 1024

abbrev pub token_buf_size : ℕ
token_buf_size = 2 * 1024

-- Where the literals and the local arrays stand.
pub record Places : Type 0 where
  pub http_method_post : Span
  pub expires_in : Span
  pub access_token : Span
  pub url_buf : ℕ
  pub body_buf : ℕ
  pub header_buf : ℕ
  pub response_buf : ℕ
  pub new_token : ℕ

-- A run that reads the response.
abbrev pub on_response : {A : Type 0} → (Memory → Run Response A) → Run World A
on_response run w = elim (run w.mem w.response) [
  | fault ↦ fault
  | hang ↦ hang
  | fail e r ↦ fail e (record w { response = r })
  | done a r ↦ done a (record w { response = r })
]

-- A run on a zeroed local array, whose span is returned.
abbrev pub on_buffer : ℕ → ℕ → Run Target (Unit {0}) → Run World Span
on_buffer p n run w = elim (run (record { mem = filled w.mem p 0 n; self = az_span_init p 0 n })) [
  | fault ↦ fault
  | hang ↦ hang
  | fail e t ↦ fail e (record w { mem = t.mem })
  | done u t ↦ done t.self (record w { mem = t.mem })
]

module _ (platform : Platform) where
  -- The clock is read only if the time is above 0.
  unfoldable pub az_token_expired : Token → Run World Bool
  unfolding az_pal_clock_msec
  az_token_expired token =
      when not (ltbℤ (pos 0) token.expires_at_msec)
      then return true
      else (do now ← az_pal_clock_msec platform; return (ltbℤ token.expires_at_msec now))

  -- `az_http_response_init(&response, AZ_SPAN_FROM_BUFFER(response_buf))`
  abbrev pub prepare_response : ℕ → Run World (Unit {0})
  prepare_response response_buf w = done tt (record w {
    mem = filled w.mem response_buf 0 response_buf_size;
    response = az_http_response_init (az_span_init response_buf 0 response_buf_size);
  })

  unfoldable pub send_token_request : Run World (Unit {0})
  unfolding az_http_pipeline_process
  send_token_request w =
      az_http_pipeline_process platform
        (policy_retry
          ∷ policy_logging
          ∷ policy_transport w.credential.http_transport_options
          ∷ policy_null
          ∷ [])
        w

  -- `_az_token_set(out_token, &new_token)`: the token of the credential is overwritten.
  unfoldable pub az_token_set : Token → Run World (Unit {0})
  az_token_set new_token w =
      elim (memmove w.credential.token.token new_token.token token_buf_size w.mem) [
        | fault ↦ fault
        | hang ↦ hang
        | fail e m ↦ fail e (record w { mem = m })
        | done u m ↦ done tt (record w {
          mem = m;
          credential = record w.credential {
            token = record new_token { token = w.credential.token.token };
          };
        })
      ]

  module _ (fp : Doubles) (to_int64 : fp.Double → ℤ) (places : Places) where
    -- The text of a token, in a local array.
    unfoldable pub bearer_token : Span → Run World Span
    unfolding az_span_copy
    bearer_token access_token =
        on_buffer places.new_token token_buf_size (do
          in_place (λ s. az_span_copy s (literal (ascii "Bearer ")))
          append_to (at access_token))

    -- The token that the body of a response has. It ends three minutes before it expires.
    unfoldable pub read_token : Span → Run World Token
    unfolding az_json_parse_by_pointer az_pal_clock_msec bearer_token az_json_token_get_number
        az_json_token_get_string
    read_token body = do
      m ← (λ w. done w.mem w)
      expires_in ← az_json_parse_by_pointer fp m body places.expires_in
      expires_in_seconds ← az_json_token_get_number expires_in
      let expires_in_msec = scale 1000 (to_int64 expires_in_seconds -ℤ pos (3 * 60))
      json_token ← az_json_parse_by_pointer fp m body places.access_token
      access_token ← az_json_token_get_string json_token
      now ← az_pal_clock_msec platform
      new_token_span ← bearer_token access_token
      return (record {
        token = new_token_span.ptr;
        token_length = new_token_span.len;
        expires_at_msec = now +ℤ expires_in_msec;
      })

    -- The request of the state is the one for the token.
    unfoldable pub az_aad_request_token : Run World (Unit {0})
    unfolding az_http_response_get_status_line az_http_response_get_body read_token az_token_set
        send_token_request status_code
    az_aad_request_token = do
      prepare_response places.response_buf
      send_token_request
      status_line ← on_response az_http_response_get_status_line
      when status_line.status_code == status_code ok
          then return tt
          else throw http_authentication_failed
      body ← on_response az_http_response_get_body
      new_token ← read_token body
      az_token_set new_token
