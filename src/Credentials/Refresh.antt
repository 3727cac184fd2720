-- ===== src/Credentials/Refresh.antt =====
-- When the token of a credential is replaced.
use azure_sdk_for_c.Base.{ℕ, ◌==◌, Bool-cases, ==_iff, ◌≡◌, refl, ap, inl, inr}
use azure_sdk_for_c.Base.Int.{ℤ}
use azure_sdk_for_c.Credentials.{Token, ClientSecretCredential}
use azure_sdk_for_c.Credentials.Aad.{
  Places, on_response, prepare_response, send_token_request, az_token_set, token_buf_size,
  response_buf_size, read_token, az_aad_request_token,
}
use azure_sdk_for_c.Double.{Doubles}
use azure_sdk_for_c.Http.Pipeline.{World, Platform}
use azure_sdk_for_c.Http.Response.{
  StatusLine, az_http_response_get_status_line, az_http_response_get_body, az_http_response_init,
}
use azure_sdk_for_c.Memory.{Memory, memmove, filled}
use azure_sdk_for_c.Span.{az_span_init}
use azure_sdk_for_c.Result.Ensures.{Ends, Ends-bind, Ends-Leaves, Ends-seen, Ends-and}
use azure_sdk_for_c.Result.{
  Run, Outcome, fault, hang, fail, done, ◌>>=◌, ◌>>◌, when◌then◌else◌, return, throw,
  http_authentication_failed,
}
use azure_sdk_for_c.Credentials.Keeps.{Has, Keeps, on_response-Keeps, send-Keeps}
use azure_sdk_for_c.Credentials.Keeps.Answer.{read_token-Keeps}
use azure_sdk_for_c.Http.StatusCode.{ok, status_code}

-- What a request for a token does to the credential `c`: after an error it is as before; after
-- `AZ_OK` it has a new length and a new time in its token, and nothing else of it has changed.
abbrev pub Renewed : ClientSecretCredential → World → Type 0
Renewed c w =
    (n : ℕ) × (time : ℤ) × (w.credential ≡ record c {
      token = record { token = c.token.token; token_length = n; expires_at_msec = time };
    })

module _ (platform : Platform) (c : ClientSecretCredential) where
  set-Renewed :
      (token : Token) (w : World)
      → w.credential ≡ c
      → Ends (λ v. v.credential ≡ c) (λ u v. Renewed c v) (az_token_set platform token w)
  unfolding az_token_set
  set-Renewed token w h = go (memmove w.credential.token.token token.token token_buf_size w.mem)
    where
      go :
          (o : Outcome Memory (Unit {0}))
          → Ends
              (λ v. v.credential ≡ c)
              (λ u v. Renewed c v)
              (elim o as (λ x. Outcome World (Unit {0})) [
                | fault ↦ fault
                | hang ↦ hang
                | fail e m ↦ fail e (record w { mem = m })
                | done u m ↦ done tt (record w {
                  mem = m;
                  credential = record w.credential {
                    token = record token { token = w.credential.token.token };
                  };
                })
              ])
      go fault = tt
      go hang = tt
      go (fail e m) = h
      go (done u m) = (
        token.token_length,
        token.expires_at_msec,
        ap
            (λ (d : ClientSecretCredential). record d {
              token = record token { token = d.token.token };
            })
            h,
      )

-- From the state `w`, the request was sent, and a status line with the code 200 was read from the
-- response that it left.
abbrev pub Accepted : Platform → Places → World → Type 0
Accepted platform places w =
    (v v' : World) × (line : StatusLine) × ((do
      prepare_response platform places.response_buf
      send_token_request platform)
        w
      ≡ done tt v)
    × (on_response az_http_response_get_status_line v ≡ done line v')
    × (line.status_code ≡ status_code ok)

module _ (platform : Platform) (fp : Doubles) (to_int64 : fp.Double → ℤ) (places : Places) where
  -- The answer is read, and the token is set.
  abbrev answer : Run World (Unit {0})
  answer = do
    body ← on_response az_http_response_get_body
    new_token ← read_token platform fp to_int64 places body
    az_token_set platform new_token

  answer_lem :
      (c : ClientSecretCredential) (w : World)
      → Has c w
      → Ends (Has c) (λ u w'. Renewed c w') (answer w)
  answer_lem c w h =
      let F = Has c in
      let D : Unit {0} → World → Type 0 = λ u w'. Renewed c w' in
      Ends-bind F D (on_response az_http_response_get_body) _ w
        (Ends-Leaves F _ ((on_response-Keeps c az_http_response_get_body).keeps w h))
        (λ body w1 h1.
          Ends-bind F D (read_token platform fp to_int64 places body) (az_token_set platform) w1
            (Ends-Leaves F _ ((read_token-Keeps c platform fp to_int64 places body).keeps w1 h1))
            (λ token w2 h2. set-Renewed platform c token w2 h2))

  checked_lem :
      (c : ClientSecretCredential) (line : StatusLine) (w : World)
      → Has c w
      → (start v : World)
      → (do prepare_response platform places.response_buf; send_token_request platform) start
        ≡ done tt v
      → on_response az_http_response_get_status_line v ≡ done line w
      → Ends
          (Has c)
          (λ u w'. Renewed c w' × Accepted platform places start)
          ((do
            when line.status_code == status_code ok
                then return tt
                else throw http_authentication_failed
            answer)
            w)
  checked_lem c line w h start v sent seen =
      elim (Bool-cases (line.status_code == status_code ok)) [
        | inl same ↦ rw same (
            Ends-and (Has c) (λ u w'. Renewed c w') (Accepted platform places start) (answer w)
              (answer_lem c w h) (v, w, line, sent, seen, (==_iff _ _).0 same))
        | inr other ↦ rw other h
      ]

  pub az_aad_request_token_lem :
      (w : World)
      → ((c : ClientSecretCredential) (options : ℕ) → Keeps c (platform.send_request options))
      → Ends
          (λ w'. w'.credential ≡ w.credential)
          (λ u w'. Renewed w.credential w' × Accepted platform places w)
          (az_aad_request_token platform fp to_int64 places w)
  unfolding az_aad_request_token
  az_aad_request_token_lem w transports =
      let c = w.credential in
      let F = Has c in
      let D : Unit {0} → World → Type 0 = λ u w'. Renewed c w' × Accepted platform places w in
      let ready : World = record w {
        mem = filled w.mem places.response_buf 0 response_buf_size;
        response = az_http_response_init (az_span_init places.response_buf 0 response_buf_size);
      } in
      Ends-bind F D (send_token_request platform) _ ready
        (Ends-seen F _ ((send-Keeps c platform (λ options. transports c options)).keeps ready refl))
        (λ u w1 (h1, sent).
          Ends-bind F D (on_response az_http_response_get_status_line) _ w1
            (Ends-seen F _ ((on_response-Keeps c az_http_response_get_status_line).keeps w1 h1))
            (λ line w2 (h2, seen). checked_lem c line w2 h2 w w1 sent seen))
