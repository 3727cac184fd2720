-- ===== src/Clients/Sends.antt =====
-- What the transport of a client gets.
use azure_sdk_for_c.Base.{
  ℕ, suc, ◌+◌, ◌*◌, ◌≤◌, List, [], ◌∷◌, ◌++◌, ap, none, ◌≡◌, refl, ◌∙◌, arith, subst,
}
use azure_sdk_for_c.Base.Int.{ℤ}
use azure_sdk_for_c.Clients.{client_pipeline}
use azure_sdk_for_c.Credentials.Aad.{Places}
use azure_sdk_for_c.Credentials.Cached.{IsFresh, token_span, apply_fresh}
use azure_sdk_for_c.Credentials.ClientSecret.{az_client_secret_credential_apply}
use azure_sdk_for_c.Double.{Doubles}
use azure_sdk_for_c.Http.Pipeline.{
  World, Platform, Policy, append_header, option_location_header, az_http_pipeline_process,
  az_http_pipeline_nextpolicy, process, append_version, az_http_pipeline_policy_apiversion,
  az_http_pipeline_policy_uniquerequestid, az_http_pipeline_policy_telemetry,
  az_http_pipeline_policy_retry, az_http_pipeline_policy_credential,
}
use azure_sdk_for_c.Http.Pipeline.Steps.{
  placed, headers_of, Spoils-trans, HasHeaders, append_header_step, logging_silent,
}
use azure_sdk_for_c.Http.Request.{Pair, IsLayout}
use azure_sdk_for_c.Http.Response.{az_http_response_init}
use azure_sdk_for_c.Http.Retry.{AllHeaders}
use azure_sdk_for_c.Memory.{Memory}
use azure_sdk_for_c.Result.{done, ◌>>=◌}
use azure_sdk_for_c.Span.{Span}
use azure_sdk_for_c.Span.Write.Emits.{Spoils}

append_four :
    (ps : List Pair) (a b c d : Pair)
    → (((ps ++ (a ∷ [])) ++ (b ∷ [])) ++ (c ∷ [])) ++ (d ∷ []) ≡ ps ++ (a ∷ b ∷ c ∷ d ∷ [])
append_four [] a b c d = refl
append_four (p ∷ ps) a b c d = ap (λ xs. p ∷ xs) (append_four ps a b c d)

-- What the policies change in front of the transport.
abbrev pub prepared : World → Memory → Span → World
prepared w m headers = record (placed w m headers) {
  response = az_http_response_init w.response.http_response;
  ticks = suc w.ticks;
}

-- The response is written from the start.
abbrev reset : World → World
reset w = record w { response = az_http_response_init w.response.http_response }

module _ (platform : Platform) (fp : Doubles) (to_int64 : fp.Double → ℤ) (places : Places) where
  -- The pipeline of a client whose version is a header.
  abbrev pub pipeline_of : Span → Span → Span → ℕ → List Policy
  pipeline_of name version os transport =
      client_pipeline
        (record { option_location = option_location_header; name = name; version = version }) os
        (az_client_secret_credential_apply platform fp to_int64 places) transport

  -- The headers of the policies.
  abbrev pub client_headers : Span → Span → Span → World → List Pair
  client_headers name version os w =
      record { key = name; value = version }
      ∷ record { key = platform.ms_client_requestid; value = platform.uniqueid }
      ∷ record { key = platform.user_agent; value = os }
      ∷ record { key = platform.authorization; value = token_span w }
      ∷ []

  -- The policies one after the other.
  reaches :
      (name version os : Span) (transport : ℕ) (w w1 w2 w3 w4 : World)
      → append_header platform name version w ≡ done tt w1
      → append_header platform platform.ms_client_requestid platform.uniqueid w1 ≡ done tt w2
      → append_header platform platform.user_agent os w2 ≡ done tt w3
      → IsFresh platform (reset w3)
      → append_header platform platform.authorization
          (token_span w3)
          (record (reset w3) { ticks = suc w3.ticks })
        ≡ done tt w4
      → w4.log.listener ≡ none
      → az_http_pipeline_process platform (pipeline_of name version os transport) w
        ≡ platform.send_request transport w4
  unfolding az_http_pipeline_process az_http_pipeline_nextpolicy client_pipeline process
      append_version az_http_pipeline_policy_apiversion az_http_pipeline_policy_uniquerequestid
      az_http_pipeline_policy_telemetry az_http_pipeline_policy_retry
      az_http_pipeline_policy_credential
  reaches name version os transport w w1 w2 w3 w4 e1 e2 e3 fresh e4 silent =
      rw (e1, ◌>>=◌)
        (rw (e2, ◌>>=◌)
          (rw (e3, ◌>>=◌)
            (rw (apply_fresh platform fp to_int64 places (reset w3) fresh ∙ e4, ◌>>=◌)
              (logging_silent platform (platform.send_request transport) w4 silent))))

  -- A request that a client with its version in a header sends, with a token that has not expired,
  -- without a listener of the log, with headers of the policies that are valid and not empty, and with
  -- room for four more headers, reaches the transport with the headers that the policies add, behind
  -- its own and in the order of the policies. The response is reset, nothing else of the request is
  -- changed, and no memory outside of the unused part of the buffer of the headers.
  pub client_pipeline_sends :
      (laws : IsLayout platform.layout) (name version os : Span) (transport : ℕ) (w : World)
      (ps : List Pair)
      → HasHeaders platform laws w ps
      → AllHeaders (client_headers name version os w)
      → w.request.headers.len + 4 * platform.layout.size ≤ w.request.headers.capacity
      → IsFresh platform w
      → w.log.listener ≡ none
      → (m : Memory) × (headers : Span) × (az_http_pipeline_process platform
            (pipeline_of name version os transport)
            w
          ≡ platform.send_request transport (prepared w m headers))
        × HasHeaders platform laws (prepared w m headers) (ps ++ client_headers name version os w)
        × Spoils (headers_of w) (headers_of (prepared w m headers))
  client_pipeline_sends laws name version os transport w ps h (is1, (is2, (is3, (is4, end)))) room
        fresh silent =
      let (m1, s1, e1, h1, l1, c1, p1, d1) =
        append_header_step platform laws w ps _ h is1 (omega (arith, room)) in
      let (m2, s2, e2, h2, l2, c2, p2, d2) =
        append_header_step platform laws (placed w m1 s1) _ _ h1 is2
          (omega (arith, room, l1, c1)) in
      let (m3, s3, e3, h3, l3, c3, p3, d3) =
        append_header_step platform laws (placed w m2 s2) _ _ h2 is3
          (omega (arith, room, l1, c1, l2, c2)) in
      let (m4, s4, e4, h4, l4, c4, p4, d4) =
        append_header_step platform laws (prepared w m3 s3) _ _ h3 is4
          (omega (arith, room, l1, c1, l2, c2, l3, c3)) in
      (
        m4,
        s4,
        reaches name version os transport w (placed w m1 s1) (placed w m2 s2) (placed w m3 s3)
            (prepared w m4 s4) e1 e2 e3 (record { positive = fresh.positive; later = fresh.later })
            e4 silent,
        subst (HasHeaders platform laws (prepared w m4 s4)) (append_four ps _ _ _ _) h4,
        Spoils-trans (headers_of w) (headers_of (placed w m1 s1)) (headers_of (prepared w m4 s4))
            (omega (arith, l1)) h1.ready.within c1 p1 d1
            (Spoils-trans (headers_of (placed w m1 s1)) (headers_of (placed w m2 s2))
              (headers_of (prepared w m4 s4)) (omega (arith, l2)) h2.ready.within c2 p2 d2
              (Spoils-trans (headers_of (placed w m2 s2)) (headers_of (placed w m3 s3))
                (headers_of (prepared w m4 s4)) (omega (arith, l3)) h3.ready.within c3 p3 d3 d4)),
      )
