-- ===== src/Credentials/Cached.antt =====
-- A token that has not expired is used again.
use azure_sdk_for_c.Base.{suc, true, false, ◌≡◌, refl}
use azure_sdk_for_c.Base.Int.{ℤ, pos, ltbℤ}
use azure_sdk_for_c.Credentials.Aad.{Places, az_token_expired}
use azure_sdk_for_c.Credentials.ClientSecret.{az_client_secret_credential_apply}
use azure_sdk_for_c.Double.{Doubles}
use azure_sdk_for_c.Http.Pipeline.{World, Platform, append_header, az_pal_clock_msec}
use azure_sdk_for_c.Result.{◌>>=◌}
use azure_sdk_for_c.Span.{Span, az_span_init}

-- The span of the token of the credential.
abbrev pub token_span : World → Span
token_span w =
    az_span_init w.credential.token.token w.credential.token.token_length
      w.credential.token.token_length

module _ (platform : Platform) where
  -- The token of the credential has not expired when the clock is read next.
  pub record IsFresh (w : World) : Type 0 where
    pub positive : ltbℤ (pos 0) w.credential.token.expires_at_msec ≡ true
    pub later : ltbℤ w.credential.token.expires_at_msec (platform.clock_msec w.ticks) ≡ false

  pub apply_fresh :
      (fp : Doubles) (to_int64 : fp.Double → ℤ) (places : Places) (w : World)
      → IsFresh w
      → az_client_secret_credential_apply platform fp to_int64 places w
        ≡ append_header platform platform.authorization
            (token_span w)
            (record w { ticks = suc w.ticks })
  unfolding az_client_secret_credential_apply az_token_expired az_pal_clock_msec
  apply_fresh fp to_int64 places w f = rw (f.positive, ◌>>=◌) (rw (f.later, ◌>>=◌) refl)
