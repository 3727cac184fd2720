-- ===== src/Credentials/Texts.antt =====
-- The URL and the body of a request for a token.
use azure_sdk_for_c.Base.{
  ℕ, ◌+◌, ◌-◌, ◌≤◌, ◌<◌, ltb, if◌then◌else◌, Bool-cases, Bytes, [], ◌++◌, length, ◌≡◌, refl, subst,
  arith, ◌⊎◌, inl, inr,
}
use azure_sdk_for_c.Base.Text.{ascii}
use azure_sdk_for_c.Credentials.Aad.{
  az_span_append_with_url_encode, append_secret, az_aad_build_url, az_aad_build_body,
}
use azure_sdk_for_c.Memory.{Memory}
use azure_sdk_for_c.Memory.Changes.{Changes-refl}
use azure_sdk_for_c.Result.{fail, done, ◌>>=◌, when◌then◌else◌, buffer_overflow}
use azure_sdk_for_c.Source.{Source, at, literal}
use azure_sdk_for_c.Span.{Span, az_span_init, az_span_is_valid}
use azure_sdk_for_c.Span.Url.{az_span_copy_url_encode}
use azure_sdk_for_c.Span.Url.Encode.{url_encoded, az_span_copy_url_encode_lem}
use azure_sdk_for_c.Span.Write.{Target, in_place}
use azure_sdk_for_c.Span.Write.Copy.{Stored, readable_part}
use azure_sdk_for_c.Span.Write.Emits.{
  IsOpen, Appends, Emits, Emits-Appends, Emits-literal, Emits-seq, Emits-return, Emits-from,
  Emits-Ready, Keeps,
}
use azure_sdk_for_c.Span.Write.Given.{Given, Keeps-Given}

-- The unused part of a buffer.
abbrev rest_of : Target → Span
rest_of t = az_span_init (t.self.ptr + t.self.len) 0 (t.self.capacity - t.self.len)

rest-Given :
    (src : Source) (cs : Bytes) (t : Target)
    → IsOpen t
    → Given src cs t
    → Given src cs (record { mem = t.mem; self = rest_of t })
rest-Given (at s) cs t b g = record {
  provides = g.provides;
  apart = omega (arith, b.within, g.apart);
}
rest-Given (literal xs) cs t b g = record { provides = g.provides; apart = tt }

module _ (src : Source) (cs : Bytes) where
  -- What the copy into the unused part of a buffer does.
  abbrev Copies : Target → Type 0
  Copies t =
      ((length (url_encoded cs) ≤ t.self.capacity - t.self.len)
        × (m' : Memory) × (az_span_copy_url_encode (rest_of t) src t.mem
            ≡ done
                (az_span_init (t.self.ptr + t.self.len) (length (url_encoded cs))
                  (t.self.capacity - t.self.len))
                m')
        × Stored t.mem (t.self.ptr + t.self.len) (url_encoded cs) m')
      ⊎ ((t.self.capacity - t.self.len < length (url_encoded cs))
          × (az_span_copy_url_encode (rest_of t) src t.mem ≡ fail buffer_overflow t.mem))

  copied : (t : Target) → IsOpen t → Given src cs t → Copies t
  unfolding az_span_is_valid
  copied t b g =
      az_span_copy_url_encode_lem t.mem (rest_of t) src cs (rest-Given src cs t b g) refl (
        readable_part t.mem t.self.ptr t.self.capacity t.self.len (t.self.capacity - t.self.len)
          b.buffer (omega (arith, b.within)))

  pub encode-Emits : Emits (Given src cs) (az_span_append_with_url_encode src) (url_encoded cs)
  unfolding az_span_append_with_url_encode in_place
  encode-Emits = record {
    fits = λ t b g h. elim (copied t b g) [
      | inl (room, m', e, s) ↦ (
        record {
          mem = m';
          self = az_span_init t.self.ptr (t.self.len + length (url_encoded cs)) t.self.capacity;
        },
        rw (e, az_span_append_with_url_encode, in_place, ◌>>=◌),
        record {
          same_ptr = refl;
          longer = refl;
          same_capacity = refl;
          holds = s.holds;
          changes = s.changes;
        },
      )
      | inr (full, e) ↦ absurd (omega (arith, full, h))
    ];
    overflows = λ t b g h. elim (copied t b g) [
      | inl (room, m', e, s) ↦ absurd (omega (arith, room, h, b.within))
      | inr (full, e) ↦
          (t, rw (e, az_span_append_with_url_encode, in_place, ◌>>=◌), Changes-refl t.mem _ _)
    ];
  }

module _ (tenant_id : Source) (tenant : Bytes) where
  abbrev pub url_text : Bytes
  url_text =
      ascii "https://login.microsoftonline.com/"
      ++ (url_encoded tenant ++ ascii "/oauth2/v2.0/token")

  url-Emits : Emits (Given tenant_id tenant) (az_aad_build_url tenant_id) url_text
  unfolding az_aad_build_url
  url-Emits = Emits-seq _ (Keeps-Given tenant_id tenant) (Emits-literal _ _) (
      Emits-seq _ (Keeps-Given tenant_id tenant) (encode-Emits tenant_id tenant)
        (Emits-literal _ _))

module _ (client_secret : Span) (secret : Bytes) where
  abbrev pub secret_text : Bytes
  secret_text = if ltb 0 (length secret) then ascii "&client_secret=" ++ url_encoded secret else []

  -- The text, with a number for the length of the secret.
  abbrev text_of : ℕ → Bytes
  text_of n = if ltb 0 n then ascii "&client_secret=" ++ url_encoded secret else []

  part-Emits :
      Emits
        (Given (at client_secret) secret)
        (append_secret client_secret)
        (text_of client_secret.len)
  unfolding append_secret
  part-Emits = elim (Bool-cases (ltb 0 client_secret.len)) [
    | inl given ↦ rw given (
        Emits-seq _ (Keeps-Given (at client_secret) secret) (Emits-literal _ _)
          (encode-Emits (at client_secret) secret))
    | inr empty ↦ rw empty (Emits-return _)
  ]

  secret-Emits : Emits (Given (at client_secret) secret) (append_secret client_secret) secret_text
  secret-Emits = Emits-from _ (append_secret client_secret) secret_text (λ t g.
      subst (λ n. Emits (Given (at client_secret) secret) (append_secret client_secret) (text_of n))
        g.provides.count part-Emits)

-- The sources of a body, outside of the buffer.
pub record BodyGiven (client_id scopes : Source) (client_secret : Span)
    (client scope secret : Bytes) (t : Target) : Type 0 where
  pub client_given : Given client_id client t
  pub scopes_given : Given scopes scope t
  pub secret_given : Given (at client_secret) secret t

module _ (client_id scopes : Source) (client_secret : Span) (client scope secret : Bytes) where
  abbrev IsReady : Target → Type 0
  IsReady = BodyGiven client_id scopes client_secret client scope secret

  Keeps-IsReady : Keeps IsReady
  Keeps-IsReady t t' bs x h r = record {
    client_given = Keeps-Given client_id client t t' bs x h r.client_given;
    scopes_given = Keeps-Given scopes scope t t' bs x h r.scopes_given;
    secret_given = Keeps-Given (at client_secret) secret t t' bs x h r.secret_given;
  }

  abbrev pub body_text : Bytes
  body_text =
      ascii "grant_type=client_credentials&client_id="
      ++ (url_encoded client
          ++ (ascii "&scope=" ++ (url_encoded scope ++ secret_text client_secret secret)))

  body-Emits : Emits IsReady (az_aad_build_body client_id scopes client_secret) body_text
  unfolding az_aad_build_body
  body-Emits =
      let keep = Keeps-IsReady in
      Emits-seq _ keep (Emits-literal _ _) (
        Emits-seq _ keep (Emits-Ready (λ t r. r.client_given) (encode-Emits client_id client)) (
          Emits-seq _ keep (Emits-literal _ _) (
            Emits-seq _ keep (Emits-Ready (λ t r. r.scopes_given) (encode-Emits scopes scope))
              (Emits-Ready (λ t r. r.secret_given) (secret-Emits client_secret secret)))))

-- The URL for a token of a tenant, appended to a buffer: the percent-encoded tenant stands between
-- the two literals. All of it is written, or the overflow is reported.
pub az_aad_build_url_lem :
    (tenant_id : Source) (tenant : Bytes) (t : Target)
    → IsOpen t
    → Given tenant_id tenant t
    → Appends (az_aad_build_url tenant_id) t (url_text tenant_id tenant)
az_aad_build_url_lem tenant_id tenant t b g = Emits-Appends _ t (url-Emits tenant_id tenant) b g

pub az_aad_build_body_lem :
    (client_id scopes : Source) (client_secret : Span) (client scope secret : Bytes) (t : Target)
    → IsOpen t
    → BodyGiven client_id scopes client_secret client scope secret t
    → Appends
        (az_aad_build_body client_id scopes client_secret)
        t
        (body_text client_id scopes client_secret client scope secret)
az_aad_build_body_lem client_id scopes client_secret client scope secret t b r =
    Emits-Appends _ t (body-Emits client_id scopes client_secret client scope secret) b r
