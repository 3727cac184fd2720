-- ===== src/Credentials.antt =====
-- sdk/core/core/inc/az_credentials.h: a client secret credential and its token.
pub mod Keeps
pub mod Refresh
pub mod Cached
pub mod Texts
pub mod Aad
pub mod ClientSecret
use azure_sdk_for_c.Base.{ℕ}
use azure_sdk_for_c.Base.Int.{ℤ}
use azure_sdk_for_c.Span.{Span}

-- `_az_token`, with the address of its buffer.
pub record Token : Type 0 where
  pub token : ℕ
  pub token_length : ℕ
  pub expires_at_msec : ℤ

-- `az_client_secret_credential`, with the address of its `send_request`.
pub record ClientSecretCredential : Type 0 where
  pub http_transport_options : ℕ
  pub tenant_id : Span
  pub client_id : Span
  pub client_secret : Span
  pub scopes : Span
  pub token : Token
