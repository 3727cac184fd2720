-- ===== src/Clients.antt =====
-- The clients of the services: sdk/storage/blobs and sdk/keyvault/keyvault.
pub mod Parts
pub mod Blobs
pub mod KeyVault
pub mod Sends
use azure_sdk_for_c.Base.{ℕ, List, [], ◌∷◌}
use azure_sdk_for_c.Http.Pipeline.{
  World, Policy, ApiversionOptions, policy_null, policy_uniquerequestid, policy_retry,
  policy_logging, policy_bufferresponse, policy_distributedtracing, policy_apiversion,
  policy_telemetry, policy_credential, policy_transport,
}
use azure_sdk_for_c.Result.{Run}
use azure_sdk_for_c.Span.{Span}

-- The array of ten policies that the clients are initialized with.
unfoldable pub client_pipeline : ApiversionOptions → Span → Run World (Unit {0}) → ℕ → List Policy
client_pipeline api_version os apply_credential http_transport_options =
    policy_apiversion api_version
    ∷ policy_uniquerequestid
    ∷ policy_telemetry os
    ∷ policy_retry
    ∷ policy_credential apply_credential
    ∷ policy_logging
    ∷ policy_bufferresponse
    ∷ policy_distributedtracing
    ∷ policy_transport http_transport_options
    ∷ policy_null
    ∷ []
