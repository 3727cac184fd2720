-- ===== src/Clients/Blobs.antt =====
-- sdk/storage/blobs/src/az_storage_blobs_blob_client.c: the client of the Blobs service.
use azure_sdk_for_c.Base.{ℕ, Option}
use azure_sdk_for_c.Base.Int.{pos}
use azure_sdk_for_c.Clients.{client_pipeline}
use azure_sdk_for_c.Clients.Parts.{
  Client, ClientOptions, ClientPlaces, init_client, with_request, copy_url, create_request,
}
use azure_sdk_for_c.Credentials.{ClientSecretCredential}
use azure_sdk_for_c.Credentials.Aad.{on_buffer}
use azure_sdk_for_c.Http.Pipeline.{
  World, Platform, append_header, az_http_pipeline_process, option_location_header,
}
use azure_sdk_for_c.Result.{Run, ◌>>=◌, ◌>>◌}
use azure_sdk_for_c.Span.{Span}
use azure_sdk_for_c.Span.Decimal.{az_span_append_int64}

-- `_az_INT64_AS_STR_BUF_SIZE`
abbrev pub int64_as_str_buf_size : ℕ
int64_as_str_buf_size = 20

module _ (places : ClientPlaces) where
  unfoldable pub az_storage_blobs_blob_client_options_default : ℕ → ClientOptions
  az_storage_blobs_blob_client_options_default http_transport_options = record {
    api_version = record {
      option_location = option_location_header;
      name = places.x_ms_version;
      version = places.storage_api_version;
    };
    telemetry_os = places.unknown_os;
    http_transport_options = http_transport_options;
  }

  unfoldable pub az_storage_blobs_blob_client_init :
      Span
      → Run World (Unit {0})
      → Option (Span → ClientSecretCredential → ClientSecretCredential)
      → ClientOptions
      → Run World Client
  unfolding init_client client_pipeline
  az_storage_blobs_blob_client_init uri apply_credential set_scopes options =
      init_client places.client_url_buffer uri set_scopes places.storage_scope (
        client_pipeline options.api_version options.telemetry_os apply_credential
          options.http_transport_options)

module _ (platform : Platform) (places : ClientPlaces) where
  -- The options of an upload are not used. The call fails in the same order as the code's.
  unfoldable pub az_storage_blobs_blob_upload : Client → Span → Run World (Unit {0})
  unfolding az_span_append_int64 az_http_pipeline_process
  az_storage_blobs_blob_upload client content = do
    request_url_span ← copy_url platform places client
    hrb ← create_request platform places places.http_method_put request_url_span content
    with_request hrb (do
      append_header platform places.blob_type places.block_blob
      content_length ←
          on_buffer places.content_length int64_as_str_buf_size
            (az_span_append_int64 (pos content.len))
      append_header platform places.content_length_name content_length
      append_header platform places.content_type places.text_plain
      az_http_pipeline_process platform client.pipeline)
