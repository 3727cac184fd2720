-- ===== src/Tests/Pipelines.antt =====
-- Pipelines, credentials and the log at concrete inputs.
use azure_sdk_for_c.Base.{
  ℕ, ◌≤◌, List, [], ◌∷◌, ◌++◌, none, some, length, ◌≡◌, refl, arith, ◌⊎◌, inl,
}
use azure_sdk_for_c.Base.Int.{pos}
use azure_sdk_for_c.Clients.Sends.{prepared, pipeline_of, client_headers, client_pipeline_sends}
use azure_sdk_for_c.Credentials.Aad.{Places, az_aad_build_body, az_aad_request_token}
use azure_sdk_for_c.Credentials.Refresh.{Renewed, Accepted, az_aad_request_token_lem}
use azure_sdk_for_c.Result.Ensures.{Ends}
use azure_sdk_for_c.Credentials.Cached.{IsFresh}
use azure_sdk_for_c.Credentials.Texts.{body_text, az_aad_build_body_lem}
use azure_sdk_for_c.Http.Pipeline.Delivers.{Sent, az_http_pipeline_process-Sent}
use azure_sdk_for_c.Http.Pipeline.Steps.{HasHeaders, headers_of}
use azure_sdk_for_c.Http.Pipeline.{
  World, Platform, az_http_pipeline_process, az_http_pipeline_nextpolicy, process,
  policy_bufferresponse, policy_transport,
}
use azure_sdk_for_c.Http.Request.Headers.{IsHeaders}
use azure_sdk_for_c.Http.Request.{Pair, Store}
use azure_sdk_for_c.Http.Response.{kind_status_line}
use azure_sdk_for_c.Http.Retry.{
  IsHeader, AllHeaders, append_all, remove-mark, az_http_request_mark_retry_headers_start,
  az_http_request_remove_retry_headers,
}
use azure_sdk_for_c.Log.Filter.{IsWanted, az_log_write_lem}
use azure_sdk_for_c.Log.RequestMessage.{az_log_value_msg, log_value_max_length}
use azure_sdk_for_c.Log.Values.{shortened, az_log_value_msg_lem}
use azure_sdk_for_c.Log.{az_log_set_classifications, az_log_set_listener, az_log_write}
use azure_sdk_for_c.Memory.{Memory, readable, filled, written}
use azure_sdk_for_c.Result.{done}
use azure_sdk_for_c.Source.{at, literal}
use azure_sdk_for_c.Span.Write.Emits.{Spoils, Appends, IsOpen}
use azure_sdk_for_c.Span.Write.Given.{Given}
use azure_sdk_for_c.Span.Write.{Target}
use azure_sdk_for_c.Span.{Span, az_span_init, az_span_null, az_span_is_valid}
use azure_sdk_for_c.Tests.Requests.{
  flat, flat-IsLayout, store, url, url_text, url-Views, empty-IsHeaders, mem, seg,
}
use azure_sdk_for_c.Tests.{exact}

abbrev text_at : ℕ → Span
text_at a = az_span_init a 6 6

-- A clock that stands still, and transports that send nothing.
abbrev platform : Platform
platform = record {
  layout = flat;
  clock_msec = λ n. pos 5;
  send_request = λ options w. done tt w;
  log_msg_buf = 5000;
  unset = record { key = az_span_null; value = az_span_null };
  ms_client_requestid = text_at 1000;
  uniqueid = text_at 1010;
  user_agent = text_at 1020;
  authorization = text_at 1030;
}

abbrev places : Places
places = record {
  http_method_post = text_at 1040;
  expires_in = text_at 1050;
  access_token = text_at 1060;
  url_buf = 6000;
  body_buf = 9000;
  header_buf = 11000;
  response_buf = 12000;
  new_token = 16000;
}

-- A token that expires after the time of the clock.
abbrev world : World
world = record {
  mem = store.mem;
  request = store.request;
  response = record {
    http_response = az_span_init 700 0 90;
    remaining = az_span_null;
    next_kind = kind_status_line;
  };
  log = record { classifications = none; listener = none; calls = [] };
  ticks = 0;
  credential = record {
    http_transport_options = 1;
    tenant_id = text_at 1070;
    client_id = text_at 1080;
    client_secret = text_at 1090;
    scopes = text_at 1100;
    token = record { token = 20000; token_length = 7; expires_at_msec = pos 9 };
  };
}

world-IsFresh : IsFresh platform world
world-IsFresh = record { positive = refl; later = refl }

text-IsHeader : IsHeader (record { key = text_at 1000; value = text_at 1010 })
unfolding az_span_is_valid
text-IsHeader = record { key_valid = refl; value_valid = refl; filled = omega arith }

world-AllHeaders :
    AllHeaders (
      client_headers platform exact (λ d. pos 0) places (text_at 1) (text_at 10) az_span_null world)
unfolding az_span_is_valid
world-AllHeaders = (
  record { key_valid = refl; value_valid = refl; filled = omega arith },
  (
    text-IsHeader,
    (
      record { key_valid = refl; value_valid = refl; filled = omega arith },
      (record { key_valid = refl; value_valid = refl; filled = omega arith }, tt),
    ),
  ),
)

sends_example :
    (m : Memory) × (headers : Span) × (az_http_pipeline_process platform
        (pipeline_of platform exact (λ d. pos 0) places (text_at 1) (text_at 10) az_span_null 3)
        world
      ≡ done tt (prepared world m headers))
    × HasHeaders platform flat-IsLayout (prepared world m headers) (
        []
        ++ client_headers platform exact
            (λ d. pos 0)
            places
            (text_at 1)
            (text_at 10)
            az_span_null
            world)
    × Spoils (headers_of world) (headers_of (prepared world m headers))
sends_example =
    client_pipeline_sends platform exact (λ d. pos 0) places flat-IsLayout (text_at 1) (text_at 10)
      az_span_null 3 world [] empty-IsHeaders world-AllHeaders (omega arith) world-IsFresh refl

process_runs :
    az_http_pipeline_process platform (policy_bufferresponse ∷ policy_transport 3 ∷ []) world
    ≡ done tt world
unfolding az_http_pipeline_process az_http_pipeline_nextpolicy process
process_runs = refl

process-Sent_example : Sent platform (policy_bufferresponse ∷ policy_transport 3 ∷ []) world
process-Sent_example =
    az_http_pipeline_process-Sent platform (policy_bufferresponse ∷ policy_transport 3 ∷ []) world
      world process_runs

abbrev retry_header : List Pair
retry_header = record { key = text_at 1000; value = text_at 1010 } ∷ []

remove-mark_example :
    (self' : Store) × (append_all flat retry_header
        (record store { request = az_http_request_mark_retry_headers_start store.request })
      ≡ done tt self')
    × IsHeaders flat flat-IsLayout self' ([] ++ retry_header)
    × IsHeaders flat flat-IsLayout
        (record self' { request = az_http_request_remove_retry_headers self'.request })
        []
remove-mark_example =
    remove-mark flat flat-IsLayout [] retry_header store empty-IsHeaders (text-IsHeader, tt)
      (omega arith)

log_write_example :
    (IsWanted 8 (some (7 ∷ 8 ∷ []))
      × (az_log_write mem 8 url (
            az_log_set_listener
              (some 30)
              (az_log_set_classifications (some (7 ∷ 8 ∷ [])) world.log))
          ≡ done tt (
              az_log_set_listener (some 30) (
                az_log_set_classifications
                  (some (7 ∷ 8 ∷ []))
                  (record world.log { calls = [] ++ ((30, 8, url_text) ∷ []) })))))
    ⊎ ((¬ IsWanted 8 (some (7 ∷ 8 ∷ [])))
        × (az_log_write mem 8 url (
              az_log_set_listener
                (some 30)
                (az_log_set_classifications (some (7 ∷ 8 ∷ [])) world.log))
            ≡ done tt (
                az_log_set_listener
                  (some 30)
                  (az_log_set_classifications (some (7 ∷ 8 ∷ [])) world.log))))
log_write_example = az_log_write_lem mem 8 url url_text world.log 30 (some (7 ∷ 8 ∷ [])) url-Views

-- An empty buffer, at a distance from the text `url_text`.
abbrev pub buffer : Target
buffer = record { mem = mem; self = az_span_init 200 0 200 }

pub buffer-IsOpen : IsOpen buffer
unfolding readable filled written
buffer-IsOpen = record { buffer = refl; within = omega arith }

pub url-Given : Given (at url) url_text buffer
url-Given = record { provides = url-Views; apart = (omega arith, inl (omega arith)) }

value_msg_example :
    Appends (az_log_value_msg url) buffer (shortened url_text)
    × (length (shortened url_text) ≤ log_value_max_length)
value_msg_example = az_log_value_msg_lem url url_text buffer buffer-IsOpen url-Given

build_body_example :
    Appends
      (az_aad_build_body (literal seg) (literal seg) url)
      buffer
      (body_text (literal seg) (literal seg) url seg seg url_text)
build_body_example =
    az_aad_build_body_lem (literal seg) (literal seg) url seg seg url_text buffer buffer-IsOpen
      (record {
        client_given = record { provides = refl; apart = tt };
        scopes_given = record { provides = refl; apart = tt };
        secret_given = url-Given;
      })

request_token_example :
    Ends
      (λ w'. w'.credential ≡ world.credential)
      (λ u w'. Renewed world.credential w' × Accepted platform places world)
      (az_aad_request_token platform exact (λ d. pos 0) places world)
request_token_example =
    az_aad_request_token_lem platform exact (λ d. pos 0) places world
      (λ c options. record { keeps = λ w h. h })
