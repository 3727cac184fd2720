-- ===== src/Tests/Logs.antt =====
-- A request that is logged.
use azure_sdk_for_c.Base.{none, some, [], ◌∷◌, ◌++◌, ◌≡◌, refl, arith, inl}
use azure_sdk_for_c.Http.Request.Headers.{encode_all}
use azure_sdk_for_c.Http.Request.{Request}
use azure_sdk_for_c.Log.Logged.{az_log_http_request_lem}
use azure_sdk_for_c.Log.RequestText.{Entry, RequestGiven, request_text}
use azure_sdk_for_c.Log.ResponseMessage.{az_log_http_request, log_msg_bldr}
use azure_sdk_for_c.Log.{Log, log_http_request, az_log_set_classifications, az_log_set_listener}
use azure_sdk_for_c.Memory.{Memory, readable, filled, written}
use azure_sdk_for_c.Result.{done}
use azure_sdk_for_c.Source.{at}
use azure_sdk_for_c.Span.Write.Given.{Given}
use azure_sdk_for_c.Span.Write.{Target}
use azure_sdk_for_c.Span.{az_span_init}
use azure_sdk_for_c.Tests.Requests.{flat, flat-IsLayout, url, url_text, mem, store}

-- The header whose key and value are the text of the URL.
abbrev entry : Entry
entry = record { pair = record { key = url; value = url }; key = url_text; value = url_text }

abbrev logged_mem : Memory
logged_mem = written mem 300 (100 ∷ 5 ∷ 40 ∷ 100 ∷ 5 ∷ 40 ∷ [])

abbrev logged : Request
logged = record store.request { method = url; headers = az_span_init 300 6 6 }

abbrev message : Target
message = log_msg_bldr 5000 logged_mem

text-Given : Given (at url) url_text message
unfolding written filled
text-Given = record {
  provides = record {
    count = refl;
    fits = omega arith;
    holds = (refl, (refl, (refl, (refl, (refl, tt)))));
  };
  apart = (omega arith, inl (omega arith));
}

header-Given :
    Given (at (az_span_init 300 6 6)) (encode_all flat flat-IsLayout (entry.pair ∷ [])) message
unfolding written filled
header-Given = record {
  provides = record {
    count = refl;
    fits = omega arith;
    holds = (refl, (refl, (refl, (refl, (refl, (refl, tt))))));
  };
  apart = (omega arith, inl (omega arith));
}

logged-Given : RequestGiven flat flat-IsLayout logged url_text url_text (entry ∷ []) message
unfolding readable written filled
logged-Given = record {
  method_given = text-Given;
  url_given = text-Given;
  headers_given = header-Given;
  headers_readable = refl;
  entries_given = (record { key_given = text-Given; value_given = text-Given }, tt);
}

abbrev quiet : Log
quiet = record { classifications = none; listener = none; calls = [] }

log_http_request_example :
    az_log_http_request flat 5000 logged_mem
      (some logged)
      (az_log_set_listener (some 30) (az_log_set_classifications none quiet))
    ≡ done tt (
        az_log_set_listener (some 30) (
          az_log_set_classifications none (record quiet {
            calls =
                []
                ++ ((
                  30,
                  log_http_request,
                  request_text flat flat-IsLayout logged url_text url_text (entry ∷ []) 0,
                )
                    ∷ []);
          })))
log_http_request_example =
    az_log_http_request_lem flat flat-IsLayout logged url_text url_text (entry ∷ []) logged_mem 5000
      30 none quiet logged-Given (omega arith) tt
