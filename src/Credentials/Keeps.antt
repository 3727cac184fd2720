-- ===== src/Credentials/Keeps.antt =====
-- What keeps the credential: the policies in front of a transport.
pub mod Answer
use azure_sdk_for_c.Base.{ℕ, ◌*◌, zero, suc, some, ◌≡◌}
use azure_sdk_for_c.Base.Int.{ℤ, pos, ◌-ℤ◌, ◌+ℤ◌, scale}
use azure_sdk_for_c.Credentials.{ClientSecretCredential}
use azure_sdk_for_c.Credentials.Aad.{
  Places, on_response, on_buffer, send_token_request, bearer_token, token_buf_size, read_token,
}
use azure_sdk_for_c.Double.{Doubles}
use azure_sdk_for_c.Http.Pipeline.{
  World, Platform, az_pal_clock_msec, log_request, log_response, with_duration, when_logged,
  process, az_http_pipeline_nextpolicy, az_http_pipeline_process, az_http_pipeline_policy_retry,
  az_http_pipeline_policy_logging,
}
use azure_sdk_for_c.Http.Response.{Response}
use azure_sdk_for_c.Json.Get.{
  is_not_found, by_pointer_from, az_json_parse_by_pointer, az_json_parser_get_by_pointer_token,
}
use azure_sdk_for_c.Json.Parser.{Parser, az_json_parser_init, az_json_parser_parse_token}
use azure_sdk_for_c.Json.Pointer.{az_span_reader_read_json_pointer_token}
use azure_sdk_for_c.Json.Token.{
  Token as JsonToken, string, number, az_json_token_get_number, az_json_token_get_string,
}
use azure_sdk_for_c.Log.{Log, log_http_request, log_http_response, az_log_should_write}
use azure_sdk_for_c.Log.ResponseMessage.{az_log_http_request, az_log_http_response}
use azure_sdk_for_c.Memory.{Memory}
use azure_sdk_for_c.Result.Preserves.{
  Leaves, Preserves, Preserves-bind, Preserves-when, Preserves-return, Preserves-throw,
}
use azure_sdk_for_c.Result.{
  Run, Outcome, fault, hang, fail, done, ◌>>=◌, ◌>>◌, when◌then◌else◌, return, throw,
  item_not_found,
}
use azure_sdk_for_c.Base.Text.{ascii}
use azure_sdk_for_c.Source.{at, literal}
use azure_sdk_for_c.Span.{Span}
use azure_sdk_for_c.Span.Write.{Target, in_place, append_to, az_span_copy}

module _ (c : ClientSecretCredential) where
  abbrev pub Has : World → Type 0
  Has w = w.credential ≡ c

  abbrev pub Keeps : {A : Type 0} → Run World A → Type 0
  Keeps run = Preserves Has run

  pub on_response-Keeps : {A : Type 0} (run : Memory → Run Response A) → Keeps (on_response run)
  on_response-Keeps {A = A} run = record { keeps = λ w h. go w h (run w.mem w.response) }
    where
      go :
          (w : World)
          → Has w
          → (o : Outcome Response A)
          → Leaves Has (elim o as (λ x. Outcome World A) [
            | fault ↦ fault
            | hang ↦ hang
            | fail e r ↦ fail e (record w { response = r })
            | done a r ↦ done a (record w { response = r })
          ])
      go w h fault = tt
      go w h hang = tt
      go w h (fail e r) = h
      go w h (done a r) = h

  pub on_buffer-Keeps : (p n : ℕ) (run : Run Target (Unit {0})) → Keeps (on_buffer p n run)
  on_buffer-Keeps p n run = record { keeps = λ w h. go w h (run _) }
    where
      go :
          (w : World)
          → Has w
          → (o : Outcome Target (Unit {0}))
          → Leaves Has (elim o as (λ x. Outcome World Span) [
            | fault ↦ fault
            | hang ↦ hang
            | fail e t ↦ fail e (record w { mem = t.mem })
            | done u t ↦ done t.self (record w { mem = t.mem })
          ])
      go w h fault = tt
      go w h hang = tt
      go w h (fail e t) = h
      go w h (done u t) = h

  module _ (platform : Platform) where
    pub clock-Keeps : Keeps (az_pal_clock_msec platform)
    unfolding az_pal_clock_msec
    clock-Keeps = record { keeps = λ w h. h }

    log_request-Keeps : Keeps (log_request platform)
    unfolding log_request
    log_request-Keeps = record {
      keeps = λ w h.
          go w h
            (az_log_http_request platform.layout platform.log_msg_buf w.mem (some w.request) w.log);
    }
      where
        go :
            (w : World)
            → Has w
            → (o : Outcome Log (Unit {0}))
            → Leaves Has (elim o as (λ x. Outcome World (Unit {0})) [
              | fault ↦ fault
              | hang ↦ hang
              | fail e log ↦ fail e (record w { log = log })
              | done u log ↦ done tt (record w { log = log })
            ])
        go w h fault = tt
        go w h hang = tt
        go w h (fail e log) = h
        go w h (done u log) = h

    log_response-Keeps : (d : ℤ) → Keeps (log_response platform d)
    unfolding log_response
    log_response-Keeps d = record {
      keeps = λ w h. go w h (
          az_log_http_response platform.layout platform.log_msg_buf w.mem platform.unset d
            (some w.request) (w.response, w.log));
    }
      where
        go :
            (w : World)
            → Has w
            → (o : Outcome (Response × Log) (Unit {0}))
            → Leaves Has (elim o as (λ x. Outcome World (Unit {0})) [
              | fault ↦ fault
              | hang ↦ hang
              | fail e (response, log) ↦ fail e (record w { response = response; log = log })
              | done u (response, log) ↦ done tt (record w { response = response; log = log })
            ])
        go w h fault = tt
        go w h hang = tt
        go w h (fail e s) = h
        go w h (done u s) = h

    module _ (next : Run World (Unit {0})) (keeps_next : Keeps next) where
      with_duration-Keeps : Keeps (with_duration platform next)
      unfolding with_duration
      with_duration-Keeps =
          Preserves-bind Has (az_pal_clock_msec platform) _ clock-Keeps
            (λ start. record { keeps = λ w h. go start (next w) (keeps_next.keeps w h) })
        where
          go :
              (start : ℤ) (o : Outcome World (Unit {0}))
              → Leaves Has o
              → Leaves Has (elim o as (λ x. Outcome World (Unit {0})) [
                | fault ↦ fault
                | hang ↦ hang
                | fail e w' ↦
                    (do
                      end ← az_pal_clock_msec platform
                      log_response platform (end -ℤ start)
                      throw e)
                      w'
                | done u w' ↦
                    (do end ← az_pal_clock_msec platform; log_response platform (end -ℤ start)) w'
              ])
          go start fault h = tt
          go start hang h = tt
          go start (fail e w') h =
              (Preserves-bind Has (az_pal_clock_msec platform) _ clock-Keeps (λ end.
                  Preserves-bind Has (log_response platform (end -ℤ start)) (λ _. throw e)
                    (log_response-Keeps _) (λ _. Preserves-throw Has e))).keeps
                w' h
          go start (done u w') h =
              (Preserves-bind Has (az_pal_clock_msec platform) _ clock-Keeps
                  (λ end. log_response-Keeps (end -ℤ start))).keeps
                w' h

      when_logged-Keeps :
          (k : ℕ) (x y : Run World (Unit {0})) → Keeps x → Keeps y → Keeps (when_logged k x y)
      when_logged-Keeps k x y f g = record {
        keeps = λ w h. (Preserves-when Has (az_log_should_write w.log k) x y f g).keeps w h;
      }

      logging-Keeps : Keeps (az_http_pipeline_policy_logging platform next)
      unfolding az_http_pipeline_policy_logging
      logging-Keeps =
          Preserves-bind Has _ _
            (when_logged-Keeps log_http_request (log_request platform) (return tt) log_request-Keeps
              (Preserves-return Has tt))
            (λ _.
              when_logged-Keeps log_http_response (with_duration platform next) next
                with_duration-Keeps keeps_next)

      retry-Keeps : Keeps (az_http_pipeline_policy_retry platform next)
      unfolding az_http_pipeline_policy_retry
      retry-Keeps = record { keeps = λ w h. keeps_next.keeps _ h }

    -- The pipeline of a request for a token keeps the credential if the transports do.
    pub send-Keeps :
        ((options : ℕ) → Keeps (platform.send_request options))
        → Keeps (send_token_request platform)
    unfolding send_token_request az_http_pipeline_process az_http_pipeline_nextpolicy process
    send-Keeps transports = record {
      keeps = λ w h.
          (retry-Keeps
              (az_http_pipeline_policy_logging platform
                (platform.send_request w.credential.http_transport_options))
              (logging-Keeps (platform.send_request w.credential.http_transport_options)
                (transports w.credential.http_transport_options))).keeps
            w h;
    }
