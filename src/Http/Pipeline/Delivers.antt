-- ===== src/Http/Pipeline/Delivers.antt =====
-- Where the `AZ_OK` of a pipeline comes from.
use azure_sdk_for_c.Base.{
  ℕ, Bool, true, false, List, suc, ◌∙◌, ◌⊎◌, inl, inr, sym, subst, [], ◌∷◌, some, ◌≡◌, refl,
}
use azure_sdk_for_c.Base.Int.{ℤ, ◌-ℤ◌}
use azure_sdk_for_c.Http.Pipeline.{
  World, Platform, Policy, append_header, append_version, az_pal_clock_msec, log_request,
  log_response, with_duration, process, az_http_pipeline_nextpolicy, az_http_pipeline_process,
  az_http_pipeline_policy_apiversion, az_http_pipeline_policy_uniquerequestid,
  az_http_pipeline_policy_telemetry, az_http_pipeline_policy_retry,
  az_http_pipeline_policy_credential, az_http_pipeline_policy_logging, when_logged, policy_null,
  policy_uniquerequestid, policy_retry, policy_logging, policy_bufferresponse,
  policy_distributedtracing, policy_apiversion, policy_telemetry, policy_credential,
  policy_transport,
}
use azure_sdk_for_c.Http.Response.{Response}
use azure_sdk_for_c.Log.{Log, log_http_request, log_http_response, az_log_should_write}
use azure_sdk_for_c.Log.ResponseMessage.{az_log_http_response}
use azure_sdk_for_c.Result.{
  Run, Outcome, fault, hang, fail, done, ◌>>=◌, ◌>>◌, when◌then◌else◌, return, throw,
}
use azure_sdk_for_c.Result.Ensures.{
  Ensures, Ensures-done, Ensures-itself, Ensures-less, Ensures-bind,
}
use mathlib.Core.List.{Memᴰ}

-- The same memory and the same request.
abbrev pub IsSame : World → World → Type 0
IsSame v w = (v.mem ≡ w.mem) × (v.request ≡ w.request)

module _ (platform : Platform) where
  -- A run ended with `AZ_OK`, and left the memory and the request of `w`.
  abbrev pub Delivered : Run World (Unit {0}) → World → Type 0
  Delivered run w = (v v' : World) × (run v ≡ done tt v') × IsSame v' w

  module _ (next : Run World (Unit {0})) where
    abbrev FromNext : Run World (Unit {0}) → Type 0
    FromNext run = (w : World) → Ensures (λ u w'. Delivered next w') (run w)

    next-FromNext : FromNext next
    next-FromNext w =
        Ensures-less (next w) (Ensures-itself (next w)) (λ u w' e. (w, w', e, (refl, refl)))

    after-FromNext :
        {A : Type 0} (run : Run World A) (k : A → Run World (Unit {0}))
        → ((a : A) → FromNext (k a))
        → FromNext (run >>= k)
    after-FromNext run k f w =
        Ensures-bind (λ u w'. Delivered next w') run k w (Ensures-itself (run w)) (λ a w' e. f a w')

    log_response-IsSame :
        (d : ℤ) (w : World) → Ensures (λ u w'. IsSame w w') (log_response platform d w)
    unfolding log_response
    log_response-IsSame d w = go (
        az_log_http_response platform.layout platform.log_msg_buf w.mem platform.unset d
          (some w.request) (w.response, w.log))
      where
        go :
            (o : Outcome (Response × Log) (Unit {0}))
            → Ensures
                (λ u w'. IsSame w w')
                (elim o as (λ x. Outcome World (Unit {0})) [
                  | fault ↦ fault
                  | hang ↦ hang
                  | fail e (response, log) ↦ fail e (record w { response = response; log = log })
                  | done u (response, log) ↦ done tt (record w { response = response; log = log })
                ])
        go fault = tt
        go hang = tt
        go (fail e s) = tt
        go (done u s) = (refl, refl)

    abbrev finish : ℤ → Run World (Unit {0})
    finish start = do end ← az_pal_clock_msec platform; log_response platform (end -ℤ start)

    finish-FromNext :
        (start : ℤ) (v v' : World)
        → next v ≡ done tt v'
        → Ensures (λ u w'. Delivered next w') (finish start v')
    unfolding az_pal_clock_msec
    finish-FromNext start v v' e =
        let d = platform.clock_msec v'.ticks -ℤ start in
        let later : World = record v' { ticks = suc v'.ticks } in
        Ensures-less (log_response platform d later) (log_response-IsSame d later)
          (λ u w' same. (v, v', e, same))

    with_duration-FromNext : FromNext (with_duration platform next)
    unfolding with_duration
    with_duration-FromNext =
        after-FromNext (az_pal_clock_msec platform) _ (λ start w. go start w (next w) refl)
      where
        go :
            (start : ℤ) (v : World) (o : Outcome World (Unit {0}))
            → next v ≡ o
            → Ensures
                (λ u w'. Delivered next w')
                (elim o as (λ x. Outcome World (Unit {0})) [
                  | fault ↦ fault
                  | hang ↦ hang
                  | fail e w' ↦
                      (do
                        end ← az_pal_clock_msec platform
                        log_response platform (end -ℤ start)
                        throw e)
                        w'
                  | done u w' ↦ finish start w'
                ])
        go start v fault h = tt
        go start v hang h = tt
        go start v (fail e w') h =
            after-FromNext (az_pal_clock_msec platform) _
              (λ end.
                after-FromNext (log_response platform (end -ℤ start)) (λ _. throw e) (λ _ _. tt))
              w'
        go start v (done u w') h = finish-FromNext start v w' h

    when-FromNext :
        (b : Bool) (x y : Run World (Unit {0}))
        → FromNext x
        → FromNext y
        → FromNext (when b then x else y)
    when-FromNext true x y f g = f
    when-FromNext false x y f g = g

    logging-FromNext : FromNext (az_http_pipeline_policy_logging platform next)
    unfolding az_http_pipeline_policy_logging
    logging-FromNext =
        after-FromNext (when_logged log_http_request (log_request platform) (return tt)) _ (λ u w.
          when-FromNext (az_log_should_write w.log log_http_response) (with_duration platform next)
            next with_duration-FromNext next-FromNext w)

    -- A policy that is no transport returns `AZ_OK` only if the policies behind it do.
    process-FromNext :
        (p : Policy)
        → FromNext (process platform next p) ⊎ ((options : ℕ) × (p ≡ policy_transport options))
    unfolding process az_http_pipeline_policy_apiversion az_http_pipeline_policy_uniquerequestid
        az_http_pipeline_policy_telemetry az_http_pipeline_policy_retry
        az_http_pipeline_policy_credential
    process-FromNext policy_null = inl (λ w. tt)
    process-FromNext (policy_apiversion options) =
        inl (after-FromNext (append_version platform options) _ (λ u. next-FromNext))
    process-FromNext policy_uniquerequestid = inl (
        after-FromNext (append_header platform platform.ms_client_requestid platform.uniqueid) _
          (λ u. next-FromNext))
    process-FromNext (policy_telemetry os) =
        inl (after-FromNext (append_header platform platform.user_agent os) _ (λ u. next-FromNext))
    process-FromNext policy_retry = inl (λ w. next-FromNext _)
    process-FromNext (policy_credential apply) = inl (after-FromNext apply _ (λ u. next-FromNext))
    process-FromNext policy_logging = inl logging-FromNext
    process-FromNext policy_bufferresponse = inl next-FromNext
    process-FromNext policy_distributedtracing = inl next-FromNext
    process-FromNext (policy_transport options) = inr (options, refl)

  -- A transport among the policies ended with `AZ_OK`.
  abbrev pub Sent : List Policy → World → Type 0
  Sent ps w =
      (options : ℕ) × Memᴰ (policy_transport options) ps
      × Delivered (platform.send_request options) w

  Delivered-Sent :
      (ps : List Policy) (w : World)
      → ((v : World) → Ensures (λ u v'. Sent ps v') (az_http_pipeline_nextpolicy platform ps v))
      → Delivered (az_http_pipeline_nextpolicy platform ps) w
      → Sent ps w
  Delivered-Sent ps w f (v, v', e, (m, r)) =
      let (options, member, (x, x', sent, (m', r'))) = Ensures-done (λ u w'. Sent ps w') (f v) e in
      (options, member, (x, x', sent, (m' ∙ m, r' ∙ r)))

  step-Sent :
      (p : Policy) (ps : List Policy)
      → ((v : World) → Ensures (λ u v'. Sent ps v') (az_http_pipeline_nextpolicy platform ps v))
      → (w : World)
      → Ensures
          (λ u w'. Sent (p ∷ ps) w')
          (process platform (az_http_pipeline_nextpolicy platform ps) p w)
  unfolding process
  step-Sent p ps f w = elim (process-FromNext (az_http_pipeline_nextpolicy platform ps) p) [
    | inl behind ↦
        Ensures-less {Q = λ u v. Sent (p ∷ ps) v}
          (process platform (az_http_pipeline_nextpolicy platform ps) p w) (behind w)
          (λ u w' d.
            let (options, member, sent) = Delivered-Sent ps w' f d in
            (options, Memᴰ.tail member, sent))
    | inr (options, e) ↦
        let run = platform.send_request options in
        subst
          (λ q.
            Ensures (λ u w'. Sent (q ∷ ps) w')
              (process platform (az_http_pipeline_nextpolicy platform ps) q w))
          (sym e)
          (Ensures-less (run w) (next-FromNext run w) (λ u w' d. (options, Memᴰ.head refl, d)))
  ]

  nextpolicy-Sent :
      (ps : List Policy) (w : World)
      → Ensures (λ u w'. Sent ps w') (az_http_pipeline_nextpolicy platform ps w)
  unfolding az_http_pipeline_nextpolicy
  nextpolicy-Sent [] w = tt
  nextpolicy-Sent (policy_null ∷ ps) w = tt
  nextpolicy-Sent (p ∷ ps) w = step-Sent p ps (nextpolicy-Sent ps) w

  -- A pipeline returns `AZ_OK` only if the transport that is among its policies has sent the request
  -- and returned `AZ_OK`; the memory and the request are then what the transport has left.
  pub az_http_pipeline_process-Sent :
      (ps : List Policy) (w w' : World)
      → az_http_pipeline_process platform ps w ≡ done tt w'
      → Sent ps w'
  unfolding az_http_pipeline_process
  az_http_pipeline_process-Sent [] w w' e = Ensures-done (λ u v. Sent [] v) {o = fault} tt e
  az_http_pipeline_process-Sent (p ∷ ps) w w' e =
      Ensures-done (λ u v. Sent (p ∷ ps) v) (step-Sent p ps (nextpolicy-Sent ps) w) e
