-- ===== src/Http/Pipeline/Steps.antt =====
-- What single policies hand to the policies behind them.
use azure_sdk_for_c.Base.{◌+◌, ◌≤◌, List, [], ◌∷◌, ◌++◌, none, ◌≡◌, refl, arith}
use azure_sdk_for_c.Http.Pipeline.{
  World, Platform, store_of, set_store, on_store, append_header, az_http_pipeline_policy_logging,
}
use azure_sdk_for_c.Http.Request.{Pair, IsLayout, Store, az_http_request_append_header}
use azure_sdk_for_c.Http.Request.Headers.{
  IsHeaders, append_header_fits, set_headers, headers_target,
}
use azure_sdk_for_c.Http.Retry.{IsHeader}
use azure_sdk_for_c.Log.{az_log_should_write}
use azure_sdk_for_c.Memory.{Memory}
use azure_sdk_for_c.Memory.Changes.{Changes-trans}
use azure_sdk_for_c.Span.Write.{Target}
use azure_sdk_for_c.Span.Write.Emits.{Spoils}
use azure_sdk_for_c.Result.{Run, done}
use azure_sdk_for_c.Span.{Span}

-- Other memory and other headers.
abbrev pub placed : World → Memory → Span → World
placed w m headers = record w { mem = m; request = record w.request { headers = headers } }

on_store-done :
    (run : Run Store (Unit {0})) (w : World) (s : Store)
    → run (store_of w) ≡ done tt s
    → on_store run w ≡ done tt (set_store w s)
on_store-done run w s e = rw (e, on_store) refl

-- The headers of a request, with the memory.
abbrev pub headers_of : World → Target
headers_of w = headers_target (store_of w)

pub Spoils-trans :
    (t t' t'' : Target)
    → t.self.len ≤ t'.self.len
    → t'.self.len ≤ t'.self.capacity
    → t'.self.capacity ≡ t.self.capacity
    → t'.self.ptr ≡ t.self.ptr
    → Spoils t t'
    → Spoils t' t''
    → Spoils t t''
Spoils-trans t t' t'' longer within same start f g =
    Changes-trans _ _ (omega arith) (omega arith) (omega (arith, longer, start))
      (omega (arith, longer, within, start, same)) f g

module _ (platform : Platform) where
  -- Without a listener nothing is logged.
  pub logging_silent :
      (next : Run World (Unit {0})) (w : World)
      → w.log.listener ≡ none
      → az_http_pipeline_policy_logging platform next w ≡ next w
  unfolding az_http_pipeline_policy_logging az_log_should_write
  logging_silent next w h = rw h refl

  module _ (laws : IsLayout platform.layout) where
    abbrev pub HasHeaders : World → List Pair → Type 0
    HasHeaders w ps = IsHeaders platform.layout laws (store_of w) ps

    pub append_header_step :
        (w : World) (ps : List Pair) (p : Pair)
        → HasHeaders w ps
        → IsHeader p
        → w.request.headers.len + platform.layout.size ≤ w.request.headers.capacity
        → (m : Memory) × (headers : Span) × (append_header platform p.key p.value w
            ≡ done tt (placed w m headers))
          × HasHeaders (placed w m headers) (ps ++ (p ∷ []))
          × (headers.len ≡ w.request.headers.len + platform.layout.size)
          × (headers.capacity ≡ w.request.headers.capacity)
          × (headers.ptr ≡ w.request.headers.ptr)
          × Spoils (headers_of w) (headers_of (placed w m headers))
    append_header_step w ps p h is room =
        let (t, e, h', longer, same, start, spoils) =
          append_header_fits platform.layout laws (store_of w) ps p.key p.value h is.key_valid
            is.value_valid is.filled room in
        (
          t.mem,
          t.self,
          on_store-done (az_http_request_append_header platform.layout p.key p.value) w
              (set_headers (store_of w) t) e,
          h',
          longer,
          same,
          start,
          spoils,
        )
