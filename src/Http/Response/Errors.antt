-- ===== src/Http/Response/Errors.antt =====
-- Errors in the headers, when the body is asked for.
use azure_sdk_for_c.Base.{◌≡◌, refl, sym, subst}
use azure_sdk_for_c.Http.Response.{
  kind_header, kind_eof, Response, Cursor, az_http_response_get_next_header, ignore_headers_from,
  ignore_headers, reach_body, az_http_response_get_body,
}
use azure_sdk_for_c.Memory.{Memory}
use azure_sdk_for_c.Result.{Error, done, fail, ◌>>=◌}
use azure_sdk_for_c.Span.{az_span_slice, az_span_null, to_end}

module _ (m : Memory) (self : Response) (e : Error) (c : Cursor) where
  ignores :
      az_http_response_get_next_header m
          (record { self = self; out = record { key = az_span_null; value = az_span_null } })
        ≡ fail e c
      → ignore_headers m self ≡ done tt c.self
  unfolding ignore_headers ignore_headers_from
  ignores h = rw (h, ignore_headers, ignore_headers_from)

  pub get_body_error :
      self.next_kind ≡ kind_header
      → az_http_response_get_next_header m
          (record { self = self; out = record { key = az_span_null; value = az_span_null } })
        ≡ fail e c
      → az_http_response_get_body m self
        ≡ done (az_span_slice c.self.remaining 0 to_end) (record c.self { next_kind = kind_eof })
  unfolding az_http_response_get_body reach_body
  get_body_error k h =
      let reached : reach_body m self.next_kind self ≡ done tt c.self =
        subst (λ kind. reach_body m kind self ≡ done tt c.self) (sym k) (ignores h) in
      rw (reached, ◌>>=◌) refl
