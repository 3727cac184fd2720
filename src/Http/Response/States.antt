-- ===== src/Http/Response/States.antt =====
-- The states that the calls on a response can reach, whatever the memory holds.
use azure_sdk_for_c.Base.{◌≡◌, refl, sym, subst, ◌⊎◌, inl, inr}
use azure_sdk_for_c.Http.Request.{Pair}
use azure_sdk_for_c.Http.Response.{
  Response, Cursor, az_http_response_init, az_http_response_get_status_line,
  az_http_response_get_next_header, az_http_response_get_body,
}
use azure_sdk_for_c.Memory.{Memory}
use azure_sdk_for_c.Result.Preserves.{Leaves}
use azure_sdk_for_c.Result.{Outcome, fail, done, Error}
use azure_sdk_for_c.Span.{Span}
use azure_sdk_for_c.Http.Response.Operations.{
  IsOf, CursorOf, Preserves-get_status_line, Preserves-get_next_header, Preserves-get_body,
}

-- The call ended, with `AZ_OK` or with an error, and left the state.
abbrev pub EndsIn : {S A : Type 0} → Outcome S A → S → Type 0
EndsIn {S} {A} o s = ((a : A) × (o ≡ done a s)) ⊎ ((e : Error) × (o ≡ fail e s))

-- A call on a response, in some memory.
pub data Call (self self' : Response) : Type 0 where
  call_status_line :
      (m : Memory) → EndsIn (az_http_response_get_status_line m self) self' → Call self self'
  call_header :
      (m : Memory) (out : Pair) (c : Cursor)
      → EndsIn (az_http_response_get_next_header m (record { self = self; out = out })) c
      → self' ≡ c.self
      → Call self self'
  call_body : (m : Memory) → EndsIn (az_http_response_get_body m self) self' → Call self self'

-- The responses that calls in any order, each with any result, lead to.
pub data Reach (start : Response) : Response → Type 0 where
  here : Reach start start
  next : {self self' : Response} → Reach start self → Call self self' → Reach start self'

EndsIn-Leaves :
    {S A : Type 0} (P : S → Type 0) (o : Outcome S A) (s : S) → EndsIn o s → Leaves P o → P s
EndsIn-Leaves P o s (inl (a, e)) h = subst (λ x. Leaves P x) e h
EndsIn-Leaves P o s (inr (x, e)) h = subst (λ y. Leaves P y) e h

Call-IsOf :
    (whole : Span) (self self' : Response) → Call self self' → IsOf whole self → IsOf whole self'
Call-IsOf whole self self' (call_status_line m e) p =
    EndsIn-Leaves (IsOf whole) _ self' e ((Preserves-get_status_line m whole).keeps self p)
Call-IsOf whole self self' (call_header m out c e same) p = subst (IsOf whole) (sym same) (
    EndsIn-Leaves (CursorOf whole) _ c e
      ((Preserves-get_next_header m whole).keeps (record { self = self; out = out }) p))
Call-IsOf whole self self' (call_body m e) p =
    EndsIn-Leaves (IsOf whole) _ self' e ((Preserves-get_body m whole).keeps self p)

-- Calls on a response in any order and in any memory, each with any result, keep the span of the
-- response, and what is not read yet lies in it, or is empty.
pub Reach-IsOf :
    (whole : Span) {self : Response} → Reach (az_http_response_init whole) self → IsOf whole self
unfolding az_http_response_init
Reach-IsOf whole here = (refl, inl refl)
Reach-IsOf whole (next r call) = Call-IsOf whole _ _ call (Reach-IsOf whole r)
