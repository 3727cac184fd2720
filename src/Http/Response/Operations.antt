-- ===== src/Http/Response/Operations.antt =====
-- What each call on a response keeps, whatever the memory holds.
use azure_sdk_for_c.Base.{ℕ, zero, suc, ◌==◌, [], ◌∷◌, ◌≡◌, sym, subst, arith, inr}
use azure_sdk_for_c.Http.Response.{
  Kind, kind_status_line, kind_header, kind_body, kind_eof, Response, Cursor, on_remaining,
  set_kind, on_reader, set_key, set_value, enter_body, read_name, read_value, read_header,
  next_header, ignore_headers_from, ignore_headers, reach_body, az_http_response_get_status_line,
  az_http_response_get_next_header, az_http_response_get_body,
}
use azure_sdk_for_c.Memory.{Memory}
use azure_sdk_for_c.Result.Preserves.{
  Leaves, Preserves, Preserves-bind, Preserves-when, Preserves-return, Preserves-throw, keeping,
}
use azure_sdk_for_c.Result.{
  Run, Outcome, fault, hang, fail, done, http_invalid_state, item_not_found,
}
use azure_sdk_for_c.Span.{Span, az_span_null, peek}
use azure_sdk_for_c.Http.Response.Parts.{
  Inside, Preserves-skip, Preserves-peek, Preserves-expected, Preserves-az_is_char,
  Preserves-not_space, Preserves-scan, Preserves-slice_of, Preserves-value_from,
  Preserves-az_get_http_status_line,
}

-- The response is the one that was given, and what is not read of it is a part of it.
abbrev pub IsOf : Span → Response → Type 0
IsOf whole self = (self.http_response ≡ whole) × Inside self.remaining whole

abbrev pub CursorOf : Span → Cursor → Type 0
CursorOf whole c = IsOf whole c.self

module _ (m : Memory) (whole : Span) where
  abbrev Part : Span → Type 0
  Part s = Inside s whole

  module _ {A : Type 0} (run : Run Span A) (f : Preserves Part run) where
    Preserves-on_remaining : Preserves (IsOf whole) (on_remaining run)
    Preserves-on_remaining = record {
      keeps = λ self p. go self p.0 (run self.remaining) (f.keeps self.remaining p.1);
    }
      where
        go :
            (self : Response)
            → self.http_response ≡ whole
            → (o : Outcome Span A) → Leaves Part o
            → Leaves (IsOf whole) (elim o as (λ x. Outcome Response A) [
              | fault ↦ fault
              | hang ↦ hang
              | fail e s ↦ fail e (record self { remaining = s })
              | done a s ↦ done a (record self { remaining = s })
            ])
        go self e fault h = tt
        go self e hang h = tt
        go self e (fail x s) h = (e, h)
        go self e (done a s) h = (e, h)

    Preserves-on_reader : Preserves (CursorOf whole) (on_reader run)
    Preserves-on_reader = record {
      keeps = λ c p. go c p.0 (run c.self.remaining) (f.keeps c.self.remaining p.1);
    }
      where
        go :
            (c : Cursor)
            → c.self.http_response ≡ whole
            → (o : Outcome Span A) → Leaves Part o
            → Leaves (CursorOf whole) (elim o as (λ x. Outcome Cursor A) [
              | fault ↦ fault
              | hang ↦ hang
              | fail e s ↦ fail e (record c { self = record c.self { remaining = s } })
              | done a s ↦ done a (record c { self = record c.self { remaining = s } })
            ])
        go c e fault h = tt
        go c e hang h = tt
        go c e (fail x s) h = (e, h)
        go c e (done a s) h = (e, h)

  Preserves-set_key : (key : Span) → Preserves (CursorOf whole) (set_key key)
  Preserves-set_key key = record { keeps = λ c p. p }

  Preserves-set_value : (value : Span) → Preserves (CursorOf whole) (set_value value)
  Preserves-set_value value = record { keeps = λ c p. p }

  Preserves-enter_body : Preserves (CursorOf whole) enter_body
  Preserves-enter_body = record { keeps = λ c p. p }

  Preserves-read_name : Preserves (CursorOf whole) (read_name m)
  unfolding read_name
  Preserves-read_name =
      search
        (
          keeping,
          Preserves-on_reader,
          Preserves-skip m whole,
          Preserves-scan m whole,
          Preserves-az_is_char m whole,
          Preserves-not_space m whole,
          Preserves-slice_of m whole,
          Preserves-set_key,
        )
        depth 30

  Preserves-read_value : Preserves (CursorOf whole) (read_value m)
  unfolding read_value
  Preserves-read_value =
      search
        (
          keeping,
          Preserves-on_reader,
          Preserves-skip m whole,
          Preserves-value_from m whole,
          Preserves-slice_of m whole,
          Preserves-set_value,
        )
        depth 30

  Preserves-read_header : Preserves (CursorOf whole) (read_header m)
  unfolding read_header
  Preserves-read_header =
      Preserves-bind (CursorOf whole) _ _ (Preserves-on_reader (peek m) (Preserves-peek m whole))
        (λ c.
          Preserves-when (CursorOf whole) (c == b'\r') _ _
            (Preserves-bind (CursorOf whole) _ _
              (Preserves-on_reader _ (Preserves-expected m whole (b'\r' ∷ b'\n' ∷ [])))
              (λ u.
                Preserves-bind (CursorOf whole) _ _ Preserves-enter_body
                  (λ u. Preserves-throw (CursorOf whole) item_not_found)))
            (Preserves-bind (CursorOf whole) _ _ Preserves-read_name (λ u.
              Preserves-bind (CursorOf whole) _ _ Preserves-read_value
                (λ u. Preserves-on_reader _ (Preserves-expected m whole (b'\n' ∷ []))))))

  Preserves-next_header : (kind : Kind) → Preserves (CursorOf whole) (next_header m kind)
  unfolding next_header
  Preserves-next_header kind_status_line = Preserves-throw (CursorOf whole) http_invalid_state
  Preserves-next_header kind_header = Preserves-read_header
  Preserves-next_header kind_body = Preserves-throw (CursorOf whole) item_not_found
  Preserves-next_header kind_eof = Preserves-throw (CursorOf whole) http_invalid_state

  pub Preserves-get_next_header : Preserves (CursorOf whole) (az_http_response_get_next_header m)
  unfolding az_http_response_get_next_header
  Preserves-get_next_header = record {
    keeps = λ c p. (Preserves-next_header c.self.next_kind).keeps c p;
  }

  Preserves-ignore_headers_from :
      (fuel : ℕ) → Preserves (CursorOf whole) (ignore_headers_from m fuel)
  unfolding ignore_headers_from
  Preserves-ignore_headers_from zero = record { keeps = λ c p. tt }
  Preserves-ignore_headers_from (suc fuel) = record {
    keeps = λ c p.
        go (λ c' q. (Preserves-ignore_headers_from fuel).keeps c' q)
          (az_http_response_get_next_header m c) (Preserves-get_next_header.keeps c p);
  }
    where
      go :
          ((c : Cursor) → CursorOf whole c → Leaves (CursorOf whole) (ignore_headers_from m fuel c))
          → (o : Outcome Cursor (Unit {0})) → Leaves (CursorOf whole) o
          → Leaves (CursorOf whole) (elim o as (λ x. Outcome Cursor (Unit {0})) [
            | fault ↦ fault
            | hang ↦ hang
            | fail e c' ↦ done tt c'
            | done u c' ↦ ignore_headers_from m fuel c'
          ])
      go f fault h = tt
      go f hang h = tt
      go f (fail e c) h = h
      go f (done u c) h = f c h

  Preserves-ignore_headers : Preserves (IsOf whole) (ignore_headers m)
  unfolding ignore_headers
  Preserves-ignore_headers = record {
    keeps = λ self p.
        let c : Cursor = record {
          self = self;
          out = record { key = az_span_null; value = az_span_null };
        } in
        go (ignore_headers_from m (suc self.remaining.len) c)
          ((Preserves-ignore_headers_from (suc self.remaining.len)).keeps c p);
  }
    where
      go :
          (o : Outcome Cursor (Unit {0}))
          → Leaves (CursorOf whole) o
          → Leaves (IsOf whole) (elim o as (λ x. Outcome Response (Unit {0})) [
            | fault ↦ fault
            | hang ↦ hang
            | fail e c ↦ fail e c.self
            | done u c ↦ done tt c.self
          ])
      go fault h = tt
      go hang h = tt
      go (fail e c) h = h
      go (done u c) h = h

  abbrev restart : Run Response (Unit {0})
  restart self = done tt (record self { remaining = self.http_response })

  Preserves-restart : Preserves (IsOf whole) restart
  Preserves-restart = record {
    keeps = λ self p. (p.0, subst (λ x. Inside x whole) (sym p.0) (inr (omega arith, omega arith)));
  }

  Preserves-set_kind : (kind : Kind) → Preserves (IsOf whole) (set_kind kind)
  Preserves-set_kind kind = record { keeps = λ self p. p }

  pub Preserves-get_status_line : Preserves (IsOf whole) (az_http_response_get_status_line m)
  unfolding az_http_response_get_status_line
  Preserves-get_status_line = Preserves-bind (IsOf whole) restart _ Preserves-restart (λ u.
      Preserves-bind (IsOf whole) _ _
        (Preserves-on_remaining _ (Preserves-az_get_http_status_line m whole))
        (λ out.
          Preserves-bind (IsOf whole) _ _ (Preserves-set_kind kind_header)
            (λ u. Preserves-return (IsOf whole) out)))

  Preserves-reach_body : (kind : Kind) → Preserves (IsOf whole) (reach_body m kind)
  unfolding reach_body
  Preserves-reach_body kind_status_line =
      search (keeping, Preserves-get_status_line, Preserves-ignore_headers)
  Preserves-reach_body kind_header = Preserves-ignore_headers
  Preserves-reach_body kind_body = Preserves-return (IsOf whole) tt
  Preserves-reach_body kind_eof =
      search (keeping, Preserves-get_status_line, Preserves-ignore_headers)

  Preserves-reach : Preserves (IsOf whole) (λ self. reach_body m self.next_kind self)
  Preserves-reach = record { keeps = λ self p. (Preserves-reach_body self.next_kind).keeps self p }

  pub Preserves-get_body : Preserves (IsOf whole) (az_http_response_get_body m)
  unfolding az_http_response_get_body
  Preserves-get_body =
      search
        (
          keeping,
          Preserves-reach,
          Preserves-on_remaining,
          Preserves-slice_of m whole,
          Preserves-set_kind,
        )
        depth 30
