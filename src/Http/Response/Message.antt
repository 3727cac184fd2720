-- ===== src/Http/Response/Message.antt =====
-- A whole response: its status line, its headers and its body.
use azure_sdk_for_c.Base.{
  ℕ, zero, suc, ◌≤◌, ◌<◌, List, Bytes, [], ◌∷◌, ◌++◌, All, length, length-append, ◌≡◌, refl, sym,
  ap, ◌∙◌, subst, arith,
}
use azure_sdk_for_c.Http.Request.{Pair}
use azure_sdk_for_c.Http.Response.Fields.{
  Field, field_text, IsField, read_header_lem, ReadField, end_of_headers,
}
use azure_sdk_for_c.Http.Response.Line.{
  status_line_text, IsLine, TellsLine, Gives-az_get_http_status_line,
}
use azure_sdk_for_c.Http.Response.{
  Kind, kind_status_line, kind_header, kind_body, kind_eof, Response, StatusLine, Cursor,
  next_header, az_http_response_get_status_line, az_http_response_get_next_header,
  ignore_headers_from, ignore_headers, reach_body, az_http_response_get_body,
}
use azure_sdk_for_c.Memory.{Memory}
use azure_sdk_for_c.Result.{done, fail, ◌>>=◌, item_not_found}
use azure_sdk_for_c.Span.Slice.{Views-az_span_slice}
use azure_sdk_for_c.Span.{Span, Views, az_span_slice, az_span_null, to_end}

pub record Message : Type 0 where
  pub major : ℕ
  pub minor : ℕ
  pub code : Bytes
  pub reason : Bytes
  pub fields : List Field
  pub body : Bytes

-- The headers, the empty line and the body.
abbrev pub fields_text : List Field → Bytes → Bytes
fields_text [] body = b'\r' ∷ b'\n' ∷ body
fields_text (f ∷ fs) body = field_text f (fields_text fs body)

abbrev pub message_text : Message → Bytes
message_text msg =
    status_line_text msg.major msg.minor msg.code msg.reason (fields_text msg.fields msg.body)

pub record IsMessage (msg : Message) : Type 0 where
  pub line : IsLine msg.major msg.minor msg.code msg.reason
  pub fields : All IsField msg.fields

length-fields_text : (fs : List Field) (body : Bytes) → length fs ≤ length (fields_text fs body)
length-fields_text [] body = omega arith
length-fields_text (f ∷ fs) body = omega (
  arith,
  length-fields_text fs body,
  length-append f.name
      (b':' ∷ (f.before ++ (f.value ++ (f.after ++ (b'\r' ∷ b'\n' ∷ fields_text fs body))))),
  length-append f.before (f.value ++ (f.after ++ (b'\r' ∷ b'\n' ∷ fields_text fs body))),
  length-append f.value (f.after ++ (b'\r' ∷ b'\n' ∷ fields_text fs body)),
  length-append f.after (b'\r' ∷ b'\n' ∷ fields_text fs body),
)

module _ (m : Memory) where
  -- Where a response stands: in front of the whole message, of the headers that are left, or of the body.
  abbrev pub Stands : Message → List Field → Response → Kind → Type 0
  Stands msg fs self kind_status_line = Views m self.http_response (message_text msg)
  Stands msg fs self kind_header = Views m self.remaining (fields_text fs msg.body)
  Stands msg fs self kind_body = Views m self.remaining msg.body
  Stands msg fs self kind_eof = Views m self.http_response (message_text msg)

  -- The body is read, from wherever the response stands.
  abbrev pub ReadsBody : Bytes → Response → Type 0
  ReadsBody body self =
      (out : Span) × (self' : Response) × (az_http_response_get_body m self ≡ done out self')
      × Views m out body
      × (self'.http_response ≡ self.http_response)
      × (self'.next_kind ≡ kind_eof)

  -- The headers are read one after the other, then no item is found, and then the body is read.
  abbrev pub ReadsHeaders : List Field → Bytes → Cursor → Type 0
  ReadsHeaders [] body c =
      (c' : Cursor) × (az_http_response_get_next_header m c ≡ fail item_not_found c')
      × ReadsBody body c'.self
  ReadsHeaders (f ∷ fs) body c =
      (c' : Cursor) × (az_http_response_get_next_header m c ≡ done tt c')
      × Views m c'.out.key f.name
      × Views m c'.out.value f.value
      × ReadsHeaders fs body c'

  -- The status line is read, then the headers and then the body.
  abbrev pub ReadsMessage : Message → Response → Type 0
  ReadsMessage msg self =
      (out : StatusLine) × (self' : Response) × (az_http_response_get_status_line m self
        ≡ done out self')
      × TellsLine m msg.major msg.minor msg.code msg.reason out
      × ((pair : Pair) → ReadsHeaders msg.fields msg.body (record { self = self'; out = pair }))

  next_field :
      (f : Field) (rest : Bytes) (c : Cursor)
      → IsField f
      → c.self.next_kind ≡ kind_header
      → Views m c.self.remaining (field_text f rest)
      → (c' : Cursor) × (az_http_response_get_next_header m c ≡ done tt c')
        × ReadField m f rest c c'
  unfolding az_http_response_get_next_header
  next_field f rest c h k v =
      let (c', e, r) = read_header_lem m f rest c h v in
      (c', subst (λ kind. next_header m kind c ≡ done tt c') (sym k) e, r)

  no_field :
      (body : Bytes) (c : Cursor)
      → c.self.next_kind ≡ kind_header
      → Views m c.self.remaining (b'\r' ∷ b'\n' ∷ body)
      → (s : Span) × (az_http_response_get_next_header m c
          ≡ fail item_not_found
              (record c { self = record c.self { remaining = s; next_kind = kind_body } }))
        × Views m s body
  unfolding az_http_response_get_next_header
  no_field body c k v =
      let (s, e, v') = end_of_headers m body c v in
      let c' : Cursor = record c {
        self = record c.self { remaining = s; next_kind = kind_body };
      } in
      (s, subst (λ kind. next_header m kind c ≡ fail item_not_found c') (sym k) e, v')

  ignore_headers_from_lem :
      (fs : List Field) (body : Bytes) (fuel : ℕ) (c : Cursor)
      → length fs < fuel
      → All IsField fs
      → c.self.next_kind ≡ kind_header
      → Views m c.self.remaining (fields_text fs body)
      → (c' : Cursor) × (ignore_headers_from m fuel c ≡ done tt c')
        × (c'.self.http_response ≡ c.self.http_response)
        × Views m c'.self.remaining body
  unfolding ignore_headers_from
  ignore_headers_from_lem fs body zero c lt h k v = absurd (omega (arith, lt))
  ignore_headers_from_lem [] body (suc fuel) c lt h k v =
      let (s, e, v') = no_field body c k v in
      (
        record c { self = record c.self { remaining = s; next_kind = kind_body } },
        rw (e, ignore_headers_from),
        refl,
        v',
      )
  ignore_headers_from_lem (f ∷ fs) body (suc fuel) c lt (h, hs) k v =
      let (c1, e, r) = next_field f (fields_text fs body) c h k v in
      let (c2, e2, same, v2) =
        ignore_headers_from_lem fs body fuel c1 (omega (arith, lt)) hs
          (ap (λ (x : Response). x.next_kind) r.kept ∙ k) r.remaining in
      (c2, rw (e, ignore_headers_from) e2, same ∙ ap (λ (x : Response). x.http_response) r.kept, v2)

  ignore_headers_lem :
      (fs : List Field) (body : Bytes) (self : Response)
      → All IsField fs
      → self.next_kind ≡ kind_header
      → Views m self.remaining (fields_text fs body)
      → (self' : Response) × (ignore_headers m self ≡ done tt self')
        × (self'.http_response ≡ self.http_response)
        × Views m self'.remaining body
  unfolding ignore_headers
  ignore_headers_lem fs body self h k v =
      let (c, e, same, v') =
        ignore_headers_from_lem fs body (suc self.remaining.len)
          (record { self = self; out = record { key = az_span_null; value = az_span_null } })
          (omega (arith, v.count, length-fields_text fs body)) h k v in
      (c.self, rw (e, ignore_headers), same, v')

  module _ (msg : Message) (h : IsMessage msg) (self : Response) where
    -- The status line of a response is read, from wherever it stands, and its headers are next.
    get_status_line_lem :
        Views m self.http_response (message_text msg)
        → (out : StatusLine) × (s : Span) × (az_http_response_get_status_line m self
            ≡ done out (record self { remaining = s; next_kind = kind_header }))
          × TellsLine m msg.major msg.minor msg.code msg.reason out
          × Views m s (fields_text msg.fields msg.body)
    unfolding az_http_response_get_status_line
    get_status_line_lem v =
        let (out, s, e, tells, v') =
          Gives-az_get_http_status_line m msg.major msg.minor msg.code msg.reason
            (fields_text msg.fields msg.body) h.line self.http_response v in
        (out, s, rw (e, ◌>>=◌), tells, v')

    from_start :
        Views m self.http_response (message_text msg)
        → (self' : Response) × (reach_body m kind_eof self ≡ done tt self')
          × (self'.http_response ≡ self.http_response)
          × Views m self'.remaining msg.body
    unfolding reach_body
    from_start v =
        let (out, s, e, tells, v') = get_status_line_lem v in
        let r : Response = record self { remaining = s; next_kind = kind_header } in
        let (r', e', same, w) = ignore_headers_lem msg.fields msg.body r h.fields refl v' in
        (r', rw (e, ◌>>=◌) e', same, w)

    reach_body_lem :
        (fs : List Field) (kind : Kind)
        → All IsField fs
        → self.next_kind ≡ kind
        → Stands msg fs self kind
        → (self' : Response) × (reach_body m kind self ≡ done tt self')
          × (self'.http_response ≡ self.http_response)
          × Views m self'.remaining msg.body
    unfolding reach_body
    reach_body_lem fs kind_status_line hs k v = from_start v
    reach_body_lem fs kind_header hs k v = ignore_headers_lem fs msg.body self hs k v
    reach_body_lem fs kind_body hs k v = (self, refl, refl, v)
    reach_body_lem fs kind_eof hs k v = from_start v

    -- The body of a message is read from wherever the response stands: in front of the message, of
    -- some of its headers, of its body, or at the end. The response then stands at the end.
    pub az_http_response_get_body_lem :
        (fs : List Field) (kind : Kind)
        → All IsField fs
        → self.next_kind ≡ kind
        → Stands msg fs self kind
        → ReadsBody msg.body self
    unfolding az_http_response_get_body
    az_http_response_get_body_lem fs kind hs k v =
        let (r, e, same, w) = reach_body_lem fs kind hs k v in
        let e' : reach_body m self.next_kind self ≡ done tt r =
          subst (λ x. reach_body m x self ≡ done tt r) (sym k) e in
        let s = az_span_slice r.remaining 0 to_end in
        (
          s,
          record r { next_kind = kind_eof },
          rw (e', ◌>>=◌) refl,
          (Views-az_span_slice 0 to_end msg.body w).0,
          same,
          refl,
        )

  headers_read :
      (msg : Message) (h : IsMessage msg) (fs : List Field) (c : Cursor)
      → All IsField fs
      → c.self.next_kind ≡ kind_header
      → Views m c.self.remaining (fields_text fs msg.body)
      → ReadsHeaders fs msg.body c
  headers_read msg h [] c hs k v =
      let (s, e, v') = no_field msg.body c k v in
      let r : Response = record c.self { remaining = s; next_kind = kind_body } in
      (record c { self = r }, e, az_http_response_get_body_lem msg h r [] kind_body tt refl v')
  headers_read msg h (f ∷ fs) c (p, ps) k v =
      let (c', e, r) = next_field f (fields_text fs msg.body) c p k v in
      (
        c',
        e,
        r.key,
        r.value,
        headers_read msg h fs c' ps (ap (λ (x : Response). x.next_kind) r.kept ∙ k) r.remaining,
      )

  -- A response that holds a message is read back: the status line gives the versions, the code and
  -- the reason; the calls for the next header give the headers in order, each with its name and its
  -- value without the white space around it, then that no item was found; then the body is read.
  pub response_reads :
      (msg : Message) (self : Response)
      → IsMessage msg
      → Views m self.http_response (message_text msg)
      → ReadsMessage msg self
  response_reads msg self h v =
      let (out, s, e, tells, v') = get_status_line_lem msg h self v in
      let r : Response = record self { remaining = s; next_kind = kind_header } in
      (
        out,
        r,
        e,
        tells,
        λ pair. headers_read msg h msg.fields (record { self = r; out = pair }) h.fields refl v',
      )
