-- ===== src/Log/RequestText.antt =====
-- The text of a message about a request.
use azure_sdk_for_c.Base.{
  ℕ, zero, suc, ◌+◌, ◌/◌, true, ltb, if◌then◌else◌, Bool-cases, some, List, Bytes, [], ◌∷◌, ◌++◌,
  get_elem?, length, ◌≡◌, refl, sym, ap, ◌∙◌, subst, arith, inl, inr,
}
use azure_sdk_for_c.Base.Int.{pos}
use azure_sdk_for_c.Base.Text.{ascii}
use azure_sdk_for_c.Http.Request.{
  Pair, Layout, IsLayout, Request, Store, az_http_request_get_header,
}
use azure_sdk_for_c.Http.Request.Headers.{
  IsHeaders, encode_all, looked_up, count_lem, az_http_request_get_header_lem,
}
use azure_sdk_for_c.Log.RequestMessage.{
  append_tabs, append_value_part, header_of, append_headers, request_part, az_log_http_request_msg,
}
use azure_sdk_for_c.Log.Values.{shortened, value-Emits}
use azure_sdk_for_c.Memory.{readable, filled}
use azure_sdk_for_c.Memory.Changes.{Changes-readable}
use azure_sdk_for_c.Result.{done, when◌then◌else◌}
use azure_sdk_for_c.Source.{at}
use azure_sdk_for_c.Span.{Span}
use azure_sdk_for_c.Span.Write.Emits.{
  IsOpen, Appends, Emits, Emits-Appends, Emits-literal, Emits-from, Emits-seq, Emits-return,
  Emits-Ready, Emits-known, Keeps,
}
use azure_sdk_for_c.Span.Write.Given.{Given, Keeps-Given, Emits-Given}
use azure_sdk_for_c.Span.Write.{Target, append_to}

-- A header with the contents of its spans.
pub record Entry : Type 0 where
  pub pair : Pair
  pub key : Bytes
  pub value : Bytes

abbrev pub pairs_of : List Entry → List Pair
pairs_of [] = []
pairs_of (e ∷ es) = e.pair ∷ pairs_of es

pub record EntryGiven (e : Entry) (t : Target) : Type 0 where
  pub key_given : Given (at e.pair.key) e.key t
  pub value_given : Given (at e.pair.value) e.value t

abbrev pub AllGiven : List Entry → Target → Type 0
AllGiven [] t = Unit {0}
AllGiven (e ∷ es) t = EntryGiven e t × AllGiven es t

abbrev pub tabs : ℕ → Bytes
tabs zero = []
tabs (suc n) = ascii "\t" ++ tabs n

-- The value of a header that has one.
abbrev pub value_part : Bytes → Bytes
value_part v = if ltb 0 (length v) then ascii " : " ++ shortened v else []

abbrev pub entry_text : ℕ → Entry → Bytes
entry_text indent e = ascii "\n\t\t" ++ (tabs indent ++ (e.key ++ value_part e.value))

abbrev pub entries_text : ℕ → List Entry → Bytes
entries_text indent [] = []
entries_text indent (e ∷ es) =
    ascii "\n\t\t" ++ (tabs indent ++ (e.key ++ (value_part e.value ++ entries_text indent es)))

module _ (Ready : Target → Type 0) (keep : Keeps Ready) where
  tabs-Emits : (n : ℕ) → Emits Ready (append_tabs n) (tabs n)
  unfolding append_tabs
  tabs-Emits zero = Emits-return Ready
  tabs-Emits (suc n) = Emits-seq Ready keep (Emits-literal Ready _) (tabs-Emits n)

module _ (value : Span) (v : Bytes) where
  -- The text, with a number for the length of the value.
  abbrev part_of : ℕ → Bytes
  part_of n = if ltb 0 n then ascii " : " ++ shortened v else []

  some-Emits : Emits (Given (at value) v) (append_value_part value) (part_of value.len)
  unfolding append_value_part
  some-Emits = elim (Bool-cases (ltb 0 value.len)) [
    | inl filled ↦ rw filled (
        Emits-seq (Given (at value) v) (Keeps-Given (at value) v) (Emits-literal _ _)
          (value-Emits value v))
    | inr empty ↦ rw empty (Emits-return _)
  ]

  value_part-Emits : Emits (Given (at value) v) (append_value_part value) (value_part v)
  value_part-Emits = Emits-from _ (append_value_part value) (value_part v) (λ t g.
      subst (λ n. Emits (Given (at value) v) (append_value_part value) (part_of n)) g.provides.count
        some-Emits)

module _ (layout : Layout) (laws : IsLayout layout) (hrb : Request) (mth u : Bytes)
    (es : List Entry) where
  -- All that a message about a request reads stands outside of the buffer of the message.
  pub record RequestGiven (t : Target) : Type 0 where
    pub method_given : Given (at hrb.method) mth t
    pub url_given : Given (at hrb.url) u t
    pub headers_given : Given (at hrb.headers) (encode_all layout laws (pairs_of es)) t
    pub headers_readable : readable t.mem hrb.headers.ptr hrb.headers.capacity ≡ true
    pub entries_given : AllGiven es t

  Keeps-AllGiven : (xs : List Entry) → Keeps (AllGiven xs)
  Keeps-AllGiven [] t t' bs x h r = tt
  Keeps-AllGiven (e ∷ xs) t t' bs x h (r, rs) = (
    record {
      key_given = Keeps-Given (at e.pair.key) e.key t t' bs x h r.key_given;
      value_given = Keeps-Given (at e.pair.value) e.value t t' bs x h r.value_given;
    },
    Keeps-AllGiven xs t t' bs x h rs,
  )

  Keeps-RequestGiven : Keeps RequestGiven
  Keeps-RequestGiven t t' bs x h r = record {
    method_given = Keeps-Given (at hrb.method) mth t t' bs x h r.method_given;
    url_given = Keeps-Given (at hrb.url) u t t' bs x h r.url_given;
    headers_given = Keeps-Given (at hrb.headers) _ t t' bs x h r.headers_given;
    headers_readable = Changes-readable _ _ x.changes r.headers_readable;
    entries_given = Keeps-AllGiven es t t' bs x h r.entries_given;
  }

  given-IsHeaders :
      (t : Target)
      → RequestGiven t
      → IsHeaders layout laws (record { mem = t.mem; request = hrb }) (pairs_of es)
  given-IsHeaders t r = record {
    ready = record { buffer = r.headers_readable; within = r.headers_given.provides.fits };
    views = r.headers_given.provides;
  }

  header_of_lem :
      (index : ℕ) (p : Pair) (t : Target)
      → get_elem? (pairs_of es) index ≡ some p
      → RequestGiven t
      → header_of layout hrb index t ≡ done p t
  unfolding header_of
  header_of_lem index p t e r =
      let self : Store = record { mem = t.mem; request = hrb } in
      let found : az_http_request_get_header layout (pos index) self ≡ done p self =
        az_http_request_get_header_lem layout laws self (pairs_of es) index (given-IsHeaders t r)
        ∙ ap (λ o. looked_up layout laws o self) e in
      rw (found, header_of) refl

  entry-Emits :
      (e : Entry)
      → ((t : Target) → RequestGiven t → EntryGiven e t)
      → Emits RequestGiven (append_to (at e.pair.key)) e.key
        × Emits RequestGiven (append_value_part e.pair.value) (value_part e.value)
  entry-Emits e given = (
    Emits-Ready (λ t r. (given t r).key_given) (Emits-Given (at e.pair.key) e.key),
    Emits-Ready (λ t r. (given t r).value_given) (value_part-Emits e.pair.value e.value),
  )

  -- The headers from an index on.
  entries-Emits :
      (indent : ℕ) (rest : List Entry) (index : ℕ)
      → ((i : ℕ) → get_elem? (pairs_of es) (index + i) ≡ get_elem? (pairs_of rest) i)
      → ((t : Target) → RequestGiven t → AllGiven rest t)
      → Emits RequestGiven
          (append_headers layout hrb indent (length (pairs_of rest)) index)
          (entries_text indent rest)
  unfolding append_headers
  entries-Emits indent [] index at_index given = Emits-return RequestGiven
  entries-Emits indent (e ∷ rest) index at_index given =
      let keep = Keeps-RequestGiven in
      let here : get_elem? (pairs_of es) index ≡ some e.pair =
        subst (λ n. get_elem? (pairs_of es) n ≡ some e.pair) (omega arith) (at_index 0) in
      let later : (i : ℕ) → get_elem? (pairs_of es) (suc index + i) ≡ get_elem? (pairs_of rest) i =
        λ i.
          subst (λ n. get_elem? (pairs_of es) n ≡ get_elem? (pairs_of rest) i) (omega arith)
            (at_index (suc i)) in
      let (key, value) = entry-Emits e (λ t r. (given t r).0) in
      Emits-seq RequestGiven keep (Emits-literal RequestGiven _) (
        Emits-seq RequestGiven keep (tabs-Emits RequestGiven keep indent) (
          Emits-known RequestGiven (header_of layout hrb index) _ e.pair _
            (λ t r. header_of_lem index e.pair t here r)
            (Emits-seq RequestGiven keep key (
              Emits-seq RequestGiven keep value
                (entries-Emits indent rest (suc index) later (λ t r. (given t r).1))))))

  abbrev pub request_text : ℕ → Bytes
  request_text indent =
      tabs indent
      ++ (ascii "HTTP Request : " ++ (mth ++ (ascii " " ++ (u ++ entries_text indent es))))

  headers-Emits :
      (indent : ℕ)
      → Emits RequestGiven
          (append_headers layout hrb indent (hrb.headers.len / layout.size) 0)
          (entries_text indent es)
  headers-Emits indent = Emits-from RequestGiven _ (entries_text indent es) (λ t g.
      subst
        (λ n. Emits RequestGiven (append_headers layout hrb indent n 0) (entries_text indent es))
        (sym (
          count_lem layout laws (pairs_of es) (record { mem = t.mem; request = hrb })
            (given-IsHeaders t g)))
        (entries-Emits indent es 0 (λ i. ap (λ n. get_elem? (pairs_of es) n) (omega arith))
          (λ t' r. r.entries_given)))

  pub request-Emits :
      (indent : ℕ)
      → Emits RequestGiven (az_log_http_request_msg layout (some hrb) indent) (request_text indent)
  unfolding az_log_http_request_msg request_part
  request-Emits indent =
      let keep = Keeps-RequestGiven in
      Emits-seq RequestGiven keep (tabs-Emits RequestGiven keep indent) (
        Emits-seq RequestGiven keep (Emits-literal RequestGiven _) (
          Emits-seq RequestGiven keep
            (Emits-Ready (λ t r. r.method_given) (Emits-Given (at hrb.method) mth))
            (Emits-seq RequestGiven keep (Emits-literal RequestGiven _) (
              Emits-seq RequestGiven keep
                (Emits-Ready (λ t r. r.url_given) (Emits-Given (at hrb.url) u))
                (headers-Emits indent)))))

  -- The message about a request has its method, its URL and each of its headers, in their order and
  -- indented, the value behind the name and cut to 50 bytes, where all of these stand outside of the
  -- buffer of the message. All of the text is appended if there is room for it; else the overflow is
  -- reported, and at most the unused part of the buffer has changed.
  pub az_log_http_request_msg_lem :
      (indent : ℕ) (t : Target)
      → IsOpen t
      → RequestGiven t
      → Appends (az_log_http_request_msg layout (some hrb) indent) t (request_text indent)
  az_log_http_request_msg_lem indent t b r = Emits-Appends RequestGiven t (request-Emits indent) b r
