-- ===== src/Http/Request/Init.antt =====
-- `az_http_request_init`: where it sees the query of a URL, and what follows from that.
use azure_sdk_for_c.Base.{
  ℕ, suc, ◌+◌, ◌-◌, ◌/◌, ◌≤◌, ◌<◌, true, ltb, ◌==◌, ◌&&◌, lt→ltb, lt→leb_false, ne→==_false,
  if◌then◌else◌, Bool-cases, Bytes, [], ◌∷◌, ◌++◌, All, length, length-append, take-append,
  drop-append, ◌≡◌, ◌≢◌, refl, sym, ap, subst, ◌∙◌, arith, inl, inr, some,
}
use azure_sdk_for_c.Http.Request.{
  Request, Layout, Store, az_is_question_mark, find_query_start, az_http_request_init,
  az_http_request_append_path,
}
use azure_sdk_for_c.Memory.{Memory, Holds}
use azure_sdk_for_c.Result.{
  Outcome, fault, hang, fail, done, ◌>>=◌, when◌then◌else◌, arg, item_not_found, az_ok, az_continue,
}
use azure_sdk_for_c.Http.Request.Path.{
  IsUrl, path_index, inserted, with_path, az_http_request_append_path_lem,
}
use azure_sdk_for_c.Source.{Source}
use azure_sdk_for_c.Span.Write.Copy.{IsBuilder}
use azure_sdk_for_c.Span.Write.Given.{Given}
use azure_sdk_for_c.Span.Write.Replace.{valid_at}
use azure_sdk_for_c.Span.Read.{scan_from, az_scan_until}
use azure_sdk_for_c.Span.{Span, Views, az_span_slice, az_span_drop, to_end, peek, az_span_is_valid}
use native.Mathlib.Nat.{add-zero}

slice_ptr : (s : Span) (i : ℕ) → i < s.capacity → (az_span_slice s i to_end).ptr ≡ s.ptr + i
unfolding az_span_slice az_span_drop
slice_ptr s i h = rw (lt→leb_false s.capacity i h)

question_mark_lem :
    (s : Span) (c : ℕ) (m : Memory)
    → m s.ptr ≡ some c
    → az_is_question_mark s m ≡ done (if c == b'?' then az_ok else az_continue) m
unfolding az_is_question_mark peek
question_mark_lem s c m h = rw (h, az_is_question_mark, peek)

-- What the scan finds in the bytes from index `i` on.
found : Bytes → ℕ → Memory → Outcome Memory ℕ
found [] i m = fail item_not_found m
found (c ∷ cs) i m = if c == b'?' then done i m else found cs (suc i) m

scan_lem :
    (rest : Bytes) (url : Span) (i : ℕ) (m : Memory)
    → Holds m (url.ptr + i) rest
    → i + length rest ≤ url.capacity
    → scan_from az_is_question_mark url (length rest) i m ≡ found rest i m
unfolding scan_from found
scan_lem [] url i m h f = refl
scan_lem (c ∷ cs) url i m (h, hs) f =
    let verdict : az_is_question_mark (az_span_slice url i to_end) m
        ≡ done (if c == b'?' then az_ok else az_continue) m =
      question_mark_lem (az_span_slice url i to_end) c m (rw (slice_ptr url i (omega arith)) h) in
    let next : url.ptr + suc i ≡ suc (url.ptr + i) = omega arith in
    let later = scan_lem cs url (suc i) m (rw next hs) (omega arith) in
    elim (Bool-cases (c == b'?')) [
      | inl mark ↦ rw (verdict, ◌>>=◌) (rw mark)
      | inr other ↦ rw (verdict, ◌>>=◌) (rw other later)
    ]

-- The index of the first question mark, counted from `i` on; 0 if there is none.
abbrev pub query_index : Bytes → ℕ → ℕ
query_index [] i = 0
query_index (c ∷ cs) i = if c == b'?' then i else query_index cs (suc i)

abbrev or_start : Outcome Memory ℕ → Outcome Memory ℕ
or_start fault = fault
or_start hang = hang
or_start (fail e m) = done 0 m
or_start (done i m) = done i m

found_index :
    (rest : Bytes) (i : ℕ) (m : Memory) → or_start (found rest i m) ≡ done (query_index rest i) m
unfolding found
found_index [] i m = refl
found_index (c ∷ cs) i m = elim (Bool-cases (c == b'?')) [
  | inl mark ↦ rw mark
  | inr other ↦ rw other (found_index cs (suc i) m)
]

find_query_start_lem :
    (url : Span) (bs : Bytes) (m : Memory)
    → Views m url bs
    → find_query_start url m ≡ done (query_index bs 0) m
unfolding find_query_start az_scan_until
find_query_start_lem url bs m v =
    let whole : scan_from az_is_question_mark url url.len 0 m ≡ found bs 0 m =
      subst (λ n. scan_from az_is_question_mark url n 0 m ≡ found bs 0 m) (sym v.count)
        (scan_lem bs url 0 m (rw add-zero v.holds) (omega (arith, v.count, v.fits))) in
    rw (whole, find_query_start, az_scan_until) (found_index bs 0 m)

module _ (layout : Layout) where
  -- A request is initialized, from valid spans, with the index of the first question mark of its URL
  -- as the start of the query, or with 0 if there is no question mark, and has no other state than
  -- its arguments; a span that is not valid is an argument error.
  pub az_http_request_init_lem :
      (method url headers body : Span) (bs : Bytes) (m : Memory)
      → Views m url bs
      → az_http_request_init layout method url headers body m ≡ (
          if az_span_is_valid method && az_span_is_valid url && az_span_is_valid headers
          then done
              (record {
                method = method;
                url = url;
                query_start = query_index bs 0;
                headers = headers;
                max_headers = headers.capacity / layout.size;
                retry_headers_start_byte_offset = 0;
                body = body;
              })
              m
          else fail arg m)
  unfolding az_http_request_init
  az_http_request_init_lem method url headers body bs m v =
      elim (Bool-cases (az_span_is_valid method)) [
        | inr bad ↦ rw bad
        | inl fine1 ↦ elim (Bool-cases (az_span_is_valid url)) [
          | inr bad ↦ rw (fine1, bad)
          | inl fine2 ↦ elim (Bool-cases (az_span_is_valid headers)) [
            | inr bad ↦ rw (fine1, fine2, bad)
            | inl fine3 ↦ rw (fine1, fine2, fine3) (rw (find_query_start_lem url bs m v, ◌>>=◌))
          ]
        ]
      ]

query_index_first :
    (xs : Bytes) (c : ℕ) (ys : Bytes) (i : ℕ)
    → All (λ x. x ≢ b'?') xs
    → c ≢ b'?'
    → query_index (xs ++ (c ∷ b'?' ∷ ys)) i ≡ i + length xs + 1
query_index_first [] c ys i h n = rw (ne→==_false c b'?' n) (omega arith)
query_index_first (x ∷ xs) c ys i (h, hs) n =
    rw (ne→==_false x b'?' h) (query_index_first xs c ys (suc i) hs n ∙ omega arith)

-- The path of such a URL is taken to end a byte early.
early :
    (xs : Bytes) (c : ℕ) (ys : Bytes) (n : ℕ)
    → All (λ x. x ≢ b'?') xs
    → c ≢ b'?'
    → (if ltb 0 (query_index (xs ++ (c ∷ b'?' ∷ ys)) 0)
        then query_index (xs ++ (c ∷ b'?' ∷ ys)) 0 - 1
        else n)
      ≡ length xs
early xs c ys n h k =
    rw (query_index_first xs c ys 0 h k)
      (rw (lt→ltb 0 (0 + length xs + 1) (omega arith)) (omega arith))

split_at : (xs new ys : Bytes) → inserted (length xs) new (xs ++ ys) ≡ xs ++ (new ++ ys)
split_at xs new ys = rw (take-append xs ys, drop-append xs ys)

module _ (layout : Layout) where
  -- A path that is appended to a request, initialized with a URL that has a query already, does not
  -- go in front of the question mark, but a byte earlier: between the bytes of `xs` and the byte `c`
  -- that stands before the first question mark.
  pub append_path-init :
      (method url headers body : Span) (xs ys : Bytes) (c : ℕ) (path : Source) (ps : Bytes)
      (m : Memory)
      → az_span_is_valid method ≡ true
      → az_span_is_valid headers ≡ true
      → IsBuilder m url
      → 0 < url.ptr
      → All (λ x. x ≢ b'?') xs
      → c ≢ b'?'
      → Views m url (xs ++ (c ∷ b'?' ∷ ys))
      → Given path ps (record { mem = m; self = url })
      → url.len + 1 + length ps ≤ url.capacity
      → (r : Request) × (self : Store) × (az_http_request_init layout method url headers body m
          ≡ done r m)
        × (az_http_request_append_path path (record { mem = m; request = r }) ≡ done tt self)
        × Views self.mem self.request.url (xs ++ ((b'/' ∷ ps) ++ (c ∷ b'?' ∷ ys)))
  append_path-init method url headers body xs ys c path ps m v1 v2 b loc no_mark c_no v g room =
      let bs = xs ++ (c ∷ b'?' ∷ ys) in
      let r : Request = record {
        method = method;
        url = url;
        query_start = query_index bs 0;
        headers = headers;
        max_headers = headers.capacity / layout.size;
        retry_headers_start_byte_offset = 0;
        body = body;
      } in
      let place : path_index r ≡ length xs = early xs c ys url.len no_mark c_no in
      let u : IsUrl (record { mem = m; request = r }) bs = record {
        ready = record { buffer = b.buffer; within = b.within };
        located = loc;
        views = v;
      } in
      elim (az_http_request_append_path_lem path ps (record { mem = m; request = r }) bs u g
        (omega (arith, place, length-append xs (c ∷ b'?' ∷ ys)))) [
          | inr (full, self, e, out) ↦ absurd (omega arith)
          | inl (fits, m', e, u', k) ↦ (
            r,
            with_path (record { mem = m; request = r }) m' ps,
            az_http_request_init_lem layout method url headers body bs m v
                ∙ rw (v1, valid_at url loc, v2),
            e,
            subst
                (λ zs. Views m' (with_path (record { mem = m; request = r }) m' ps).request.url zs)
                (ap (λ i. inserted i (b'/' ∷ ps) bs) place
                  ∙ split_at xs (b'/' ∷ ps) (c ∷ b'?' ∷ ys))
                u'.views,
          )
        ]
