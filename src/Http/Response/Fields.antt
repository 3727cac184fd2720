-- ===== src/Http/Response/Fields.antt =====
-- What is read of a header.
use azure_sdk_for_c.Base.{
  ℕ, ◌+◌, ◌<◌, true, false, not, ◌==◌, Bytes, [], ◌∷◌, ◌++◌, drop-append, length, append_assoc, ◌≡◌,
  refl, subst, arith,
}
use azure_sdk_for_c.Base.Int.{pos}
use azure_sdk_for_c.Http.Response.Line.{
  Tests-az_is_char, Yields-scan, Yields-skip_past, slice_first,
}
use azure_sdk_for_c.Http.Response.Value.{StartsVisible, EndsVisible, IsSpace, value_from_start}
use azure_sdk_for_c.Http.Response.{
  Cursor, kind_body, az_is_char, az_is_http_whitespace, az_slice_is_not_http_whitespace, scan,
  on_reader, value_from, max_rounds, read_name, read_value, read_header,
}
use azure_sdk_for_c.Memory.{Memory}
use azure_sdk_for_c.Result.{Run, done, fail, ◌>>=◌, when◌then◌else◌, item_not_found}
use azure_sdk_for_c.Span.Read.Expected.{Yields-az_is_expected_span}
use azure_sdk_for_c.Span.Read.Scan.{Tests, Rejects}
use azure_sdk_for_c.Span.Read.{az_is_expected_span}
use azure_sdk_for_c.Span.Yields.{Yields, Yields-peek, Yields-skip}
use azure_sdk_for_c.Span.{Span, Views, az_span_slice, peek, skip}

-- A header: its name, the white space in front of its value, the value, and the white space behind it.
pub record Field : Type 0 where
  pub name : Bytes
  pub before : Bytes
  pub value : Bytes
  pub after : Bytes

-- The line of the header, and what follows.
abbrev pub field_text : Field → Bytes → Bytes
field_text f rest =
    f.name ++ (b':' ∷ (f.before ++ (f.value ++ (f.after ++ (b'\r' ∷ b'\n' ∷ rest)))))

-- A name does not start with a carriage return, which would end the headers.
abbrev pub StartsName : Bytes → Type 0
StartsName [] = Unit {0}
StartsName (c ∷ cs) = (c == b'\r') ≡ false

pub record IsField (f : Field) : Type 0 where
  pub name_start : StartsName f.name
  pub name_token : Rejects (λ c. c == b':') f.name
  pub before_space : IsSpace f.before
  pub value_start : StartsVisible f.value f.after
  pub value_end : EndsVisible f.value
  pub after_space : IsSpace f.after
  pub short : length f.value + length f.after < 0x8000_0000

module _ (m : Memory) where
  -- A run on the reader of a cursor.
  step :
      {A : Type 0} (run : Run Span A) (bs : Bytes) (a : A) (rest : Bytes) (c : Cursor)
      → Yields m run bs a rest
      → Views m c.self.remaining bs
      → (s : Span) × (on_reader run c
          ≡ done a (record c { self = record c.self { remaining = s } }))
        × Views m s rest
  step run bs a rest c f v = let (s, e, v') = f c.self.remaining v in (s, rw (e, on_reader), v')

  Tests-not_space :
      {S : Type 0}
      → Tests {S = S} m (az_slice_is_not_http_whitespace m) (λ c. not (az_is_http_whitespace c))
  unfolding az_slice_is_not_http_whitespace
  Tests-not_space slice b bs s v = rw (v.holds.0, ◌>>=◌) (ground arith)

  Rejects-space : (bs : Bytes) → IsSpace bs → Rejects (λ c. not (az_is_http_whitespace c)) bs
  Rejects-space [] h = tt
  Rejects-space (c ∷ cs) (h, hs) = (rw h, Rejects-space cs hs)

  -- The byte behind the white space in front of a value.
  first_behind :
      (value after rest : Bytes)
      → StartsVisible value after
      → (b : ℕ) × (more : Bytes) × (value ++ (after ++ (b'\r' ∷ rest)) ≡ b ∷ more)
        × (not (az_is_http_whitespace b) ≡ true)
  unfolding az_is_http_whitespace
  first_behind [] after rest e = (b'\r', rest, rw e, refl)
  first_behind (c ∷ cs) after rest v = (c, cs ++ (after ++ (b'\r' ∷ rest)), refl, ground (arith, v))

  Yields-spaces :
      (before value after rest : Bytes)
      → IsSpace before
      → StartsVisible value after
      → let bs = before ++ (value ++ (after ++ (b'\r' ∷ rest))) in
        Yields m (scan (az_slice_is_not_http_whitespace m)) bs (length before) bs
  Yields-spaces before value after rest sp st =
      let (b, more, e, ok) = first_behind value after rest st in
      rw e (
        Yields-scan m (az_slice_is_not_http_whitespace m) (λ c. not (az_is_http_whitespace c))
          before b more Tests-not_space (Rejects-space before sp) ok)

  Yields-skip_all : (xs rest : Bytes) → Yields m (skip (length xs)) (xs ++ rest) tt rest
  Yields-skip_all xs rest =
      subst (λ r. Yields m (skip (length xs)) (xs ++ rest) tt r) (drop-append xs rest)
        (Yields-skip m (length xs) (xs ++ rest))

  module _ (f : Field) (h : IsField f) (rest : Bytes) (c : Cursor) where
    abbrev value_text : Bytes
    value_text = f.value ++ (f.after ++ (b'\r' ∷ b'\n' ∷ rest))

    read_name_lem :
        Views m c.self.remaining (field_text f rest)
        → (s k : Span) × (read_name m c
            ≡ done tt
                (record { self = record c.self { remaining = s }; out = record c.out { key = k } }))
          × Views m k f.name
          × Views m s value_text
    unfolding read_name
    read_name_lem v =
        let name = f.name in
        let (s1, e1, v1) =
          step (scan (az_is_char m b':')) (field_text f rest) (length name) (field_text f rest) c
            (Yields-scan m (az_is_char m b':') (λ b. b == b':') name b':' _
              (Tests-az_is_char m b':') h.name_token refl)
            v in
        let k = az_span_slice s1 0 (pos (length name)) in
        let behind = f.before ++ value_text in
        let c2 : Cursor = record {
          self = record c.self { remaining = s1 };
          out = record c.out { key = k };
        } in
        let (s3, e3, v3) =
          step (skip (length name + 1)) (field_text f rest) tt behind c2
            (Yields-skip_past m name b':' behind) v1 in
        let c3 : Cursor = record c2 { self = record c.self { remaining = s3 } } in
        let (s4, e4, v4) =
          step (scan (az_slice_is_not_http_whitespace m)) behind (length f.before) behind c3
            (Yields-spaces f.before f.value f.after (b'\n' ∷ rest) h.before_space h.value_start)
            v3 in
        let c4 : Cursor = record c2 { self = record c.self { remaining = s4 } } in
        let (s5, e5, v5) =
          step (skip (length f.before)) behind tt value_text c4
            (Yields-skip_all f.before value_text) v4 in
        (s5, k, rw (e1, ◌>>=◌) (rw (e3, ◌>>=◌) (rw (e4, ◌>>=◌) e5)), slice_first m name _ s1 v1, v5)

    read_value_lem :
        Views m c.self.remaining value_text
        → (s k : Span) × (read_value m c
            ≡ done tt (record {
              self = record c.self { remaining = s };
              out = record c.out { value = k };
            }))
          × Views m k f.value
          × Views m s (b'\n' ∷ rest)
    unfolding read_value
    read_value_lem v =
        let value = f.value in
        let line = value ++ f.after in
        let r = c.self.remaining in
        let k = az_span_slice r 0 (pos (length value)) in
        let whole : line ++ (b'\r' ∷ b'\n' ∷ rest) ≡ value_text =
          append_assoc value f.after (b'\r' ∷ b'\n' ∷ rest) in
        let e1 : value_from m max_rounds 0 0 r ≡ done (length line + 1, length value) r =
          value_from_start m r (b'\n' ∷ rest) value f.after h.value_start h.value_end h.after_space
            v.holds h.short in
        let c2 : Cursor = record c { out = record c.out { value = k } } in
        let (s3, e3, v3) =
          step (skip (length line + 1)) value_text tt (b'\n' ∷ rest) c2
            (subst (λ bs. Yields m (skip (length line + 1)) bs tt (b'\n' ∷ rest)) whole
              (Yields-skip_past m line b'\r' (b'\n' ∷ rest)))
            v in
        (s3, k, rw (e1, ◌>>=◌) (rw e3), slice_first m value _ r v, v3)

  -- The byte that a header starts with is no carriage return.
  peek_name :
      (name rest : Bytes)
      → StartsName name
      → let bs = name ++ (b':' ∷ rest) in
        (b : ℕ) × Yields m (peek m) bs b bs × ((b == b'\r') ≡ false)
  peek_name [] rest h = (b':', Yields-peek m b':' rest, refl)
  peek_name (c ∷ cs) rest h = (c, Yields-peek m c (cs ++ (b':' ∷ rest)), h)

  module _ (f : Field) (rest : Bytes) (c : Cursor) where
    -- The cursor behind a header: its name and its value are in the pair, and the reader has moved.
    pub record ReadField (c' : Cursor) : Type 0 where
      pub key : Views m c'.out.key f.name
      pub value : Views m c'.out.value f.value
      pub remaining : Views m c'.self.remaining rest
      pub kept : c'.self ≡ record c.self { remaining = c'.self.remaining }

    pub read_header_lem :
        IsField f
        → Views m c.self.remaining (field_text f rest)
        → (c' : Cursor) × (read_header m c ≡ done tt c') × ReadField c'
    unfolding read_header
    read_header_lem h v =
        let text = field_text f rest in
        let (b, peeks, ne) =
          peek_name f.name (f.before ++ (f.value ++ (f.after ++ (b'\r' ∷ b'\n' ∷ rest))))
            h.name_start in
        let (s0, e0, v0) = step (peek m) text b text c peeks v in
        let c1 : Cursor = record c { self = record c.self { remaining = s0 } } in
        let (s1, k, e1, kv, v1) = read_name_lem f h rest c1 v0 in
        let c2 : Cursor = record {
          self = record c.self { remaining = s1 };
          out = record c.out { key = k };
        } in
        let (s2, x, e2, xv, v2) = read_value_lem f h rest c2 v1 in
        let c3 : Cursor = record {
          self = record c.self { remaining = s2 };
          out = record { key = k; value = x };
        } in
        let (s3, e3, v3) =
          step (az_is_expected_span m (b'\n' ∷ [])) (b'\n' ∷ rest) tt rest c3
            (Yields-az_is_expected_span m (b'\n' ∷ []) rest) v2 in
        (
          record { self = record c.self { remaining = s3 }; out = record { key = k; value = x } },
          rw (e0, ◌>>=◌, ne, when◌then◌else◌) (rw (e1, ◌>>=◌) (rw (e2, ◌>>=◌) e3)),
          record { key = kv; value = xv; remaining = v3; kept = refl },
        )

  pub end_of_headers :
      (body : Bytes) (c : Cursor)
      → Views m c.self.remaining (b'\r' ∷ b'\n' ∷ body)
      → (s : Span) × (read_header m c
          ≡ fail item_not_found
              (record c { self = record c.self { remaining = s; next_kind = kind_body } }))
        × Views m s body
  unfolding read_header
  end_of_headers body c v =
      let bs = b'\r' ∷ b'\n' ∷ body in
      let (s0, e0, v0) = step (peek m) bs b'\r' bs c (Yields-peek m b'\r' (b'\n' ∷ body)) v in
      let c1 : Cursor = record c { self = record c.self { remaining = s0 } } in
      let (s1, e1, v1) =
        step (az_is_expected_span m (b'\r' ∷ b'\n' ∷ [])) bs tt body c1
          (Yields-az_is_expected_span m (b'\r' ∷ b'\n' ∷ []) body) v0 in
      (s1, rw (e0, ◌>>=◌, when◌then◌else◌) (rw (e1, ◌>>=◌)), v1)
