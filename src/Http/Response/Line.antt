-- ===== src/Http/Response/Line.antt =====
-- What is read of a status line.
use azure_sdk_for_c.Base.{
  ℕ, suc, ◌+◌, ◌-◌, ◌≤◌, Bool, true, ◌==◌, Bytes, [], ◌∷◌, ◌++◌, drop, drop-append, take-append,
  length, length-append, append_assoc, ◌≡◌, refl, sym, ◌∙◌, subst, arith, le→leb,
}
use azure_sdk_for_c.Base.Int.{pos}
use azure_sdk_for_c.Http.Response.{
  StatusLine, az_is_char, az_get_digit, pred, scan, read_code, slice_of, http_name,
  az_get_http_status_line,
}
use azure_sdk_for_c.Memory.{Memory, Holds-left}
use azure_sdk_for_c.Result.{Run, done, ◌>>=◌, ◌>>◌, when◌then◌else◌, return, Success}
use azure_sdk_for_c.Source.{at}
use azure_sdk_for_c.Span.Read.Expected.{Yields-az_is_expected_span}
use azure_sdk_for_c.Span.Read.Scan.{Tests, Rejects, az_scan_until_finds}
use azure_sdk_for_c.Span.Read.Uint64.{all_digits, decimal, az_span_to_uint64_lem}
use azure_sdk_for_c.Span.Read.{isdigit, u64_max, az_is_expected_span}
use azure_sdk_for_c.Span.Slice.{Views-az_span_slice}
use azure_sdk_for_c.Span.Yields.{
  Yields, Yields-next, Yields-skip, Gives, Gives-bind, Gives-bind_some, Gives-return,
}
use azure_sdk_for_c.Span.{Span, Views, az_span_init, az_span_slice, skip}

-- `HTTP/major.minor code reason`, the end of the line, and what follows.
abbrev pub status_line_text : ℕ → ℕ → Bytes → Bytes → Bytes → Bytes
status_line_text major minor code reason rest =
    http_name
    ++ (major
        ∷ ((b'.' ∷ [])
            ++ (minor
                ∷ ((b' ' ∷ []) ++ (code ++ ((b' ' ∷ []) ++ (reason ++ (b'\r' ∷ b'\n' ∷ rest))))))))

-- Digits, three in the code, and a reason without a line feed.
pub record IsLine (major minor : ℕ) (code reason : Bytes) : Type 0 where
  pub major_digit : isdigit major ≡ true
  pub minor_digit : isdigit minor ≡ true
  pub three : length code ≡ 3
  pub code_digits : all_digits code ≡ true
  pub reason_line : Rejects (λ c. c == b'\n') reason

-- What `out` tells of the line.
pub record TellsLine (m : Memory) (major minor : ℕ) (code reason : Bytes) (out : StatusLine)
    : Type 0 where
  pub major_version : out.major_version ≡ major - b'0'
  pub minor_version : out.minor_version ≡ minor - b'0'
  pub status_code : out.status_code ≡ decimal 0 code
  pub reason_phrase : Views m out.reason_phrase reason

module _ (m : Memory) where
  Yields-az_get_digit :
      (c : ℕ) (rest : Bytes)
      → isdigit c ≡ true
      → Yields m (az_get_digit m) (c ∷ rest) (c - b'0') rest
  unfolding az_get_digit
  Yields-az_get_digit c rest h = Yields-next m _ c rest (c - b'0') rest (λ s v.
      let (s', e, v') = Yields-skip m 1 (c ∷ rest) s v in
      (s', rw (h, when◌then◌else◌, ◌>>◌, ◌>>=◌) (rw (e, ◌>>=◌)), v'))

  pub Tests-az_is_char : {S : Type 0} (c : ℕ) → Tests {S = S} m (az_is_char m c) (λ b. b == c)
  unfolding az_is_char
  Tests-az_is_char c slice b bs s v = rw (v.holds.0, ◌>>=◌)

  -- The number of bytes in front of the first one that passes the test.
  pub Yields-scan :
      (predicate : Span → Run Span Success) (t : ℕ → Bool) (xs : Bytes) (b : ℕ) (rest : Bytes)
      → Tests m predicate t
      → Rejects t xs
      → t b ≡ true
      → Yields m (scan predicate) (xs ++ (b ∷ rest)) (length xs) (xs ++ (b ∷ rest))
  unfolding scan
  Yields-scan predicate t xs b rest tests rejs found s v = (
    s,
    az_scan_until_finds m predicate t tests s (xs ++ (b ∷ rest)) v s xs b rest rejs found refl,
    v,
  )

  small_code : (code : Bytes) → length code ≡ 3 → all_digits code ≡ true → decimal 0 code ≤ u64_max
  small_code (a ∷ b ∷ c ∷ []) e h = ground arith
  small_code [] e h = absurd (omega (arith, e))
  small_code (a ∷ []) e h = absurd (omega (arith, e))
  small_code (a ∷ b ∷ []) e h = absurd (omega (arith, e))
  small_code (a ∷ b ∷ c ∷ d ∷ xs) e h = absurd (omega (arith, e))

  Yields-read_code :
      (code rest : Bytes)
      → length code ≡ 3
      → all_digits code ≡ true
      → Yields m (read_code m) (code ++ rest) (decimal 0 code) (code ++ rest)
  unfolding read_code
  Yields-read_code code rest e h s v = (
    s,
    az_span_to_uint64_lem m (at (az_span_init s.ptr 3 3)) code s (record {
      count = sym e;
      fits = omega arith;
      holds = Holds-left code rest m s.ptr v.holds;
    })
        ∙ rw (e, h, le→leb _ _ (small_code code e h)),
    v,
  )

  drop_past : (xs : Bytes) (b : ℕ) (rest : Bytes) → drop (length xs + 1) (xs ++ (b ∷ rest)) ≡ rest
  drop_past [] b rest = refl
  drop_past (x ∷ xs) b rest =
      let e : suc (length xs) + 1 ≡ suc (length xs + 1) = omega arith in rw e (drop_past xs b rest)

  pub Yields-skip_past :
      (xs : Bytes) (b : ℕ) (rest : Bytes)
      → Yields m (skip (length xs + 1)) (xs ++ (b ∷ rest)) tt rest
  Yields-skip_past xs b rest =
      subst (λ r. Yields m (skip (length xs + 1)) (xs ++ (b ∷ rest)) tt r) (drop_past xs b rest)
        (Yields-skip m (length xs + 1) (xs ++ (b ∷ rest)))

  -- The content in front of a place.
  pub slice_first :
      (xs rest : Bytes) (s : Span)
      → Views m s (xs ++ rest)
      → Views m (az_span_slice s 0 (pos (length xs))) xs
  slice_first xs rest s v =
      subst (Views m (az_span_slice s 0 (pos (length xs)))) (take-append xs rest)
        (Views-az_span_slice 0 (pos (length xs)) (xs ++ rest) v).0

  Yields-skip_code :
      (code rest : Bytes) → length code ≡ 3 → Yields m (skip 3) (code ++ rest) tt rest
  Yields-skip_code code rest h =
      subst (λ n. Yields m (skip n) (code ++ rest) tt rest) h
        (subst (λ r. Yields m (skip (length code)) (code ++ rest) tt r) (drop-append code rest)
          (Yields-skip m (length code) (code ++ rest)))

  Rejects-line :
      (reason : Bytes)
      → Rejects (λ c. c == b'\n') reason
      → Rejects (λ c. c == b'\n') (reason ++ (b'\r' ∷ []))
  Rejects-line [] h = (refl, tt)
  Rejects-line (c ∷ cs) (h, hs) = (h, Rejects-line cs hs)

  pred_lem : (reason : Bytes) → pred (length (reason ++ (b'\r' ∷ []))) ≡ pos (length reason)
  pred_lem reason =
      let e : length (reason ++ (b'\r' ∷ [])) ≡ suc (length reason) =
        omega (arith, length-append reason (b'\r' ∷ [])) in
      rw e

  -- The reason, which is taken without the carriage return.
  Yields-reason :
      (reason rest : Bytes) (s : Span)
      → Views m s (reason ++ (b'\r' ∷ b'\n' ∷ rest))
      → (phrase : Span) × (s' : Span) × (slice_of (pred (length (reason ++ (b'\r' ∷ [])))) s
          ≡ done phrase s')
        × Views m phrase reason
        × Views m s' (reason ++ (b'\r' ∷ b'\n' ∷ rest))
  Yields-reason reason rest s v = (
    az_span_slice s 0 (pos (length reason)),
    s,
    rw (pred_lem reason),
    slice_first reason _ s v,
    v,
  )

  pub Gives-az_get_http_status_line :
      (major minor : ℕ) (code reason rest : Bytes)
      → IsLine major minor code reason
      → Gives m
          (az_get_http_status_line m)
          (status_line_text major minor code reason rest)
          (TellsLine m major minor code reason)
          rest
  unfolding az_get_http_status_line
  Gives-az_get_http_status_line major minor code reason rest h =
      Gives-bind m (az_is_expected_span m http_name) _ _ _ tt _ rest
        (Yields-az_is_expected_span m http_name _)
        (Gives-bind m (az_get_digit m) _ _ _ (major - b'0') _ rest
          (Yields-az_get_digit major _ h.major_digit)
          (Gives-bind m (az_is_expected_span m (b'.' ∷ [])) _ _ _ tt _ rest
            (Yields-az_is_expected_span m (b'.' ∷ []) _)
            (Gives-bind m (az_get_digit m) _ _ _ (minor - b'0') _ rest
              (Yields-az_get_digit minor _ h.minor_digit)
              (Gives-bind m (az_is_expected_span m (b' ' ∷ [])) _ _ _ tt _ rest
                (Yields-az_is_expected_span m (b' ' ∷ []) _)
                (Gives-bind m (read_code m) _ _ _ (decimal 0 code) _ rest
                  (Yields-read_code code _ h.three h.code_digits)
                  (Gives-bind m (skip 3) _ _ _ tt _ rest (Yields-skip_code code _ h.three) (
                    Gives-bind m (az_is_expected_span m (b' ' ∷ [])) _ _ _ tt _ rest
                      (Yields-az_is_expected_span m (b' ' ∷ []) _)
                      (Gives-bind m (scan (az_is_char m b'\n')) _ _ _ (length line) _ rest scanned (
                        Gives-bind_some m (slice_of (pred (length line)))
                          (λ phrase. skip (length line + 1) >> return (told phrase)) _ _
                          (λ phrase. Views m phrase reason) _ rest (Yields-reason reason rest)
                          (λ phrase v.
                            Gives-bind m (skip (length line + 1)) (λ u. return (told phrase)) _ _ tt
                              rest rest skipped
                              (Gives-return m _ rest _ (record {
                                major_version = refl;
                                minor_version = refl;
                                status_code = refl;
                                reason_phrase = v;
                              }))))))))))))
    where
      told : Span → StatusLine
      told phrase = record {
        major_version = major - b'0';
        minor_version = minor - b'0';
        status_code = decimal 0 code;
        reason_phrase = phrase;
      }

      line : Bytes
      line = reason ++ (b'\r' ∷ [])

      whole : line ++ (b'\n' ∷ rest) ≡ reason ++ (b'\r' ∷ b'\n' ∷ rest)
      whole = append_assoc reason (b'\r' ∷ []) (b'\n' ∷ rest)

      scanned :
          Yields m
            (scan (az_is_char m b'\n'))
            (reason ++ (b'\r' ∷ b'\n' ∷ rest))
            (length line)
            (reason ++ (b'\r' ∷ b'\n' ∷ rest))
      scanned =
          subst (λ bs. Yields m (scan (az_is_char m b'\n')) bs (length line) bs) whole
            (Yields-scan (az_is_char m b'\n') (λ c. c == b'\n') line b'\n' rest
              (Tests-az_is_char b'\n') (Rejects-line reason h.reason_line) refl)

      skipped : Yields m (skip (length line + 1)) (reason ++ (b'\r' ∷ b'\n' ∷ rest)) tt rest
      skipped =
          subst (λ bs. Yields m (skip (length line + 1)) bs tt rest) whole
            (Yields-skip_past line b'\n' rest)
