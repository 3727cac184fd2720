-- ===== src/Http/Response/Parts.antt =====
-- The readers of a response stay inside of it, whatever the memory holds.
use azure_sdk_for_c.Base.{
  ℕ, zero, suc, ◌+◌, ◌≤◌, Bool, true, false, not, ◌==◌, ltb, leb, if◌then◌else◌, Bytes, Option,
  none, some, length, ◌≡◌, arith, ◌⊎◌,
}
use azure_sdk_for_c.Base.Int.{ℤ, pos}
use azure_sdk_for_c.Http.Response.{
  az_is_char, az_is_http_whitespace, az_slice_is_not_http_whitespace, az_get_digit, scan, read_code,
  slice_of, az_get_http_status_line, value_from,
}
use azure_sdk_for_c.Memory.{Memory}
use azure_sdk_for_c.Result.Preserves.{
  Leaves, Preserves, Preserves-bind, Preserves-when, Preserves-return, Preserves-throw, keeping,
}
use azure_sdk_for_c.Result.{
  Run, Outcome, fault, fail, done, ◌>>=◌, when◌then◌else◌, throw, eof, item_not_found,
  parser_unexpected_char, Success,
}
use azure_sdk_for_c.Source.{Source, demand, byte_at, at, literal}
use azure_sdk_for_c.Span.{Span, az_span_slice, az_span_init, to_end, peek, skip}
use azure_sdk_for_c.Span.Read.{
  scan_from, memcmp_equal, az_span_is_equal, az_is_expected_span, to_uint64_from, az_span_to_uint64,
}

-- A span lies in another one, or is empty.
abbrev pub Inside : Span → Span → Type 0
Inside s whole = (s.len ≡ 0) ⊎ ((whole.ptr ≤ s.ptr) × (s.ptr + s.len ≤ whole.ptr + whole.len))

module _ {S : Type 0} (P : S → Type 0) where
  Preserves-demand : (o : Option ℕ) → Preserves P (demand o)
  Preserves-demand none = record { keeps = λ s p. tt }
  Preserves-demand (some c) = Preserves-return P c

  Preserves-memcmp_equal :
      (m : Memory) (a b : Source) (n i : ℕ) → Preserves P (memcmp_equal m a b n i)
  unfolding memcmp_equal
  Preserves-memcmp_equal m a b zero i = Preserves-return P true
  Preserves-memcmp_equal m a b (suc n) i =
      Preserves-bind P _ _ (Preserves-demand (byte_at m a i)) (λ x.
        Preserves-bind P _ _ (Preserves-demand (byte_at m b i)) (λ y.
          Preserves-when P (x == y) _ _ (Preserves-memcmp_equal m a b n (suc i))
            (Preserves-return P false)))

  Preserves-to_uint64_from :
      (m : Memory) (src : Source) (n i value : ℕ) → Preserves P (to_uint64_from m src n i value)
  unfolding to_uint64_from
  Preserves-to_uint64_from m src zero i value = Preserves-return P value
  Preserves-to_uint64_from m src (suc n) i value =
      Preserves-bind P _ _ (Preserves-demand (byte_at m src i)) (λ x.
        Preserves-when P _ _ _ (Preserves-throw P _) (
          Preserves-when P _ _ _ (Preserves-throw P _)
            (Preserves-to_uint64_from m src n (suc i) _)))

  Preserves-scan_from :
      (predicate : Span → Run S Success)
      → ((slice : Span) → Preserves P (predicate slice))
      → (self : Span) (n i : ℕ) → Preserves P (scan_from predicate self n i)
  unfolding scan_from
  Preserves-scan_from predicate f self zero i = Preserves-throw P item_not_found
  Preserves-scan_from predicate f self (suc n) i =
      Preserves-bind P _ _ (f (az_span_slice self i to_end)) (λ v.
        Preserves-when P _ _ _ (Preserves-return P i)
          (Preserves-scan_from predicate f self n (suc i)))

module _ (m : Memory) (whole : Span) where
  abbrev pub IsPart : Span → Type 0
  IsPart s = Inside s whole

  pub Preserves-skip : (n : ℕ) → Preserves IsPart (skip n)
  unfolding skip az_span_slice
  Preserves-skip n = record { keeps = λ s p. ground (arith, p) }

  pub Preserves-peek : Preserves IsPart (peek m)
  unfolding peek
  Preserves-peek = record {
    keeps = λ s p.
        elim (m s.ptr)
          as (λ o.
            Leaves IsPart (elim o as (λ x. Outcome Span ℕ) [ none ↦ fault | some c ↦ done c s ])) [
              | none ↦ tt
              | some c ↦ p
            ];
  }

  Preserves-az_get_digit : Preserves IsPart (az_get_digit m)
  unfolding az_get_digit
  Preserves-az_get_digit = search (keeping, Preserves-peek, Preserves-skip)

  pub Preserves-expected : (bs : Bytes) → Preserves IsPart (az_is_expected_span m bs)
  unfolding az_is_expected_span az_span_is_equal
  Preserves-expected bs = record { keeps = λ s p. go s p (ltb s.len (length bs)) }
    where
      slice : Span → Span
      slice s = az_span_slice s 0 (pos (length bs))

      equal : Span → Run Span Bool
      equal s = az_span_is_equal m (at (slice s)) (literal bs)

      rest : Bool → Run Span (Unit {0})
      rest b = when not b then throw parser_unexpected_char else skip (length bs)

      go :
          (s : Span)
          → IsPart s
          → (b : Bool) → Leaves IsPart (if b then fail eof s else (equal s >>= rest) s)
      go s p true = p
      go s p false =
          (Preserves-bind IsPart (equal s) rest
              (Preserves-when IsPart _ _ _
                (Preserves-memcmp_equal IsPart m (at (slice s)) (literal bs) _ 0)
                (Preserves-return IsPart false))
              (λ b.
                Preserves-when IsPart _ _ _ (Preserves-throw IsPart parser_unexpected_char)
                  (Preserves-skip (length bs)))).keeps
            s p

  Preserves-read_code : Preserves IsPart (read_code m)
  unfolding read_code az_span_to_uint64
  Preserves-read_code = record {
    keeps =
        λ s p. (Preserves-to_uint64_from IsPart m (at (az_span_init s.ptr 3 3)) 3 0 0).keeps s p;
  }

  pub Preserves-az_is_char : (c : ℕ) (slice : Span) → Preserves IsPart (az_is_char m c slice)
  unfolding az_is_char
  Preserves-az_is_char c slice = search (keeping, Preserves-demand IsPart (m slice.ptr))

  pub Preserves-not_space :
      (slice : Span) → Preserves IsPart (az_slice_is_not_http_whitespace m slice)
  unfolding az_slice_is_not_http_whitespace
  Preserves-not_space slice = search (keeping, Preserves-demand IsPart (m slice.ptr))

  pub Preserves-scan :
      (predicate : Span → Run Span Success)
      → ((slice : Span) → Preserves IsPart (predicate slice))
      → Preserves IsPart (scan predicate)
  unfolding scan
  Preserves-scan predicate f = record {
    keeps = λ s p. (Preserves-scan_from IsPart predicate f s s.len 0).keeps s p;
  }

  pub Preserves-slice_of : (high : ℤ) → Preserves IsPart (slice_of high)
  Preserves-slice_of high = record { keeps = λ s p. p }

  Preserves-byte : (offset : ℕ) → Preserves IsPart (λ s. demand (m (s.ptr + offset)) s)
  Preserves-byte offset = record {
    keeps = λ s p. (Preserves-demand IsPart (m (s.ptr + offset))).keeps s p;
  }

  pub Preserves-value_from : (fuel offset end : ℕ) → Preserves IsPart (value_from m fuel offset end)
  unfolding value_from
  Preserves-value_from zero offset end = record { keeps = λ s p. tt }
  Preserves-value_from (suc fuel) offset end =
      Preserves-bind IsPart _ _ (Preserves-byte offset) (λ c.
        Preserves-when IsPart (c == b'\r') _ _ (Preserves-return IsPart (offset + 1, end)) (
          Preserves-when IsPart (az_is_http_whitespace c) _ _
            (Preserves-value_from fuel (offset + 1) end)
            (Preserves-when IsPart (leb c b' ') _ _ (Preserves-throw IsPart parser_unexpected_char)
              (Preserves-value_from fuel (offset + 1) (offset + 1)))))

  pub Preserves-az_get_http_status_line : Preserves IsPart (az_get_http_status_line m)
  unfolding az_get_http_status_line
  Preserves-az_get_http_status_line =
      search
        (
          keeping, Preserves-expected, Preserves-az_get_digit, Preserves-read_code, Preserves-skip,
          Preserves-scan, Preserves-az_is_char, Preserves-slice_of,
        )
        depth 40
