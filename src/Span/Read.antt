-- ===== src/Span/Read.antt =====
-- The functions of sdk/core/core/src/az_span.c and inc/az_span.h that only read their spans.
pub mod Equal
pub mod Expected
pub mod Scan
pub mod Uint64
use azure_sdk_for_c.Base.{
  ℕ, zero, suc, ◌+◌, ◌-◌, ◌*◌, ◌/◌, ◌^◌, Bool, true, false, not, ◌&&◌, ltb, leb, ◌==◌,
  if◌then◌else◌, Bytes, length,
}
use azure_sdk_for_c.Base.Int.{pos}
use azure_sdk_for_c.Memory.{Memory}
use azure_sdk_for_c.Result.{
  Run, Outcome, fault, hang, fail, done, ◌>>=◌, ◌>>◌, when◌then◌else◌, return, throw, Error, eof,
  parser_unexpected_char, item_not_found, Success, az_ok, az_continue,
}
use azure_sdk_for_c.Source.{Source, at, literal, source_len, byte_at, demand}
use azure_sdk_for_c.Span.{Span, az_span_slice, to_end, skip}

-- `isdigit` of <ctype.h>, on a byte
abbrev pub isdigit : ℕ → Bool
isdigit c = leb b'0' c && leb c b'9'

-- Whether `memcmp` finds the `n` bytes from index `i` on equal.
unfoldable pub memcmp_equal : {S : Type 0} → Memory → Source → Source → ℕ → ℕ → Run S Bool
memcmp_equal m a b zero i = return true
memcmp_equal m a b (suc n) i = do
  x ← demand (byte_at m a i)
  y ← demand (byte_at m b i)
  when x == y then memcmp_equal m a b n (suc i) else return false

unfoldable pub az_span_is_equal : {S : Type 0} → Memory → Source → Source → Run S Bool
unfolding memcmp_equal
az_span_is_equal m a b =
    when source_len a == source_len b then memcmp_equal m a b (source_len a) 0 else return false

unfoldable pub az_ascii_lower : ℕ → ℕ
az_ascii_lower value = if leb b'A' value && leb value b'Z' then value + 32 else value

-- The loop, with `n` rounds left from index `i` on.
unfoldable pub equal_ignoring_case_from :
    {S : Type 0} → Memory → Source → Source → ℕ → ℕ → Run S Bool
unfolding az_ascii_lower
equal_ignoring_case_from m a b zero i = return true
equal_ignoring_case_from m a b (suc n) i = do
  x ← demand (byte_at m a i)
  y ← demand (byte_at m b i)
  when not (az_ascii_lower x == az_ascii_lower y)
      then return false
      else equal_ignoring_case_from m a b n (suc i)

unfoldable pub az_span_is_content_equal_ignoring_case :
    {S : Type 0} → Memory → Source → Source → Run S Bool
unfolding equal_ignoring_case_from
az_span_is_content_equal_ignoring_case m a b =
    when not (source_len a == source_len b)
    then return false
    else equal_ignoring_case_from m a b (source_len a) 0

abbrev pub u64_max : ℕ
u64_max = 2 ^ 64 - 1

-- The loop of `az_span_to_uint64`, with `n` rounds left from index `i` on.
unfoldable pub to_uint64_from : {S : Type 0} → Memory → Source → ℕ → ℕ → ℕ → Run S ℕ
to_uint64_from m self zero i value = return value
to_uint64_from m self (suc n) i value = do
  result ← demand (byte_at m self i)
  when not (isdigit result)
      then throw parser_unexpected_char
      else let d = result - b'0' in
        when ltb ((u64_max - d) / 10) value
        then throw parser_unexpected_char
        else to_uint64_from m self n (suc i) (value * 10 + d)

unfoldable pub az_span_to_uint64 : {S : Type 0} → Memory → Source → Run S ℕ
az_span_to_uint64 m self =
    when source_len self == 0 then throw eof else to_uint64_from m self (source_len self) 0 0

unfoldable pub az_is_expected_span : Memory → Bytes → Run Span (Unit {0})
unfolding az_span_is_equal az_span_slice
az_is_expected_span m expected self =
    if ltb self.len (length expected)
    then fail eof self
    else (do
      let actual_span = az_span_slice self 0 (pos (length expected))
      equal ← az_span_is_equal m (at actual_span) (literal expected)
      when not equal then throw parser_unexpected_char else skip (length expected))
        self

abbrev is_ok : Success → Bool
is_ok az_ok = true
is_ok az_continue = false

-- The loop of `_az_scan_until`, with `n` rounds left from `index` on.
unfoldable pub scan_from : {S : Type 0} → (Span → Run S Success) → Span → ℕ → ℕ → Run S ℕ
unfolding az_span_slice
scan_from predicate self zero index = throw item_not_found
scan_from predicate self (suc n) index = do
  verdict ← predicate (az_span_slice self index to_end)
  when is_ok verdict then return index else scan_from predicate self n (suc index)

unfoldable pub az_scan_until : {S : Type 0} → (Span → Run S Success) → Span → Run S ℕ
unfolding scan_from
az_scan_until predicate self = scan_from predicate self self.len 0
