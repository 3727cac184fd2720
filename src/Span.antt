-- ===== src/Span.antt =====
-- sdk/core/core/inc/az_span.h, src/az_span_private.h, internal/az_contract_internal.h and
-- `az_span_slice` of src/az_span.c: spans, and the parts of a span. The int32_t fields of a span
-- are numbers, and so are the positions that callers compute; only the end of a slice is signed.
pub mod Slice
pub mod Yields
pub mod Read
pub mod Write
pub mod Decimal
pub mod Url
pub mod Progress
use azure_sdk_for_c.Base.{
  ℕ, ◌+◌, ◌-◌, ◌*◌, ◌/◌, ◌≤◌, ◌<◌, Bool, true, false, not, ◌&&◌, ◌||◌, ltb, leb, ◌==◌,
  if◌then◌else◌, Bytes, length, ◌≡◌, arith, some, none,
}
use azure_sdk_for_c.Base.Int.{ℤ, pos, negsuc}
use azure_sdk_for_c.Memory.{Memory, readable, Holds}
use azure_sdk_for_c.Result.{Run, Error, when◌then◌else◌, return, throw, fail, done, fault}

pub record Span : Type 0 where
  pub ptr : ℕ
  pub len : ℕ
  pub capacity : ℕ

abbrev pub az_span_init : ℕ → ℕ → ℕ → Span
az_span_init ptr len capacity = record { ptr = ptr; len = len; capacity = capacity }

abbrev pub az_span_null : Span
az_span_null = record { ptr = 0; len = 0; capacity = 0 }

abbrev pub az_span_is_empty : Span → Bool
az_span_is_empty span = span.len == 0

unfoldable pub az_span_is_valid : Span → Bool
az_span_is_valid span =
    span.len == 0 || (not (span.ptr == 0) && leb span.ptr (span.ptr + span.len - 1))

-- `AZ_CONTRACT`
abbrev pub az_contract : {S : Type 0} → Bool → Error → Run S (Unit {0})
az_contract condition error = when condition then return tt else throw error

unfoldable pub az_span_take : Span → ℕ → Span
az_span_take span n =
    if leb span.capacity n
    then span
    else az_span_init span.ptr (if ltb n span.len then n else span.len) n

unfoldable pub az_span_drop : Span → ℕ → Span
az_span_drop span n =
    if leb span.capacity n
    then az_span_null
    else az_span_init (span.ptr + n) (if ltb span.len n then 0 else span.len - n)
        (span.capacity - n)

-- `if (high_index >= 0) left = az_span_take(span, high_index)`
unfoldable pub slice_left : Span → ℤ → Span
unfolding az_span_take
slice_left span (pos high) = az_span_take span high
slice_left span (negsuc high) = span

-- `az_span_slice` Always returns `AZ_OK`.
unfoldable pub az_span_slice : Span → ℕ → ℤ → Span
unfolding slice_left az_span_drop
az_span_slice span low high =
    let right = az_span_drop (slice_left span high) low in
    az_span_init right.ptr right.len right.len

-- The high index that stands for the end of the span.
abbrev pub to_end : ℤ
to_end = negsuc 0

unfoldable pub az_span_is_overlap : Span → Span → Bool
az_span_is_overlap a b =
    (not (az_span_is_empty a) && not (az_span_is_empty b))
    && ((ltb a.ptr b.ptr && leb b.ptr (a.ptr + a.len - 1))
        || (ltb b.ptr a.ptr && leb a.ptr (b.ptr + b.len - 1))
        || a.ptr == b.ptr)

-- `az_span_ptr(*self)[0]`
unfoldable pub peek : Memory → Run Span ℕ
peek m self = elim (m self.ptr) [ none ↦ fault | some c ↦ done c self ]

-- `az_span_slice(*self, n, -1, self)`
unfoldable pub skip : ℕ → Run Span (Unit {0})
unfolding az_span_slice
skip n self = done tt (az_span_slice self n to_end)

-- `az_span_length(*self) == 0`
abbrev pub at_end : Span → Bool
at_end self = self.len == 0

-- `if (az_span_length(*self) == 0) return error;`
abbrev pub fail_at_end : Error → Run Span (Unit {0})
fail_at_end error self = elim (at_end self) [ true ↦ fail error self | false ↦ done tt self ]

-- `if (az_span_length(*self) == 0)`
infix 1 if_at_end◌else◌
abbrev pub if_at_end◌else◌ : {A : Type 0} → Run Span A → Run Span A → Run Span A
(if_at_end x else y) self = elim (at_end self) [ true ↦ x self | false ↦ y self ]

-- A span is within its capacity and its content is `bs`.
pub record Views (m : Memory) (s : Span) (bs : Bytes) : Type 0 where
  pub count : s.len ≡ length bs
  pub fits : s.len ≤ s.capacity
  pub holds : Holds m s.ptr bs
