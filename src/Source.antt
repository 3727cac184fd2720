-- ===== src/Source.antt =====
-- Where the bytes of a span argument come from. Most are spans over memory. String literals and
-- local arrays are values here, so that nothing has to be said of where the compiler puts them:
-- reading them never fails, and no write reaches them.
pub mod Streams
use azure_sdk_for_c.Base.{
  ℕ, zero, suc, ◌+◌, Bool, true, false, ◌==◌, if◌then◌else◌, Option, some, none, Bytes, get_elem?,
  [], ◌∷◌, length, ◌≡◌,
}
use azure_sdk_for_c.Memory.{Memory, memmove, write}
use azure_sdk_for_c.Result.{Run, fault, done, return}
use azure_sdk_for_c.Span.{Span, az_span_init, az_span_is_valid, Views}

pub data Source : Type 0 where
  at : Span → Source
  literal : Bytes → Source

abbrev pub source_len : Source → ℕ
source_len (at s) = s.len
source_len (literal bs) = length bs

-- `az_span_ptr(source)[i]`
unfoldable pub byte_at : Memory → Source → ℕ → Option ℕ
byte_at m (at s) i = m (s.ptr + i)
byte_at m (literal bs) i = get_elem? bs i

unfoldable pub source_is_valid : Source → Bool
unfolding az_span_is_valid
source_is_valid (at s) = az_span_is_valid s
source_is_valid (literal bs) = true

-- `memmove(ptr, az_span_ptr(source), az_span_length(source))`
unfoldable pub move_from : ℕ → Source → Run Memory (Unit {0})
move_from ptr (at s) = memmove ptr s.ptr s.len
move_from ptr (literal bs) = write ptr bs

-- The content of a source.
abbrev pub Provides : Memory → Source → Bytes → Type 0
Provides m (at s) bs = Views m s bs
Provides m (literal xs) bs = xs ≡ bs

abbrev pub demand : {S : Type 0} → Option ℕ → Run S ℕ
demand none s = fault
demand (some c) s = done c s

-- `az_span_init(&az_span_ptr(source)[i], 1, 1)`
unfoldable pub item_at : Source → ℕ → Source
item_at (at s) i = at (az_span_init (s.ptr + i) 1 1)
item_at (literal bs) i = elim (get_elem? bs i) [ none ↦ literal [] | some b ↦ literal (b ∷ []) ]
