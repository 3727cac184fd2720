-- ===== src/Span/Write.antt =====
-- The functions of sdk/core/core/src/az_span.c that write through their spans. Where the code
-- updates a span in place (`az_span * self`), the run returns the new span.
pub mod Copy
pub mod Emits
pub mod Given
pub mod Replace
pub mod Stores
pub mod Str
pub mod Zeros
use azure_sdk_for_c.Base.{
  ℕ, zero, suc, ◌+◌, ◌-◌, ◌*◌, ◌/◌, ◌%◌, ◌≤◌, Bool, true, false, not, ◌&&◌, ◌||◌, ltb, leb, ◌==◌,
  if◌then◌else◌, Bytes, [], ◌∷◌, length, some, none,
}
use azure_sdk_for_c.Memory.{Memory, memmove, memset, store}
use azure_sdk_for_c.Result.{
  Run, Outcome, fault, hang, fail, done, ◌>>=◌, ◌>>◌, when◌then◌else◌, return, throw, Error, arg,
  buffer_overflow,
}
use azure_sdk_for_c.Source.{
  Source, at, literal, source_len, source_is_valid, byte_at, demand, move_from,
}
use azure_sdk_for_c.Span.{
  Span, az_span_init, az_span_is_valid, az_contract, az_span_take, az_span_drop,
}

unfoldable pub az_span_copy : Span → Source → Run Memory Span
az_span_copy dst src = do
  az_contract (az_span_is_valid dst) arg
  az_contract (source_is_valid src) arg
  let src_len = source_len src
  az_contract (leb src_len dst.capacity) buffer_overflow
  when not (src_len == 0) then move_from dst.ptr src else return tt
  return (az_span_init dst.ptr src_len dst.capacity)

unfoldable pub az_span_append : Span → Source → Run Memory Span
unfolding az_span_drop
az_span_append self span = do
  let current_size = self.len
  remainder ← az_span_copy (az_span_drop self current_size) span
  return (az_span_init self.ptr (current_size + source_len span) self.capacity)

unfoldable pub az_span_set : Span → ℕ → Run Memory (Unit {0})
az_span_set span fill = memset span.ptr fill span.capacity

unfoldable pub az_span_append_zeros : Span → ℕ → Run Memory Span
unfolding az_span_set az_span_take az_span_drop
az_span_append_zeros self size = do
  let current_size = self.len
  let span = az_span_take (az_span_drop self current_size) size
  when ltb span.capacity size then throw buffer_overflow else return tt
  az_span_set span 0
  return (record self { len = current_size + size })

-- The differences are those of non-negative positions. Where `end` is before `start`, or either is
-- behind the content, `az_span_replace` has returned `AZ_ERROR_ARG` before it uses them.
unfoldable pub az_span_replace : Span → ℕ → ℕ → Source → Run Memory Span
unfolding az_span_drop
az_span_replace self start end span = do
  let current_size = self.len
  let span_length = source_len span
  let replaced_size = end - start
  let size_after_replace = current_size - replaced_size + span_length
  az_contract (leb replaced_size current_size) arg
  az_contract (leb start current_size && leb end current_size) arg
  az_contract (leb start end) arg
  az_contract (leb size_after_replace self.capacity) arg
  let dst = az_span_drop self (start + span_length)
  let src = az_span_drop self end
  dst' ← az_span_copy dst (at src)
  copy ← az_span_copy (az_span_drop self start) span
  return (record self { len = size_after_replace })

-- `char * s` is an address.
unfoldable pub az_span_to_str : ℕ → ℕ → Source → Run Memory (Unit {0})
az_span_to_str s max_size span = do
  az_contract (source_is_valid span) arg
  let span_length = source_len span
  when ltb max_size (span_length + 1) then throw buffer_overflow else return tt
  move_from s span
  store (s + span_length) 0

-- `*p`
abbrev load : ℕ → Run Memory ℕ
load p m = demand (m p) m

unfoldable pub az_uint8_swap : ℕ → ℕ → Run Memory (Unit {0})
az_uint8_swap a b = do c ← load a; d ← load b; store a d; store b c

-- The loop of `_az_span_swap`, with `n` rounds left from `pa` and `pb` on.
unfoldable pub swap_from : ℕ → ℕ → ℕ → Run Memory (Unit {0})
unfolding az_uint8_swap
swap_from zero pa pb = return tt
swap_from (suc n) pa pb = do az_uint8_swap pa pb; swap_from n (suc pa) (suc pb)

unfoldable pub az_span_swap : Span → Span → Run Memory (Unit {0})
unfolding swap_from
az_span_swap a b = swap_from (if ltb a.len b.len then a.len else b.len) a.ptr b.ptr

-- A span that is updated in place, with the memory.
pub record Target : Type 0 where
  pub mem : Memory
  pub self : Span

-- `f(*self, …, self)`: the span changes only if the call succeeds, the memory in any case.
unfoldable pub in_place : (Span → Run Memory Span) → Run Target (Unit {0})
in_place f t = elim (f t.self t.mem) [
  | fault ↦ fault
  | hang ↦ hang
  | fail e m ↦ fail e (record { mem = m; self = t.self })
  | done s m ↦ done tt (record { mem = m; self = s })
]

-- `az_span_append(*self, span, self)`
unfoldable pub append_to : Source → Run Target (Unit {0})
unfolding in_place
append_to span = in_place (λ s. az_span_append s span)

-- `az_span_ptr(source)[i]`, from the memory of a target
unfoldable pub fetch : Source → ℕ → Run Target ℕ
fetch source i t = demand (byte_at t.mem source i) t
