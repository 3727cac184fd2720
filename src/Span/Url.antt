-- ===== src/Span/Url.antt =====
-- `az_span_copy_url_encode` of sdk/core/core/src/az_span.c.
pub mod Encode
use azure_sdk_for_c.Base.{
  ℕ, zero, suc, ◌+◌, ◌/◌, ◌%◌, Bool, true, false, not, ◌&&◌, ◌||◌, leb, ltb, ◌==◌, if◌then◌else◌,
}
use azure_sdk_for_c.Hex.{az_number_to_upper_hex}
use azure_sdk_for_c.Memory.{Memory, store}
use azure_sdk_for_c.Result.{
  Run, Outcome, ◌>>=◌, ◌>>◌, when◌then◌else◌, return, throw, arg, buffer_overflow,
}
use azure_sdk_for_c.Source.{Source, source_len, source_is_valid, byte_at, demand}
use azure_sdk_for_c.Span.{Span, az_span_init, az_span_is_valid, az_contract}

unfoldable pub should_encode : ℕ → Bool
should_encode c =
    if c == b'-' || c == b'_' || c == b'.' || c == b'~'
    then false
    else not
        ((leb b'0' c && leb c b'9') || (leb b'A' c && leb c b'Z') || (leb b'a' c && leb c b'z'))

-- `az_span_ptr(src)[i]`
abbrev pub read_at : Source → ℕ → Run Memory ℕ
read_at src i m = demand (byte_at m src i) m

-- The first loop, with `n` rounds left from index `i` on.
unfoldable pub encoded_size : Source → ℕ → ℕ → ℕ → Run Memory ℕ
unfolding should_encode
encoded_size src zero i result_size = return result_size
encoded_size src (suc n) i result_size = do
  c ← read_at src i
  encoded_size src n (suc i) (result_size + (if should_encode c then 3 else 1))

-- `c >> 4` and `c & 0x0F`
abbrev pub store_encoded : ℕ → ℕ → Run Memory (Unit {0})
store_encoded p_d c = do
  store p_d b'%'
  store (p_d + 1) (az_number_to_upper_hex (c / 16))
  store (p_d + 2) (az_number_to_upper_hex (c % 16))

-- The second loop: the size of what was written.
unfoldable pub encode_from : Source → ℕ → ℕ → ℕ → ℕ → Run Memory ℕ
unfolding should_encode
encode_from src zero i p_d s = return s
encode_from src (suc n) i p_d s = do
  c ← read_at src i
  when not (should_encode c)
      then (do store p_d c; encode_from src n (suc i) (p_d + 1) (s + 1))
      else (do store_encoded p_d c; encode_from src n (suc i) (p_d + 3) (s + 3))

unfoldable pub az_span_copy_url_encode : Span → Source → Run Memory Span
unfolding encoded_size encode_from
az_span_copy_url_encode dst src = do
  az_contract (az_span_is_valid dst) arg
  az_contract (source_is_valid src) arg
  let input_size = source_len src
  result_size ← encoded_size src input_size 0 0
  when ltb dst.capacity result_size then throw buffer_overflow else return tt
  s ← encode_from src input_size 0 dst.ptr 0
  return (az_span_init dst.ptr s dst.capacity)
