-- ===== src/Span/Read/Uint64.antt =====
-- `az_span_to_uint64`: the decimal number of a text, if it is one and fits 64 bits.
use azure_sdk_for_c.Base.{
  ℕ, suc, ◌+◌, ◌-◌, ◌*◌, ◌≤◌, Bool, true, ◌&&◌, leb, ◌==◌, if◌then◌else◌, Bytes, [], ◌∷◌, length,
  ◌≡◌, arith,
}
use azure_sdk_for_c.Memory.{Memory}
use azure_sdk_for_c.Result.{Outcome, fail, done, parser_unexpected_char, eof}
use azure_sdk_for_c.Source.{Source, Provides}
use azure_sdk_for_c.Source.Streams.{Streams, Provides-Streams, Provides-len}
use azure_sdk_for_c.Span.Read.{isdigit, u64_max, to_uint64_from, az_span_to_uint64}

abbrev pub all_digits : Bytes → Bool
all_digits [] = true
all_digits (c ∷ cs) = isdigit c && all_digits cs

-- The number that the digits write, after those of `value`, with no bound.
abbrev pub decimal : ℕ → Bytes → ℕ
decimal value [] = value
decimal value (c ∷ cs) = decimal (value * 10 + (c - b'0')) cs

decimal_grows : (cs : Bytes) (value : ℕ) → value ≤ decimal value cs
decimal_grows [] value = omega arith
decimal_grows (c ∷ cs) value = omega (arith, decimal_grows cs (value * 10 + (c - b'0')))

-- The value of a text that is a number below 2 ^ 64; anything else is an unexpected character.
abbrev pub uint64_text : {S : Type 0} → ℕ → Bytes → S → Outcome S ℕ
uint64_text value bs s =
    if all_digits bs && leb (decimal value bs) u64_max
    then done (decimal value bs) s
    else fail parser_unexpected_char s

to_uint64_from-uint64_text :
    {S : Type 0} (bs : Bytes) (m : Memory) (src : Source) (i value : ℕ) (s : S)
    → value ≤ u64_max
    → Streams m src i bs
    → to_uint64_from m src (length bs) i value s ≡ uint64_text value bs s
unfolding to_uint64_from
to_uint64_from-uint64_text [] m src i value s h v = ground arith
to_uint64_from-uint64_text (c ∷ cs) m src i value s h (v, vs) = rw v (
    ground (
      arith,
      decimal_grows cs (value * 10 + (c - b'0')),
      to_uint64_from-uint64_text cs m src (suc i) (value * 10 + (c - b'0')) s,
    ))

-- The whole conversion: nothing to read is the end of the input; else the value of the text.
pub az_span_to_uint64_lem :
    {S : Type 0} (m : Memory) (src : Source) (bs : Bytes) (s : S)
    → Provides m src bs
    → az_span_to_uint64 m src s ≡ (if length bs == 0 then fail eof s else uint64_text 0 bs s)
unfolding az_span_to_uint64
az_span_to_uint64_lem m src bs s v = rw (Provides-len m src bs v) (
    ground (
      arith,
      to_uint64_from-uint64_text bs m src 0 0 s (omega arith) (Provides-Streams m src bs v),
    ))
