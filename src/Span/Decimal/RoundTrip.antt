-- ===== src/Span/Decimal/RoundTrip.antt =====
-- `az_span_to_uint64` reads back what `az_span_append_uint64` printed.
use azure_sdk_for_c.Base.{ℕ, ◌^◌, ◌≤◌, ◌<◌, Bytes, [], length, ◌≡◌, ◌∙◌, arith, le→leb, ne→==_false}
use azure_sdk_for_c.Result.{done}
use azure_sdk_for_c.Source.{at}
use azure_sdk_for_c.Span.Decimal.{az_span_append_uint64}
use azure_sdk_for_c.Span.Decimal.Print.{IsNumeral, az_span_append_uint64-Prints}
use azure_sdk_for_c.Span.Read.{az_span_to_uint64, u64_max}
use azure_sdk_for_c.Span.Read.Uint64.{uint64_text, az_span_to_uint64_lem}
use azure_sdk_for_c.Span.Write.{Target}
use azure_sdk_for_c.Span.Write.Emits.{IsOpen, Extends-Views}
use azure_sdk_for_c.Span.{Views}

read_numeral :
    {S : Type 0} (n : ℕ) (text : Bytes) (s : S)
    → n < 2 ^ 64
    → IsNumeral n text
    → uint64_text 0 text s ≡ done n s
read_numeral n text s h k = rw (k.only_digits, k.value) (rw (le→leb n u64_max (omega arith)))

-- A `uint64_t` that is printed into an empty span with room for 20 bytes is read back.
pub to_uint64-append_uint64 :
    {S : Type 0} (n : ℕ) (t : Target) (s : S)
    → n < 2 ^ 64
    → IsOpen t
    → t.self.len ≡ 0
    → 20 ≤ t.self.capacity
    → (t' : Target) × (az_span_append_uint64 n t ≡ done tt t')
      × (az_span_to_uint64 t'.mem (at t'.self) s ≡ done n s)
to_uint64-append_uint64 n t s h b empty room =
    let (text, emits, k) = az_span_append_uint64-Prints (λ t. Unit {0}) (λ t t' bs x f r. tt) n h in
    let (t', e, x) = emits.fits t b tt (omega (arith, k.at_most_20)) in
    let seen : Views t'.mem t'.self text =
      Extends-Views {xs = []} x (omega (arith, k.at_most_20))
        (record { count = empty; fits = b.within; holds = tt }) in
    (
      t',
      e,
      az_span_to_uint64_lem t'.mem (at t'.self) text s seen
          ∙ rw (ne→==_false (length text) 0 (λ z. absurd (omega (arith, k.not_empty, z))))
              (read_numeral n text s h k),
    )
