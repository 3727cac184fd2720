-- ===== src/Span/Slice.antt =====
-- The content of the parts of a span.
use azure_sdk_for_c.Base.{
  ℕ, Bytes, take, drop, length-take, length-drop, take_all, drop_all, le→leb, lt→leb_false, ◌≡◌,
  refl, arith,
}
use azure_sdk_for_c.Base.Int.{ℤ, pos, negsuc}
use azure_sdk_for_c.Memory.{Memory, Holds-take, Holds-drop}
use azure_sdk_for_c.Span.{Span, Views, az_span_take, az_span_drop, az_span_slice}
use native.Mathlib.Decide.{dec_le}

pub Views-az_span_take :
    (n : ℕ) (bs : Bytes) {m : Memory} {s : Span}
    → Views m s bs
    → Views m (az_span_take s n) (take n bs)
unfolding az_span_take
Views-az_span_take n bs {m} {s} v = elim (dec_le s.capacity n) [
  | yes h ↦ rw (take_all n bs (omega (arith, v.count, v.fits)), le→leb _ _ h) v
  | no h ↦ rw (lt→leb_false s.capacity n (omega arith)) (record {
    count = ground (arith, length-take n bs, v.count);
    fits = ground arith;
    holds = Holds-take n bs m s.ptr v.holds;
  })
]

pub Views-az_span_drop :
    (n : ℕ) (bs : Bytes) {m : Memory} {s : Span}
    → Views m s bs
    → Views m (az_span_drop s n) (drop n bs)
unfolding az_span_drop
Views-az_span_drop n bs {m} {s} v = elim (dec_le s.capacity n) [
  | yes h ↦
      rw (drop_all n bs (omega (arith, v.count, v.fits)), le→leb _ _ h)
        (record { count = refl; fits = omega arith; holds = tt })
  | no h ↦ rw (lt→leb_false s.capacity n (omega arith)) (record {
    count = ground (arith, length-drop n bs, v.count);
    fits = ground (arith, v.fits);
    holds = Holds-drop n bs m s.ptr v.holds;
  })
]

-- What `az_span_slice` selects of a content.
abbrev pub sliced : ℕ → ℤ → Bytes → Bytes
sliced low (pos high) bs = drop low (take high bs)
sliced low (negsuc high) bs = drop low bs

Views-exact :
    {m : Memory} {s : Span} {bs : Bytes}
    → Views m s bs
    → Views m (record { ptr = s.ptr; len = s.len; capacity = s.len }) bs
Views-exact v = record { count = v.count; fits = omega arith; holds = v.holds }

-- A slice holds the bytes from the low index up to the high index, or up to the end if the high
-- index is negative; both may lie behind the end. Its capacity is its length.
pub Views-az_span_slice :
    (low : ℕ) (high : ℤ) (bs : Bytes) {m : Memory} {s : Span}
    → Views m s bs
    → Views m (az_span_slice s low high) (sliced low high bs)
      × ((az_span_slice s low high).capacity ≡ (az_span_slice s low high).len)
unfolding az_span_slice
Views-az_span_slice low (pos high) bs v =
    (Views-exact (Views-az_span_drop low _ (Views-az_span_take high bs v)), refl)
Views-az_span_slice low (negsuc high) bs v = (Views-exact (Views-az_span_drop low bs v), refl)
