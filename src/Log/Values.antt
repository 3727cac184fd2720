-- ===== src/Log/Values.antt =====
-- How values are shortened in log messages.
use azure_sdk_for_c.Base.{
  ℕ, ◌-◌, ◌≤◌, true, leb, if◌then◌else◌, Bool-cases, Bytes, ◌++◌, take, drop, length, length-take,
  length-drop, length-append, ◌≡◌, subst, arith, inl, inr,
}
use azure_sdk_for_c.Log.RequestMessage.{
  ellipsis, first_length, last_length, log_value_max_length, az_log_value_msg,
}
use azure_sdk_for_c.Result.{when◌then◌else◌}
use azure_sdk_for_c.Source.{at, source_is_valid, Provides}
use azure_sdk_for_c.Span.Slice.{Views-az_span_take, Views-az_span_drop}
use azure_sdk_for_c.Span.{Span, az_span_take, az_span_drop, az_span_is_valid}
use azure_sdk_for_c.Span.Write.Emits.{
  IsOpen, Appends, Emits, Emits-Appends, Emits-append_to, Emits-literal, Emits-from, Emits-seq,
}
use azure_sdk_for_c.Span.Write.Given.{Given, Keeps-Given, Emits-Given}
use azure_sdk_for_c.Span.Write.{Target}

-- A value of more than 50 bytes is cut to 22 bytes, an ellipsis of 5, and 23 bytes.
abbrev pub shortened : Bytes → Bytes
shortened bs =
    if leb (length bs) log_value_max_length
    then bs
    else take first_length bs ++ (ellipsis ++ drop (length bs - last_length) bs)

pub length-shortened : (bs : Bytes) → length (shortened bs) ≤ log_value_max_length
length-shortened bs = elim (Bool-cases (leb (length bs) 50)) [
  | inl short ↦ rw short (ground (arith, short))
  | inr long ↦ rw long (
      ground (
        arith,
        long,
        length-append (take 22 bs) (ellipsis ++ drop (length bs - 23) bs),
        length-append ellipsis (drop (length bs - 23) bs),
        length-take 22 bs,
        length-drop (length bs - 23) bs,
      ))
]

module _ (value : Span) (bs : Bytes) where
  abbrev ValueGiven : Target → Type 0
  ValueGiven = Given (at value) bs

  first-Provides :
      (n : ℕ) (t : Target)
      → ValueGiven t
      → Provides t.mem (at (az_span_take value n)) (take n bs)
        × (source_is_valid (at (az_span_take value n)) ≡ true)
  unfolding source_is_valid az_span_take az_span_is_valid
  first-Provides n t g = (Views-az_span_take n bs g.provides, ground (arith, g.apart.0))

  last-Provides :
      (n : ℕ) (t : Target)
      → ValueGiven t
      → Provides t.mem (at (az_span_drop value n)) (drop n bs)
        × (source_is_valid (at (az_span_drop value n)) ≡ true)
  unfolding source_is_valid az_span_drop az_span_is_valid
  last-Provides n t g = (Views-az_span_drop n bs g.provides, ground (arith, g.apart.0))

  -- The text, with a number for the length of the value.
  abbrev text_of : ℕ → Bytes
  text_of n =
      if leb n log_value_max_length
      then bs
      else take first_length bs ++ (ellipsis ++ drop (n - last_length) bs)

  parts-Emits : Emits ValueGiven (az_log_value_msg value) (text_of value.len)
  unfolding az_log_value_msg
  parts-Emits = elim (Bool-cases (leb value.len 50)) [
    | inl short ↦ rw short (Emits-Given (at value) bs)
    | inr long ↦ rw long (
        Emits-seq ValueGiven (Keeps-Given (at value) bs)
          (Emits-append_to ValueGiven (at (az_span_take value 22)) (take 22 bs) (first-Provides 22))
          (Emits-seq ValueGiven (Keeps-Given (at value) bs) (Emits-literal ValueGiven ellipsis) (
            Emits-append_to ValueGiven (at (az_span_drop value (value.len - 23)))
              (drop (value.len - 23) bs) (last-Provides (value.len - 23)))))
  ]

  pub value-Emits : Emits ValueGiven (az_log_value_msg value) (shortened bs)
  value-Emits = Emits-from ValueGiven (az_log_value_msg value) (shortened bs) (λ t g.
      subst (λ n. Emits ValueGiven (az_log_value_msg value) (text_of n)) g.provides.count
        parts-Emits)

-- A value outside of the buffer of a log message is appended to it as it is if it has at most 50
-- bytes, else as its first 22 bytes, an ellipsis of 5 and its last 23 bytes: never more than 50 bytes
-- of it are logged. The text is written whole, or the overflow is reported.
pub az_log_value_msg_lem :
    (value : Span) (bs : Bytes) (t : Target)
    → IsOpen t
    → Given (at value) bs t
    → Appends (az_log_value_msg value) t (shortened bs)
      × (length (shortened bs) ≤ log_value_max_length)
az_log_value_msg_lem value bs t b g =
    (Emits-Appends (Given (at value) bs) t (value-Emits value bs) b g, length-shortened bs)
