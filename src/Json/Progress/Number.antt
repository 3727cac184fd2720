-- ===== src/Json/Progress/Number.antt =====
-- The readers of numbers.
use azure_sdk_for_c.Base.{
  ℕ, zero, suc, ◌+◌, ◌-◌, ◌*◌, ◌%◌, ◌^◌, ◌≤◌, Bool, true, false, not, ◌==◌, arith, ◌||◌, Bool-cases,
  inl, inr, if◌then◌else◌,
}
use azure_sdk_for_c.Double.{DecNumber, Doubles}
use azure_sdk_for_c.Json.Number.{
  az_json_is_e, add_digit, number_int_from, az_span_reader_get_json_number_int, exponent_from,
  read_magnitude, read_integer_part, read_fraction, read_exponent_digits, read_exponent,
  read_dec_number, az_span_reader_get_json_number_digit_rest, minus_one,
}
use azure_sdk_for_c.Memory.{Memory}
use azure_sdk_for_c.Result.Progress.{Takes, Takes-bind, Takes-later}
use azure_sdk_for_c.Result.{Outcome, ◌>>=◌, return, when◌then◌else◌, eof}
use azure_sdk_for_c.Span.Progress.{
  size, Takes-peek, Takes-fail_at_end, Takes-if_at_end, Takes-skip_one,
}
use azure_sdk_for_c.Span.Read.{isdigit}
use azure_sdk_for_c.Span.{Span, peek, if_at_end◌else◌}

-- What is taken after a byte was passed over.
after_one :
    {A : Type 0} (r j : ℕ) (s s' : Span) (o : Outcome Span A)
    → s'.len + 1 ≤ s.len
    → Takes size r j s'.len o
    → Takes size (suc r) j s.len o
after_one r j s s' o h t =
    Takes-later size r j s'.len (suc r) j s.len o (omega arith) (omega arith) (omega arith) t

module _ (m : Memory) (j : ℕ) where
  number_int-Takes :
      (fuel e_offset c : ℕ) (n : DecNumber) (s : Span)
      → s.len ≤ fuel
      → 1 ≤ s.len
      → Takes size 1 j s.len (number_int_from m fuel e_offset c n s)
  unfolding number_int_from
  number_int-Takes zero e_offset c n s f h = absurd (omega arith)
  number_int-Takes (suc fuel) e_offset c n s f h =
      let n' = add_digit e_offset c n in
      Takes-skip_one 1 j s.len _ s h (λ s' h'.
        Takes-if_at_end 1 j s.len (return n')
          (peek m >>= λ c'.
            when not (isdigit c') then return n' else number_int_from m fuel e_offset c' n')
          s' h'
          (λ more.
            Takes-peek 1 j s.len m
              (λ c'.
                when not (isdigit c') then return n' else number_int_from m fuel e_offset c' n')
              s'
              (λ c'. elim (Bool-cases (isdigit c')) [
                | inr stop ↦ rw stop h'
                | inl digit ↦ rw digit (
                    Takes-later size 1 j s'.len 1 j s.len _ (omega arith) (omega arith)
                      (omega arith) (number_int-Takes fuel e_offset c' n' s' (omega arith) more))
              ])))

  exponent-Takes :
      (fuel c e_int : ℕ) (s : Span)
      → s.len ≤ fuel
      → 1 ≤ s.len
      → Takes size 1 j s.len (exponent_from m fuel c e_int s)
  unfolding exponent_from
  exponent-Takes zero c e_int s f h = absurd (omega arith)
  exponent-Takes (suc fuel) c e_int s f h =
      let e' = (e_int * 10 + (c - b'0')) % 2 ^ 16 in
      Takes-skip_one 1 j s.len _ s h (λ s' h'.
        Takes-if_at_end 1 j s.len (return e')
          (peek m >>= λ c'. when isdigit c' then exponent_from m fuel c' e' else return e') s' h'
          (λ more.
            Takes-peek 1 j s.len m
              (λ c'. when isdigit c' then exponent_from m fuel c' e' else return e') s'
              (λ c'. elim (Bool-cases (isdigit c')) [
                | inr stop ↦ rw stop h'
                | inl digit ↦ rw digit (
                    Takes-later size 1 j s'.len 1 j s.len _ (omega arith) (omega arith)
                      (omega arith) (exponent-Takes fuel c' e' s' (omega arith) more))
              ])))

  magnitude-Takes :
      (negative : Bool) (o : ℕ) (s : Span)
      → 1 ≤ s.len
      → Takes size 1 j s.len (read_magnitude m negative o s)
  unfolding read_magnitude az_span_reader_get_json_number_int
  magnitude-Takes negative o s h = elim (Bool-cases (o == b'0')) [
    | inl zero' ↦ rw zero' (Takes-skip_one 1 j s.len _ s h (λ s' h'. h'))
    | inr digit ↦ rw digit (number_int-Takes s.len 0 o _ s (omega arith) h)
  ]

  integer_part-Takes : (s : Span) → 1 ≤ s.len → Takes size 1 j s.len (read_integer_part m s)
  unfolding read_integer_part
  integer_part-Takes s h = Takes-peek 1 j s.len m _ s (λ o. elim (Bool-cases (o == b'-')) [
    | inl minus ↦ rw minus (
        Takes-skip_one 1 j s.len _ s h (λ s' h'.
          Takes-fail_at_end 1 j s.len eof _ s' (omega arith) (λ more.
            Takes-peek 1 j s.len m _ s' (λ o'. elim (Bool-cases (isdigit o')) [
              | inl digit ↦ rw digit (
                  Takes-later size 1 j s'.len 1 j s.len _ (omega arith) (omega arith) (omega arith)
                    (magnitude-Takes true o' s' more))
              | inr other ↦ rw other (omega arith)
            ]))))
    | inr plus ↦ rw plus (magnitude-Takes false o s h)
  ])

  fraction-Takes :
      (i : DecNumber) (s : Span) → 1 ≤ s.len → Takes size 0 j s.len (read_fraction m i s)
  unfolding read_fraction az_span_reader_get_json_number_int
  fraction-Takes i s h = Takes-peek 0 j s.len m _ s (λ c. elim (Bool-cases (c == b'.')) [
    | inl point ↦ rw point (
        Takes-skip_one 0 j s.len _ s h (λ s' h'.
          Takes-fail_at_end 0 j s.len eof _ s' (omega arith) (λ more.
            Takes-peek 0 j s.len m _ s' (λ o. elim (Bool-cases (isdigit o)) [
              | inl digit ↦ rw digit (
                  Takes-later size 1 j s'.len 0 j s.len _ (omega arith) (omega arith) (omega arith)
                    (number_int-Takes s'.len minus_one o i s' (omega arith) more))
              | inr other ↦ rw other (omega arith)
            ]))))
    | inr none' ↦ rw none' (omega arith)
  ])

  exponent_digits-Takes :
      (minus : Bool) (c : ℕ) (i : DecNumber) (s : Span)
      → 1 ≤ s.len
      → Takes size 0 j s.len (read_exponent_digits m minus c i s)
  unfolding read_exponent_digits
  exponent_digits-Takes minus c i s h = elim (Bool-cases (isdigit c)) [
    | inr other ↦ rw other (omega arith)
    | inl digit ↦ rw digit (
        Takes-bind size 1 0 j s.len (exponent_from m s.len c 0) _ s
          (exponent-Takes s.len c 0 s (omega arith) h) (λ e s' h'. omega arith))
  ]

  exponent_part-Takes :
      (i : DecNumber) (s : Span) → 1 ≤ s.len → Takes size 0 j s.len (read_exponent m i s)
  unfolding read_exponent
  exponent_part-Takes i s h = Takes-peek 0 j s.len m _ s (λ e. elim (Bool-cases (az_json_is_e e)) [
    | inr none' ↦ rw none' (omega arith)
    | inl is_e ↦ rw is_e (
        Takes-skip_one 0 j s.len _ s h (λ s' h'.
          Takes-fail_at_end 0 j s.len eof _ s' (omega arith) (λ more.
            Takes-peek 0 j s.len m _ s' (λ c. elim (Bool-cases (c == b'-' || c == b'+')) [
              | inl sign ↦ rw sign (
                  Takes-skip_one 0 j s.len _ s' more (λ s'' h''.
                    Takes-fail_at_end 0 j s.len eof _ s'' (omega arith) (λ more'.
                      Takes-peek 0 j s.len m _ s'' (λ c'.
                        Takes-later size 0 j s''.len 0 j s.len _ (omega arith) (omega arith)
                          (omega arith) (exponent_digits-Takes (c == b'-') c' i s'' more')))))
              | inr digits ↦ rw digits (
                  Takes-later size 0 j s'.len 0 j s.len _ (omega arith) (omega arith) (omega arith)
                    (exponent_digits-Takes false c i s' more))
            ]))))
  ])

  dec_number-Takes : (s : Span) → 1 ≤ s.len → Takes size 1 j s.len (read_dec_number m s)
  unfolding read_dec_number
  dec_number-Takes s h =
      Takes-bind size 1 1 j s.len (read_integer_part m) _ s (integer_part-Takes s h) (λ i s' h'.
        Takes-if_at_end 1 j s.len (return i)
          (read_fraction m i >>= λ i'. if_at_end return i' else read_exponent m i') s' h'
          (λ more.
            Takes-bind size 1 1 j s.len (read_fraction m i)
              (λ i'. if_at_end return i' else read_exponent m i') s'
              (Takes-later size 0 j s'.len 1 j s.len _ (omega arith) (omega arith) (omega arith)
                (fraction-Takes i s' more))
              (λ i' s'' h''.
                Takes-if_at_end 1 j s.len (return i') (read_exponent m i') s'' h'' (λ more'.
                  Takes-later size 0 j s''.len 1 j s.len _ (omega arith) (omega arith) (omega arith)
                    (exponent_part-Takes i' s'' more')))))

  -- A number takes a byte at least.
  pub number-Takes :
      (fp : Doubles) (s : Span)
      → 1 ≤ s.len
      → Takes size 1 j s.len (az_span_reader_get_json_number_digit_rest fp m s)
  unfolding az_span_reader_get_json_number_digit_rest
  number-Takes fp s h =
      Takes-bind size 1 1 j s.len (read_dec_number m) _ s (dec_number-Takes s h) (λ i s' h'. h')
