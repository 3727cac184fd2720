-- ===== src/Json/Progress/Strings.antt =====
-- The readers of white space and of strings as a whole.
use azure_sdk_for_c.Base.{ℕ, zero, suc, ◌≤◌, ◌<◌, ◌==◌, arith, Bool-cases, inl, inr}
use azure_sdk_for_c.Json.Parser.{
  az_json_is_white_space, skip_white_space_from, az_span_reader_skip_json_white_space, string_ends,
  string_rest_from, az_span_reader_get_json_string_rest,
}
use azure_sdk_for_c.Json.Progress.Text.{string_char-Takes}
use azure_sdk_for_c.Json.Text.{az_span_reader_read_json_string_char}
use azure_sdk_for_c.Memory.{Memory}
use azure_sdk_for_c.Result.Progress.{Takes, Takes-bind, Takes-later}
use azure_sdk_for_c.Result.{
  Outcome, fault, hang, fail, done, return, Error, item_not_found, json_string_end,
}
use azure_sdk_for_c.Span.Progress.{size, Takes-peek, Takes-if_at_end, Takes-skip_one, Takes-skip}
use azure_sdk_for_c.Span.{Span, skip, at_end}

module _ (m : Memory) (j : ℕ) where
  white_space_from-Takes :
      (fuel : ℕ) (s : Span)
      → s.len ≤ fuel
      → 1 ≤ s.len
      → Takes size 0 j s.len (skip_white_space_from m fuel s)
  unfolding skip_white_space_from
  white_space_from-Takes zero s f h = absurd (omega arith)
  white_space_from-Takes (suc fuel) s f h = Takes-peek 0 j s.len m _ s (λ c.
      elim (Bool-cases (az_json_is_white_space c)) [
        | inr other ↦ rw other (omega arith)
        | inl space ↦ rw space (
            Takes-skip_one 0 j s.len _ s h (λ s' h'.
              Takes-if_at_end 0 j s.len (return tt) (skip_white_space_from m fuel) s' (omega arith)
                (λ more.
                  Takes-later size 0 j s'.len 0 j s.len _ (omega arith) (omega arith) (omega arith)
                    (white_space_from-Takes fuel s' (omega arith) more))))
      ])

  pub white_space-Takes :
      (s : Span) → Takes size 0 j s.len (az_span_reader_skip_json_white_space m s)
  unfolding az_span_reader_skip_json_white_space
  white_space-Takes s = elim (Bool-cases (s.len == 0)) [
    | inl end' ↦ rw (end', az_span_reader_skip_json_white_space, at_end) (omega arith)
    | inr more ↦
        rw (more, az_span_reader_skip_json_white_space, at_end)
          (white_space_from-Takes s.len s (omega arith) (ground arith))
  ]

  string_ends-Takes :
      (p l : ℕ) (e : Error) (s : Span) (n : ℕ) → s.len ≤ n → Takes size 0 j n (string_ends p l e s)
  unfolding string_ends
  string_ends-Takes p l json_string_end s n h =
      Takes-bind size 0 0 j n (skip 1) _ s (Takes-skip 1 0 j n s (omega arith)) (λ u s' h'. h')
  string_ends-Takes p l item_not_found s n h = omega arith
  string_ends-Takes p l _ s n h = omega arith

  string_rest_from-Takes :
      (fuel p l : ℕ) (s : Span)
      → s.len < fuel
      → Takes size 0 j s.len (string_rest_from m fuel p l s)
  unfolding string_rest_from
  string_rest_from-Takes zero p l s f = absurd (omega arith)
  string_rest_from-Takes (suc fuel) p l s f =
      go (λ s' h. string_rest_from-Takes fuel p l s' h) (az_span_reader_read_json_string_char m s)
        (string_char-Takes m s)
    where
      go :
          ((s' : Span) → s'.len < fuel → Takes size 0 j s'.len (string_rest_from m fuel p l s'))
          → (o : Outcome Span ℕ) → Takes size 1 0 s.len o
          → Takes size 0 j s.len (elim o [
            | fault ↦ fault
            | hang ↦ hang
            | fail e self' ↦ string_ends p l e self'
            | done c self' ↦ string_rest_from m fuel p l self'
          ])
      go next fault t = tt
      go next hang t = elim t [ ]
      go next (fail e s') t = string_ends-Takes p l e s' s.len (omega arith)
      go next (done c s') t =
          Takes-later size 0 j s'.len 0 j s.len _ (omega arith) (omega arith) (omega arith)
            (next s' (omega arith))

  pub string_rest-Takes :
      (s : Span) → Takes size 0 j s.len (az_span_reader_get_json_string_rest m s)
  unfolding az_span_reader_get_json_string_rest
  string_rest-Takes s = string_rest_from-Takes (suc s.len) s.ptr s.capacity s (omega arith)
