-- ===== src/Json/Progress/Pointer.antt =====
-- The readers of JSON pointers.
use azure_sdk_for_c.Base.{
  ℕ, zero, suc, ◌+◌, ◌≤◌, ◌<◌, true, false, ◌==◌, arith, Bool-cases, inl, inr,
}
use azure_sdk_for_c.Json.Pointer.{
  unescape, az_span_reader_read_json_pointer_char, token_ends, pointer_token_from,
  az_span_reader_read_json_pointer_token, token_char_fails,
  az_span_reader_read_json_pointer_token_char,
}
use azure_sdk_for_c.Json.Progress.Text.{Stays}
use azure_sdk_for_c.Memory.{Memory}
use azure_sdk_for_c.Result.Progress.{Takes, Takes-later}
use azure_sdk_for_c.Result.{
  Run, Outcome, fault, hang, fail, done, Error, eof, item_not_found, json_pointer_token_end,
}
use azure_sdk_for_c.Span.Progress.{size, Takes-peek, Takes-fail_at_end, Takes-skip_one}
use azure_sdk_for_c.Span.{Span}

unescape-Stays : (e : ℕ) → Stays (unescape e)
unfolding unescape
unescape-Stays e j s = ground arith

module _ (m : Memory) where
  -- A character takes a byte.
  pointer_char-Takes : (s : Span) → Takes size 1 0 s.len (az_span_reader_read_json_pointer_char m s)
  unfolding az_span_reader_read_json_pointer_char
  pointer_char-Takes s = Takes-fail_at_end 1 0 s.len item_not_found _ s (omega arith) (λ h.
      Takes-peek 1 0 s.len m _ s (λ c. elim (Bool-cases (c == b'/')) [
        | inl slash ↦ rw slash (omega arith)
        | inr e1 ↦ rw e1 (elim (Bool-cases (c == b'~')) [
          | inr plain ↦ rw plain (Takes-skip_one 1 0 s.len _ s h (λ s' h'. h'))
          | inl tilde ↦ rw tilde (
              Takes-skip_one 1 0 s.len _ s h (λ s' h'.
                Takes-fail_at_end 1 0 s.len eof _ s' (omega arith) (λ h2.
                  Takes-peek 1 0 s.len m _ s' (λ e. Takes-skip_one 1 0 s.len _ s' h2 (λ s'' h''.
                    Takes-later size 0 0 s''.len 1 0 s.len _ (omega arith) (omega arith)
                      (omega arith) (unescape-Stays e 0 s''))))))
        ])
      ]))

  pub token_char-Takes :
      (s : Span) → Takes size 1 0 s.len (az_span_reader_read_json_pointer_token_char m s)
  unfolding az_span_reader_read_json_pointer_token_char token_char_fails
  token_char-Takes s = go (az_span_reader_read_json_pointer_char m s) (pointer_char-Takes s)
    where
      go :
          (o : Outcome Span ℕ)
          → Takes size 1 0 s.len o
          → Takes size 1 0 s.len (elim o [
            | fault ↦ fault
            | hang ↦ hang
            | fail e self' ↦ token_char_fails e self'
            | done c self' ↦ done c self'
          ])
      go fault t = tt
      go hang t = elim t [ ]
      go (fail json_pointer_token_end s') t = t
      go (fail item_not_found s') t = t
      go (fail _ s') t = t
      go (done c s') t = t

  token_ends-Takes :
      (p l : ℕ) (e : Error) (s : Span) (n : ℕ) → s.len ≤ n → Takes size 0 0 n (token_ends p l e s)
  unfolding token_ends
  token_ends-Takes p l json_pointer_token_end s n h = omega arith
  token_ends-Takes p l item_not_found s n h = omega arith
  token_ends-Takes p l _ s n h = omega arith

  token_from-Takes :
      (fuel p l : ℕ) (s : Span)
      → s.len < fuel
      → Takes size 0 0 s.len (pointer_token_from m fuel p l s)
  unfolding pointer_token_from
  token_from-Takes zero p l s f = absurd (omega arith)
  token_from-Takes (suc fuel) p l s f =
      go (λ s' h. token_from-Takes fuel p l s' h) (az_span_reader_read_json_pointer_char m s)
        (pointer_char-Takes s)
    where
      go :
          ((s' : Span) → s'.len < fuel → Takes size 0 0 s'.len (pointer_token_from m fuel p l s'))
          → (o : Outcome Span ℕ) → Takes size 1 0 s.len o
          → Takes size 0 0 s.len (elim o [
            | fault ↦ fault
            | hang ↦ hang
            | fail e self' ↦ token_ends p l e self'
            | done c self' ↦ pointer_token_from m fuel p l self'
          ])
      go next fault t = tt
      go next hang t = elim t [ ]
      go next (fail e s') t = token_ends-Takes p l e s' s.len (omega arith)
      go next (done c s') t =
          Takes-later size 0 0 s'.len 0 0 s.len _ (omega arith) (omega arith) (omega arith)
            (next s' (omega arith))

  -- What follows the slash.
  after_slash : Run Span Span
  after_slash self = elim (self.len == 0) [
    | true ↦ done self self
    | false ↦ pointer_token_from m (suc self.len) self.ptr self.capacity self
  ]

  after_slash-Takes : (n : ℕ) (s : Span) → s.len + 1 ≤ n → Takes size 1 0 n (after_slash s)
  unfolding after_slash
  after_slash-Takes n s h = elim (Bool-cases (s.len == 0)) [
    | inl end' ↦ rw (end', after_slash) h
    | inr more ↦
        rw (more, after_slash)
          (Takes-later size 0 0 s.len 1 0 n _ (omega arith) (omega arith) (omega arith)
            (token_from-Takes (suc s.len) s.ptr s.capacity s (omega arith)))
  ]

  -- A token takes its slash at least.
  pub pointer_token-Takes :
      (s : Span) → Takes size 1 0 s.len (az_span_reader_read_json_pointer_token m s)
  unfolding az_span_reader_read_json_pointer_token after_slash
  pointer_token-Takes s = Takes-fail_at_end 1 0 s.len item_not_found _ s (omega arith) (λ h.
      Takes-peek 1 0 s.len m _ s (λ c. elim (Bool-cases (c == b'/')) [
        | inr other ↦ rw other (omega arith)
        | inl slash ↦
            rw slash
              (Takes-skip_one 1 0 s.len after_slash s h (λ s' h'. after_slash-Takes s.len s' h'))
      ]))
