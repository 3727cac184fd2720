-- ===== src/Json/Progress/Text.antt =====
-- The readers of strings.
use azure_sdk_for_c.Base.{
  ℕ, zero, suc, ◌+◌, ◌*◌, ◌%◌, ◌^◌, ◌≤◌, ltb, ◌==◌, arith, Bool-cases, inl, inr,
}
use azure_sdk_for_c.Hex.{az_hex_to_digit}
use azure_sdk_for_c.Json.Text.{
  az_json_esc_decode, read_hex_digits, az_span_reader_read_json_string_char,
}
use azure_sdk_for_c.Memory.{Memory}
use azure_sdk_for_c.Result.Progress.{Takes, Takes-bind, Takes-later}
use azure_sdk_for_c.Result.{Run, when◌then◌else◌, eof, item_not_found}
use azure_sdk_for_c.Span.Progress.{size, Takes-peek, Takes-fail_at_end, Takes-skip_one, Takes-skip}
use azure_sdk_for_c.Span.{Span, skip}

-- A run that keeps the reader.
abbrev pub Stays : {A : Type 0} → Run Span A → Type 0
Stays run = (j : ℕ) (s : Span) → Takes size 0 j s.len (run s)

hex_to_digit-Stays : (c : ℕ) → Stays (az_hex_to_digit c)
unfolding az_hex_to_digit
hex_to_digit-Stays c j s = ground arith

esc_decode-Stays : (c : ℕ) → Stays (az_json_esc_decode c)
unfolding az_json_esc_decode
esc_decode-Stays c j s = ground arith

hex_digits-Takes :
    (m : Memory) (n r j : ℕ) (s : Span) → Takes size 0 j s.len (read_hex_digits m n r s)
unfolding read_hex_digits
hex_digits-Takes m zero r j s = omega arith
hex_digits-Takes m (suc n) r j s = Takes-fail_at_end 0 j s.len eof _ s (omega arith) (λ h.
    Takes-peek 0 j s.len m _ s (λ c.
      Takes-bind size 0 0 j s.len (az_hex_to_digit c) _ s (hex_to_digit-Stays c j s) (λ d s' h'.
        Takes-bind size 0 0 j s.len (skip 1) _ s' (Takes-skip 1 0 j s.len s' (omega arith))
          (λ u s'' h''.
            Takes-later size 0 j s''.len 0 j s.len _ (omega arith) (omega arith) (omega arith)
              (hex_digits-Takes m n ((r * 2 ^ 4 + d) % 2 ^ 32) j s'')))))

-- A character that is read takes a byte.
pub string_char-Takes :
    (m : Memory) (s : Span) → Takes size 1 0 s.len (az_span_reader_read_json_string_char m s)
unfolding az_span_reader_read_json_string_char
string_char-Takes m s = Takes-fail_at_end 1 0 s.len item_not_found _ s (omega arith) (λ h.
    Takes-peek 1 0 s.len m _ s (λ c. elim (Bool-cases (c == b'"')) [
      | inl quote ↦ rw quote (omega arith)
      | inr e1 ↦ rw e1 (elim (Bool-cases (c == b'\\')) [
        | inl escape ↦ rw escape (
            Takes-skip_one 1 0 s.len _ s h (λ s' h'.
              Takes-fail_at_end 1 0 s.len eof _ s' (omega arith) (λ h2.
                Takes-peek 1 0 s.len m _ s' (λ d.
                  Takes-skip_one 1 0 s.len _ s' h2 (λ s'' h''. escape_end d s'' (omega arith))))))
        | inr e2 ↦ rw e2 (elim (Bool-cases (ltb c 0x20)) [
          | inl control ↦ rw control (omega arith)
          | inr plain ↦ rw plain (Takes-skip_one 1 0 s.len _ s h (λ s' h'. h'))
        ])
      ])
    ]))
  where
    escape_end :
        (d : ℕ) (s'' : Span)
        → s''.len + 1 ≤ s.len
        → Takes size 1 0 s.len
            ((when d == b'u' then read_hex_digits m 4 0 else az_json_esc_decode d) s'')
    escape_end d s'' h = elim (Bool-cases (d == b'u')) [
      | inl u ↦ rw u (
          Takes-later size 0 0 s''.len 1 0 s.len _ (omega arith) (omega arith) (omega arith)
            (hex_digits-Takes m 4 0 0 s''))
      | inr e ↦ rw e (
          Takes-later size 0 0 s''.len 1 0 s.len _ (omega arith) (omega arith) (omega arith)
            (esc_decode-Stays d 0 s''))
    ]
