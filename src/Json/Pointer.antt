-- ===== src/Json/Pointer.antt =====
-- sdk/core/core/src/az_json_pointer.c: the reference tokens of a JSON pointer, and their characters.
use azure_sdk_for_c.Base.{ℕ, zero, suc, ◌-◌, true, false, not, ◌==◌}
use azure_sdk_for_c.Memory.{Memory}
use azure_sdk_for_c.Result.{
  Run, fault, hang, fail, done, ◌>>=◌, ◌>>◌, when◌then◌else◌, return, throw, Error, eof,
  item_not_found, json_pointer_token_end, parser_unexpected_char,
}
use azure_sdk_for_c.Span.{Span, az_span_init, peek, skip, fail_at_end}

-- The `switch` on the byte behind a `~`.
unfoldable pub unescape : ℕ → Run Span ℕ
unescape e =
    when e == b'0'
    then return b'~'
    else when e == b'1'
    then return b'/'
    else throw parser_unexpected_char

unfoldable pub az_span_reader_read_json_pointer_char : Memory → Run Span ℕ
unfolding unescape
az_span_reader_read_json_pointer_char m = do
  fail_at_end item_not_found
  result ← peek m
  when result == b'/'
      then throw json_pointer_token_end
      else when result == b'~'
      then (do skip 1; fail_at_end eof; e ← peek m; skip 1; unescape e)
      else (do skip 1; return result)

-- What the loop below does with an error: a token ends at a `/` and at the end of the pointer.
unfoldable pub token_ends : ℕ → ℕ → Error → Run Span Span
token_ends p_reader initial_capacity json_pointer_token_end self =
    let current_capacity = initial_capacity - self.capacity in
    done (az_span_init p_reader current_capacity current_capacity) self
token_ends p_reader initial_capacity item_not_found self =
    let current_capacity = initial_capacity - self.capacity in
    done (az_span_init p_reader current_capacity current_capacity) self
token_ends p_reader initial_capacity e self = fail e self

-- The loop of `_az_span_reader_read_json_pointer_token`, with at most `fuel` rounds.
unfoldable pub pointer_token_from : Memory → ℕ → ℕ → ℕ → Run Span Span
unfolding token_ends az_span_reader_read_json_pointer_char
pointer_token_from m zero p_reader initial_capacity self = hang
pointer_token_from m (suc fuel) p_reader initial_capacity self =
    elim (az_span_reader_read_json_pointer_char m self) [
      | fault ↦ fault
      | hang ↦ hang
      | fail e self' ↦ token_ends p_reader initial_capacity e self'
      | done c self' ↦ pointer_token_from m fuel p_reader initial_capacity self'
    ]

-- A round that goes on takes a byte, and the last one none. At the end of the pointer the token is
-- the empty span that is left.
unfoldable pub az_span_reader_read_json_pointer_token : Memory → Run Span Span
unfolding pointer_token_from
az_span_reader_read_json_pointer_token m = do
  fail_at_end item_not_found
  c ← peek m
  when not (c == b'/') then throw parser_unexpected_char else return tt
  skip 1
  (λ self. elim (self.len == 0) [
    | true ↦ done self self
    | false ↦ pointer_token_from m (suc self.len) self.ptr self.capacity self
  ])

-- A `/` may not stand in a token.
unfoldable pub token_char_fails : Error → Run Span ℕ
token_char_fails json_pointer_token_end self = fail parser_unexpected_char self
token_char_fails e self = fail e self

unfoldable pub az_span_reader_read_json_pointer_token_char : Memory → Run Span ℕ
unfolding az_span_reader_read_json_pointer_char token_char_fails
az_span_reader_read_json_pointer_token_char m self =
    elim (az_span_reader_read_json_pointer_char m self) [
      | fault ↦ fault
      | hang ↦ hang
      | fail e self' ↦ token_char_fails e self'
      | done c self' ↦ done c self'
    ]
