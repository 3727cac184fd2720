-- ===== src/Tests.antt =====
-- Concrete runs, and the theorems at concrete inputs.
mod Requests
mod Writers
mod Lookups
mod Reading
mod Responses
mod Pipelines
mod Bodies
mod Logs
use azure_sdk_for_c.Base.{◌+◌, false, none, Bytes, [], ◌∷◌, length, ◌==◌, ◌≡◌, refl, arith}
use azure_sdk_for_c.Double.{DecNumber, Doubles}
use azure_sdk_for_c.Json.Get.{az_json_parse_by_pointer}
use azure_sdk_for_c.Json.Token.{number}
use azure_sdk_for_c.Memory.{Memory, written}
use azure_sdk_for_c.Result.{done}
use azure_sdk_for_c.Json.Pointer.{
  az_span_reader_read_json_pointer_token, az_span_reader_read_json_pointer_token_char,
}
use azure_sdk_for_c.Json.Stack.{
  az_json_parser_stack_is_empty, az_json_parser_push_stack, az_json_parser_stack_last,
}
use azure_sdk_for_c.Json.Text.{az_span_reader_read_json_string_char}
use azure_sdk_for_c.Source.{byte_at}
use azure_sdk_for_c.Span.Read.{az_span_to_uint64, to_uint64_from}
use azure_sdk_for_c.Span.{Span, az_span_init, peek, skip, az_span_slice, to_end, Views}
use azure_sdk_for_c.Base.{◌++◌, ◌≤◌, ◌<◌, if◌then◌else◌, ◌⊎◌}
use azure_sdk_for_c.Base.Int.{pos, negsuc}
use azure_sdk_for_c.Json.Stack.Bounded.{word, pushed, popped, is_nil, top_or_array, stack_refines}
use azure_sdk_for_c.Json.Stack.{az_json_stack_pop, stack_object, stack_array}
use azure_sdk_for_c.Json.Text.Escape.{escape, escaped, az_json_builder_write_span_lem}
use azure_sdk_for_c.Json.Text.RoundTrip.{ReadsChars}
use azure_sdk_for_c.Json.Text.Written.{write_span-read}
use azure_sdk_for_c.Json.Text.{az_json_builder_write_span, az_json_esc_encode}
use azure_sdk_for_c.Hex.{az_number_to_upper_hex}
use azure_sdk_for_c.Memory.{readable, filled}
use azure_sdk_for_c.Result.Codes.{is_failure, result_code_faithful}
use azure_sdk_for_c.Result.{
  fail, buffer_overflow, json_string_end, eof, failure, az_failed, result_code,
}
use azure_sdk_for_c.Source.{at, literal, source_is_valid}
use azure_sdk_for_c.Span.Decimal.Print.{IsIntegerText, az_span_append_int64_lem}
use azure_sdk_for_c.Span.Decimal.RoundTrip.{to_uint64-append_uint64}
use azure_sdk_for_c.Span.Decimal.{az_span_append_uint64, az_span_append_int64}
use azure_sdk_for_c.Span.Read.Uint64.{uint64_text, az_span_to_uint64_lem}
use azure_sdk_for_c.Span.Slice.{sliced, Views-az_span_slice}
use azure_sdk_for_c.Span.Write.Copy.{IsBuilder, Appended, az_span_append_lem}
use azure_sdk_for_c.Span.Write.Emits.{IsOpen, Appends}
use azure_sdk_for_c.Span.Write.Given.{Given}
use azure_sdk_for_c.Span.Write.{Target, az_span_append}

abbrev pub exact : Doubles
exact = record {
  Double = DecNumber;
  from_decimal = λ n. n;
  is_zero = λ n. n.value == 0;
  is_negative = λ n. n.negative;
  negate = λ n. record n { negative = false };
  to_uint64 = λ n. n.value;
  equals_uint64 = λ n u. n.value == u;
}

abbrev pub nowhere : Memory
nowhere a = none

-- [7, {"ab": 12.5}]
abbrev sample : Bytes
sample =
    b'[' ∷ b'7' ∷ b',' ∷ b' ' ∷ b'{' ∷ b'"' ∷ b'a' ∷ b'b' ∷ b'"' ∷ b':' ∷ b' ' ∷ b'1' ∷ b'2' ∷ b'.'
    ∷ b'5' ∷ b'}' ∷ b']' ∷ []

-- /1/ab
abbrev pointer : Bytes
pointer = b'/' ∷ b'1' ∷ b'/' ∷ b'a' ∷ b'b' ∷ []

abbrev pub mem : Memory
mem = written (written nowhere 100 sample) 200 pointer

get_runs :
    az_json_parse_by_pointer exact mem (az_span_init 100 17 17) (az_span_init 200 5 5) tt
    ≡ done (number (record { negative = false; value = 125; remainder = false; exp = 65535 })) tt
unfolding az_json_parse_by_pointer written az_json_parser_stack_is_empty peek skip
    az_json_parser_push_stack az_span_reader_read_json_pointer_token az_span_to_uint64
    to_uint64_from byte_at az_json_parser_stack_last az_span_reader_read_json_string_char
    az_span_reader_read_json_pointer_token_char
get_runs = refl

-- 24 bytes at 100.
abbrev pub room : Memory
room = filled nowhere 100 0 24

abbrev pub empty_target : Target
empty_target = record { mem = room; self = az_span_init 100 0 24 }

pub empty_target-IsOpen : IsOpen empty_target
unfolding readable filled
empty_target-IsOpen = record { buffer = refl; within = omega arith }

-- A control character, a quote and a letter.
abbrev three : Bytes
three = 1 ∷ b'"' ∷ b'a' ∷ []

three-Given : Given (literal three) three empty_target
three-Given = record { provides = refl; apart = tt }

write_span-read_example :
    (t' : Target) × (az_json_builder_write_span (literal three) empty_target ≡ done tt t')
    × (s : Span) × ReadsChars t'.mem three (az_span_slice t'.self 1 to_end) s
    × (s' : Span) × (az_span_reader_read_json_string_char t'.mem s ≡ fail json_string_end s')
unfolding escape az_json_esc_encode az_number_to_upper_hex
write_span-read_example =
    write_span-read (literal three) three empty_target
      (omega arith, (omega arith, (omega arith, tt))) three-Given empty_target-IsOpen refl
      (omega arith)

write_span_example :
    Appends
      (az_json_builder_write_span (literal three))
      empty_target
      (b'"' ∷ (escaped three ++ b'"' ∷ []))
write_span_example =
    az_json_builder_write_span_lem (literal three) three empty_target three-Given
      empty_target-IsOpen

to_uint64-append_uint64_example :
    (t' : Target) × (az_span_append_uint64 18_446_744_073_709_551_615 empty_target ≡ done tt t')
    × (az_span_to_uint64 t'.mem (at t'.self) (tt {0}) ≡ done 18_446_744_073_709_551_615 tt)
to_uint64-append_uint64_example =
    to_uint64-append_uint64 18_446_744_073_709_551_615 empty_target tt (omega arith)
      empty_target-IsOpen refl (omega arith)

append_int64_example :
    (text : Bytes) × IsIntegerText (negsuc 41) text
    × Appends (az_span_append_int64 (negsuc 41)) empty_target text
append_int64_example =
    az_span_append_int64_lem (negsuc 41) empty_target (omega arith) empty_target-IsOpen

stack_refines_example :
    (az_json_parser_push_stack stack_array (word (stack_object ∷ [])) (tt {0})
      ≡ pushed stack_array (stack_object ∷ []) tt)
    × (az_json_stack_pop (word (stack_object ∷ [])) (tt {0}) ≡ popped (stack_object ∷ []) tt)
    × (az_json_parser_stack_is_empty (word (stack_object ∷ [])) ≡ is_nil (stack_object ∷ []))
    × (az_json_parser_stack_last (word (stack_object ∷ [])) ≡ top_or_array (stack_object ∷ []))
stack_refines_example = stack_refines stack_array (stack_object ∷ []) tt

abbrev two_bytes : Span
two_bytes = az_span_init 100 2 24

two_bytes-IsBuilder : IsBuilder room two_bytes
unfolding readable filled
two_bytes-IsBuilder = record { buffer = refl; within = omega arith }

append_example :
    ((two_bytes.len + length three ≤ two_bytes.capacity)
      × (m' : Memory) × (s' : Span) × (az_span_append two_bytes (literal three) room ≡ done s' m')
      × Appended room two_bytes three m' s')
    ⊎ ((two_bytes.capacity < two_bytes.len + length three)
        × (az_span_append two_bytes (literal three) room ≡ fail buffer_overflow room))
unfolding source_is_valid
append_example =
    az_span_append_lem room two_bytes (literal three) three two_bytes-IsBuilder refl refl

abbrev forty_two : Bytes
forty_two = b'4' ∷ b'2' ∷ []

to_uint64_example :
    az_span_to_uint64 nowhere (literal forty_two) (tt {0})
    ≡ (if length forty_two == 0 then fail eof tt else uint64_text 0 forty_two tt)
to_uint64_example = az_span_to_uint64_lem nowhere (literal forty_two) forty_two tt refl

abbrev pointer_span : Span
pointer_span = az_span_init 200 5 9

pointer-Views : Views mem pointer_span pointer
unfolding written
pointer-Views = record {
  count = refl;
  fits = omega arith;
  holds = (refl, (refl, (refl, (refl, (refl, tt)))));
}

result_code_example :
    (failure eof ≡ failure eof) × (az_failed (result_code (failure eof)) ≡ is_failure (failure eof))
result_code_example = result_code_faithful (failure eof) (failure eof) refl
