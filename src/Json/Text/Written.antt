-- ===== src/Json/Text/Written.antt =====
-- Strings written by `az_json_builder_write_span` and read by
-- `_az_span_reader_read_json_string_char`.
use azure_sdk_for_c.Base.{
  ◌+◌, ◌≤◌, ◌<◌, Bytes, [], ◌∷◌, ◌++◌, length, length-append, ◌≡◌, arith, All,
}
use azure_sdk_for_c.Json.Text.{az_span_reader_read_json_string_char, az_json_builder_write_span}
use azure_sdk_for_c.Json.Text.Escape.{escaped, write_span-Emits}
use azure_sdk_for_c.Json.Text.RoundTrip.{ReadsChars, read-escaped}
use azure_sdk_for_c.Memory.{Memory}
use azure_sdk_for_c.Result.{done, fail, item_not_found, json_string_end}
use azure_sdk_for_c.Source.{Source}
use azure_sdk_for_c.Source.Streams.{Provides-len}
use azure_sdk_for_c.Span.{Span, Views, az_span_slice, to_end}
use azure_sdk_for_c.Span.Slice.{Views-az_span_slice}
use azure_sdk_for_c.Span.Write.{Target}
use azure_sdk_for_c.Span.Write.Emits.{IsOpen, Extends-Views}
use azure_sdk_for_c.Span.Write.Given.{Given}
use azure_sdk_for_c.Span.Yields.{Fails, Fails-throw, Fails-bind, Yields-fail_at_end, Yields-peek}

-- A closing quote ends the string, and the reader stays in front of it.
read_quote :
    (m : Memory) (rest : Bytes)
    → Fails m (az_span_reader_read_json_string_char m) (b'"' ∷ rest) json_string_end (b'"' ∷ rest)
unfolding az_span_reader_read_json_string_char
read_quote m rest =
    let bs = b'"' ∷ rest in
    Fails-bind m _ _ bs tt json_string_end bs bs (Yields-fail_at_end m item_not_found b'"' rest) (
      Fails-bind m _ _ bs b'"' json_string_end bs bs (Yields-peek m b'"' rest)
        (Fails-throw m json_string_end bs))

-- A value of bytes that is given to the writer, with an empty target that has room for the escaped
-- text and two quotes, is written; and reading the characters behind the opening quote of what was
-- written returns the bytes of the value, and then reports the end of the string.
pub write_span-read :
    (value : Source) (cs : Bytes) (t : Target)
    → All (λ c. c < 256) cs
    → Given value cs t
    → IsOpen t
    → t.self.len ≡ 0
    → length (escaped cs) + 2 ≤ t.self.capacity
    → (t' : Target) × (az_json_builder_write_span value t ≡ done tt t')
      × (s : Span) × ReadsChars t'.mem cs (az_span_slice t'.self 1 to_end) s
      × (s' : Span) × (az_span_reader_read_json_string_char t'.mem s ≡ fail json_string_end s')
write_span-read value cs t bytes given ready empty room =
    let text = b'"' ∷ (escaped cs ++ b'"' ∷ []) in
    let fits : t.self.len + length text ≤ t.self.capacity =
      omega (arith, length-append (escaped cs) (b'"' ∷ [])) in
    let emits = write_span-Emits value cs (Provides-len t.mem value cs given.provides) in
    let (t', e, x) = emits.fits t ready given fits in
    let seen : Views t'.mem t'.self text =
      Extends-Views {xs = []} x fits (record { count = empty; fits = ready.within; holds = tt }) in
    let (s, reads, v) =
      read-escaped t'.mem cs (b'"' ∷ []) _ bytes (Views-az_span_slice 1 to_end text seen).0 in
    let (s', end, v') = read_quote t'.mem [] s v in (t', e, s, reads, s', end)
