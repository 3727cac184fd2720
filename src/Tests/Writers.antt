-- ===== src/Tests/Writers.antt =====
-- The builder and the URL encoding: the theorems at concrete inputs.
use azure_sdk_for_c.Base.{arith, ◌+◌, ◌≤◌, ◌<◌, true, Bytes, [], ◌∷◌, ◌++◌, length, ◌≡◌, refl, ◌⊎◌}
use azure_sdk_for_c.Json.Builder.Items.{
  Builds, member_text, az_json_builder_append_array_item_lem, az_json_builder_append_object_lem,
}
use azure_sdk_for_c.Json.Builder.Values.Text.{append_value_lem}
use azure_sdk_for_c.Json.Builder.Values.{
  Value, leaf, list, dict, no_items, item, no_members, member, append_value, value_text, ValueGiven,
  ItemsGiven, MembersGiven,
}
use azure_sdk_for_c.Json.Builder.Writes.{comma, token_text}
use azure_sdk_for_c.Json.Builder.{
  Builder, token_needs_comma, az_json_builder_append_array_item, az_json_builder_append_object,
}
use azure_sdk_for_c.Json.Token.{null, array}
use azure_sdk_for_c.Memory.{Memory, readable, filled}
use azure_sdk_for_c.Result.{done, fail, buffer_overflow}
use azure_sdk_for_c.Source.{literal, source_is_valid}
use azure_sdk_for_c.Span.Url.Encode.{url_encoded, az_span_copy_url_encode_lem}
use azure_sdk_for_c.Span.Url.{az_span_copy_url_encode}
use azure_sdk_for_c.Span.Write.Copy.{Stored, Appended}
use azure_sdk_for_c.Span.Write.Zeros.{zeros, az_span_append_zeros_lem}
use azure_sdk_for_c.Span.Write.Str.{az_span_to_str_lem}
use azure_sdk_for_c.Span.Write.{az_span_to_str, az_span_append_zeros}
use azure_sdk_for_c.Span.{Span, az_span_init, az_span_is_valid}
use azure_sdk_for_c.Tests.{exact, room, empty_target, empty_target-IsOpen}

-- a b
abbrev spaced : Bytes
spaced = b'a' ∷ b' ' ∷ b'b' ∷ []

abbrev space : Span
space = az_span_init 100 0 24

url_encode_example :
    ((length (url_encoded spaced) ≤ 24)
      × (m' : Memory) × (az_span_copy_url_encode space (literal spaced) room
          ≡ done (az_span_init 100 (length (url_encoded spaced)) 24) m')
      × Stored room 100 (url_encoded spaced) m')
    ⊎ ((24 < length (url_encoded spaced))
        × (az_span_copy_url_encode space (literal spaced) room ≡ fail buffer_overflow room))
unfolding readable filled az_span_is_valid
url_encode_example =
    az_span_copy_url_encode_lem room space (literal spaced) spaced
      (record { provides = refl; apart = tt }) refl refl

-- A builder behind its first item.
abbrev started : Builder
started = record { json = empty_target; need_comma = true }

array_item_example :
    Builds
      (az_json_builder_append_array_item exact array)
      started
      (comma true ++ token_text exact array [])
      (token_needs_comma exact array)
array_item_example =
    az_json_builder_append_array_item_lem exact array [] started empty_target-IsOpen tt

object_example :
    Builds
      (az_json_builder_append_object exact (literal spaced) null)
      started
      (comma true ++ member_text exact null [] spaced)
      (token_needs_comma exact null)
object_example =
    az_json_builder_append_object_lem exact null [] started (literal spaced) spaced
      empty_target-IsOpen (record { provides = refl; apart = tt }) tt

-- [null,{"a b":null}]
abbrev nested : Value exact.Double
nested = list (
    item (leaf null [])
      (item (dict (member (literal spaced) spaced (leaf null []) no_members)) no_items))

nested-ValueGiven : ValueGiven exact nested empty_target
unfolding ValueGiven ItemsGiven MembersGiven token_needs_comma
nested-ValueGiven = ((tt, refl), ((record { provides = refl; apart = tt }, ((tt, refl), tt)), tt))

append_value_example :
    Builds
      (append_value exact (az_json_builder_append_array_item exact) nested)
      started
      (comma true ++ value_text exact nested)
      true
append_value_example = append_value_lem exact started nested empty_target-IsOpen nested-ValueGiven

to_str_example :
    ((3 < 24)
      × (m' : Memory) × (az_span_to_str 100 24 (literal spaced) room ≡ done tt m')
      × Stored room 100 (spaced ++ (0 ∷ [])) m')
    ⊎ ((24 ≤ 3) × (az_span_to_str 100 24 (literal spaced) room ≡ fail buffer_overflow room))
unfolding readable filled source_is_valid
to_str_example = az_span_to_str_lem room 100 24 (literal spaced) spaced refl refl refl

zeros_example :
    ((0 + 5 ≤ 24)
      × (m' : Memory) × (s' : Span) × (az_span_append_zeros space 5 room ≡ done s' m')
      × Appended room space (zeros 5) m' s')
    ⊎ ((24 < 0 + 5) × (az_span_append_zeros space 5 room ≡ fail buffer_overflow room))
unfolding readable filled
zeros_example =
    az_span_append_zeros_lem room space 5 (record { buffer = refl; within = omega arith })
