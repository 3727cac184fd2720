-- ===== src/Tests/Lookups.antt =====
-- Lookups by a JSON pointer: the theorems at concrete inputs.
use azure_sdk_for_c.Base.{◌≡◌}
use azure_sdk_for_c.Json.Get.{az_json_parse_by_pointer}
use azure_sdk_for_c.Json.Parser.{
  Parser, az_json_parser_parse_array_item, az_json_parser_parse_token_member,
}
use azure_sdk_for_c.Json.Progress.Ends.{az_json_parse_by_pointer-ends}
use azure_sdk_for_c.Json.Progress.Skip.{az_json_parser_skip_children-ends, parse_item-ends}
use azure_sdk_for_c.Json.Progress.Value.{left}
use azure_sdk_for_c.Json.Skip.{az_json_parser_skip_children}
use azure_sdk_for_c.Json.Token.{array}
use azure_sdk_for_c.Result.Progress.{Takes}
use azure_sdk_for_c.Result.{hang}
use azure_sdk_for_c.Span.{az_span_init}
use azure_sdk_for_c.Tests.{exact, mem}

ends_example : ¬ (
    az_json_parse_by_pointer exact mem (az_span_init 100 17 17) (az_span_init 200 5 5) (tt {0})
    ≡ hang)
ends_example =
    az_json_parse_by_pointer-ends exact mem (az_span_init 100 17 17) (az_span_init 200 5 5) tt

-- Inside of the array.
abbrev inside : Parser
inside = record { reader = az_span_init 101 16 16; stack = 3 }

parse_item_example :
    Takes left 1 1 16 (az_json_parser_parse_array_item exact mem inside)
    × Takes left 1 1 16 (az_json_parser_parse_token_member exact mem inside)
parse_item_example = parse_item-ends exact mem inside

skip_example : Takes left 0 0 16 (az_json_parser_skip_children exact mem array inside)
skip_example = az_json_parser_skip_children-ends exact mem array inside
