-- ===== src/Json/Token.antt =====
-- The tokens of sdk/core/core/inc/az_json.h, and src/az_json_token.c.
use azure_sdk_for_c.Base.{Bool}
use azure_sdk_for_c.Result.{Run, return, throw, item_not_found}
use azure_sdk_for_c.Span.{Span}

-- `az_json_token`: its kind with the member of the union that goes with it.
pub data Token (D : Type 0) : Type 0 where
  null : Token D
  boolean : Bool → Token D
  number : D → Token D
  string : Span → Token D
  object : Token D
  array : Token D
  span : Span → Token D

-- `az_json_token_member`
pub record TokenMember (D : Type 0) : Type 0 where
  pub name : Span
  pub token : Token D

module _ {D S : Type 0} where
  unfoldable pub az_json_token_get_boolean : Token D → Run S Bool
  az_json_token_get_boolean (boolean b) = return b
  az_json_token_get_boolean _ = throw item_not_found

  unfoldable pub az_json_token_get_string : Token D → Run S Span
  az_json_token_get_string (string s) = return s
  az_json_token_get_string _ = throw item_not_found

  unfoldable pub az_json_token_get_number : Token D → Run S D
  az_json_token_get_number (number d) = return d
  az_json_token_get_number _ = throw item_not_found
