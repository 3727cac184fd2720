-- ===== src/Tests/Bodies.antt =====
-- The body of a request for a new key, at a concrete input.
use azure_sdk_for_c.Base.{Bytes, true, some, [], ◌∷◌, refl, arith}
use azure_sdk_for_c.Clients.KeyVault.Body.{create_build_json_body_lem}
use azure_sdk_for_c.Clients.KeyVault.Calls.{KeyRequest, options_of, body_value}
use azure_sdk_for_c.Clients.KeyVault.{create_build_json_body}
use azure_sdk_for_c.Json.Builder.Values.{value_text, ValueGiven, ItemsGiven, MembersGiven}
use azure_sdk_for_c.Json.Builder.{token_needs_comma}
use azure_sdk_for_c.Source.{literal}
use azure_sdk_for_c.Span.Write.Given.{Given}
use azure_sdk_for_c.Span.Write.Emits.{Appends}
use azure_sdk_for_c.Tests.Pipelines.{buffer, buffer-IsOpen, url-Given}
use azure_sdk_for_c.Tests.Requests.{url, url_text}
use azure_sdk_for_c.Tests.{exact}

-- An enabled key, with one operation and one tag.
abbrev key : KeyRequest
key = record {
  enabled = some true;
  operations = some ((url, url_text) ∷ []);
  tags = some (((url, url_text), (url, url_text)) ∷ []);
}

literal-Given : (bs : Bytes) → Given (literal bs) bs buffer
literal-Given bs = record { provides = refl; apart = tt }

key-ValueGiven : ValueGiven exact (body_value exact url url_text key) buffer
unfolding ValueGiven ItemsGiven MembersGiven token_needs_comma
key-ValueGiven = (
  literal-Given _,
  (
    (url-Given, refl),
    (
      literal-Given _,
      (
        (literal-Given _, ((tt, refl), tt)),
        (
          literal-Given _,
          (((url-Given, refl), tt), (literal-Given _, ((url-Given, ((url-Given, refl), tt)), tt))),
        ),
      ),
    ),
  ),
)

create_body_example :
    Appends
      (create_build_json_body exact url (some (options_of key)))
      buffer
      (value_text exact (body_value exact url url_text key))
create_body_example =
    create_build_json_body_lem exact url url_text key buffer buffer-IsOpen key-ValueGiven
      ((omega arith, tt), (omega arith, tt))
