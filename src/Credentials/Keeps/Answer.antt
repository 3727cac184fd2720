-- ===== src/Credentials/Keeps/Answer.antt =====
-- What keeps the credential: the JSON lookups and the reading of the answer.
use azure_sdk_for_c.Base.{ℕ, ◌*◌, zero, suc}
use azure_sdk_for_c.Base.Int.{ℤ, pos, ◌-ℤ◌, ◌+ℤ◌, scale}
use azure_sdk_for_c.Credentials.{ClientSecretCredential}
use azure_sdk_for_c.Credentials.Aad.{Places, bearer_token, token_buf_size, read_token}
use azure_sdk_for_c.Double.{Doubles}
use azure_sdk_for_c.Http.Pipeline.{World, Platform}
use azure_sdk_for_c.Json.Get.{
  is_not_found, by_pointer_from, az_json_parse_by_pointer, az_json_parser_get_by_pointer_token,
}
use azure_sdk_for_c.Json.Parser.{Parser, az_json_parser_init, az_json_parser_parse_token}
use azure_sdk_for_c.Json.Pointer.{az_span_reader_read_json_pointer_token}
use azure_sdk_for_c.Json.Token.{
  Token as JsonToken, string, number, az_json_token_get_number, az_json_token_get_string,
}
use azure_sdk_for_c.Memory.{Memory}
use azure_sdk_for_c.Result.Preserves.{
  Preserves-bind, Preserves-when, Preserves-return, Preserves-throw,
}
use azure_sdk_for_c.Result.{
  Run, Outcome, fault, hang, fail, done, ◌>>◌, when◌then◌else◌, return, throw, item_not_found,
}
use azure_sdk_for_c.Base.Text.{ascii}
use azure_sdk_for_c.Source.{at, literal}
use azure_sdk_for_c.Span.{Span}
use azure_sdk_for_c.Span.Write.{in_place, append_to, az_span_copy}
use azure_sdk_for_c.Credentials.Keeps.{Has, Keeps, on_buffer-Keeps, clock-Keeps}

module _ (c : ClientSecretCredential) where
  module _ (fp : Doubles) (m : Memory) where
    by_pointer-Keeps :
        (fuel : ℕ) (pointer : Span) (parser : Parser) (token : JsonToken fp.Double)
        → Keeps c (by_pointer_from fp m fuel pointer parser token)
    unfolding by_pointer_from
    by_pointer-Keeps zero pointer parser token = record { keeps = λ w h. tt }
    by_pointer-Keeps (suc fuel) pointer parser token =
        read (λ p q t. by_pointer-Keeps fuel p q t)
          (az_span_reader_read_json_pointer_token m pointer)
      where
        Rest : Type 0
        Rest =
            (pointer' : Span) (parser' : Parser) (token' : JsonToken fp.Double)
            → Keeps c (by_pointer_from fp m fuel pointer' parser' token')

        found :
            Rest
            → (pointer' : Span) (o : Outcome Parser (JsonToken fp.Double))
            → Keeps c (elim o as (λ x. Run World (JsonToken fp.Double)) [
              | fault ↦ λ s. fault
              | hang ↦ λ s. hang
              | fail e parser' ↦ throw e
              | done token' parser' ↦ by_pointer_from fp m fuel pointer' parser' token'
            ])
        found rest pointer' fault = record { keeps = λ w h. tt }
        found rest pointer' hang = record { keeps = λ w h. tt }
        found rest pointer' (fail e parser') = Preserves-throw (Has c) e
        found rest pointer' (done token' parser') = rest pointer' parser' token'

        read :
            Rest
            → (o : Outcome Span Span)
            → Keeps c (elim o as (λ x. Run World (JsonToken fp.Double)) [
              | fault ↦ λ s. fault
              | hang ↦ λ s. hang
              | fail e pointer' ↦ when is_not_found e then return token else throw e
              | done pointer_token pointer' ↦
                  elim (az_json_parser_get_by_pointer_token fp m pointer_token token parser) [
                    | fault ↦ λ s. fault
                    | hang ↦ λ s. hang
                    | fail e parser' ↦ throw e
                    | done token' parser' ↦ by_pointer_from fp m fuel pointer' parser' token'
                  ]
            ])
        read rest fault = record { keeps = λ w h. tt }
        read rest hang = record { keeps = λ w h. tt }
        read rest (fail e pointer') =
            Preserves-when (Has c) (is_not_found e) (return token) (throw e)
              (Preserves-return (Has c) token) (Preserves-throw (Has c) e)
        read rest (done pointer_token pointer') =
            found rest pointer'
              (az_json_parser_get_by_pointer_token fp m pointer_token token parser)

    parse-Keeps : (json pointer : Span) → Keeps c (az_json_parse_by_pointer fp m json pointer)
    unfolding az_json_parse_by_pointer
    parse-Keeps json pointer = go (az_json_parser_parse_token fp m (az_json_parser_init json))
      where
        go :
            (o : Outcome Parser (JsonToken fp.Double))
            → Keeps c (elim o as (λ x. Run World (JsonToken fp.Double)) [
              | fault ↦ λ s. fault
              | hang ↦ λ s. hang
              | fail e parser ↦ throw e
              | done token parser ↦ by_pointer_from fp m (suc pointer.len) pointer parser token
            ])
        go fault = record { keeps = λ w h. tt }
        go hang = record { keeps = λ w h. tt }
        go (fail e parser) = Preserves-throw (Has c) e
        go (done token parser) = by_pointer-Keeps (suc pointer.len) pointer parser token

  get_string-Keeps : {D : Type 0} (token : JsonToken D) → Keeps c (az_json_token_get_string token)
  unfolding az_json_token_get_string
  get_string-Keeps (string s) = Preserves-return (Has c) s
  get_string-Keeps _ = Preserves-throw (Has c) item_not_found

  get_number-Keeps : {D : Type 0} (token : JsonToken D) → Keeps c (az_json_token_get_number token)
  unfolding az_json_token_get_number
  get_number-Keeps (number d) = Preserves-return (Has c) d
  get_number-Keeps _ = Preserves-throw (Has c) item_not_found

  module _ (platform : Platform) (fp : Doubles) (to_int64 : fp.Double → ℤ) (places : Places) where
    bearer-Keeps : (access : Span) → Keeps c (bearer_token platform fp to_int64 places access)
    unfolding bearer_token
    bearer-Keeps access =
        on_buffer-Keeps c places.new_token token_buf_size
          (do in_place (λ s. az_span_copy s (literal (ascii "Bearer "))); append_to (at access))

    pub read_token-Keeps : (body : Span) → Keeps c (read_token platform fp to_int64 places body)
    unfolding read_token
    read_token-Keeps body =
        Preserves-bind (Has c) (λ w. done w.mem w) _ (record { keeps = λ w h. h })
          (λ m. Preserves-bind (Has c) _ _ (parse-Keeps fp m body places.expires_in) (λ expires.
            Preserves-bind (Has c) _ _ (get_number-Keeps expires) (λ seconds.
              Preserves-bind (Has c) _ _ (parse-Keeps fp m body places.access_token) (λ token.
                Preserves-bind (Has c) _ _ (get_string-Keeps token) (λ access.
                  Preserves-bind (Has c) _ _ (clock-Keeps c platform) (λ now.
                    Preserves-bind (Has c) _ _ (bearer-Keeps access) (λ s.
                      Preserves-return (Has c) (record {
                        token = s.ptr;
                        token_length = s.len;
                        expires_at_msec = now +ℤ scale 1000 (to_int64 seconds -ℤ pos (3 * 60));
                      }))))))))
