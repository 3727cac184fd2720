-- ===== src/Tests/Responses.antt =====
-- HTTP responses: runs, and the theorems at concrete inputs.
use azure_sdk_for_c.Base.{inl, arith, Bytes, [], ◌∷◌, ◌++◌, ◌≡◌, refl}
use azure_sdk_for_c.Http.Request.{Pair}
use azure_sdk_for_c.Http.Response.{
  az_is_http_whitespace, Response, kind_status_line, kind_header, kind_eof, az_http_response_init,
  az_http_response_get_status_line, az_http_response_get_next_header, az_http_response_get_body,
  value_from, max_rounds,
}
use azure_sdk_for_c.Http.Response.Message.{
  Message, IsMessage, message_text, ReadsBody, ReadsMessage, az_http_response_get_body_lem,
  response_reads,
}
use azure_sdk_for_c.Http.Response.Errors.{get_body_error}
use azure_sdk_for_c.Http.Response.States.{here, next, call_body, Reach-IsOf}
use azure_sdk_for_c.Http.Response.Operations.{IsOf}
use azure_sdk_for_c.Memory.Changes.{Holds-written}
use azure_sdk_for_c.Memory.{Memory, written}
use azure_sdk_for_c.Result.{done, fail, parser_unexpected_char}
use azure_sdk_for_c.Span.{Views, az_span_slice, to_end, az_span_init, az_span_null, peek, skip}
use azure_sdk_for_c.Span.Read.{to_uint64_from}
use azure_sdk_for_c.Source.{byte_at}
use azure_sdk_for_c.Tests.{nowhere}

-- HTTP/1.1 200 OK
abbrev line_text : Bytes
line_text =
    b'H' ∷ b'T' ∷ b'T' ∷ b'P' ∷ b'/' ∷ b'1' ∷ b'.' ∷ b'1' ∷ b' ' ∷ b'2' ∷ b'0' ∷ b'0' ∷ b' ' ∷ b'O'
    ∷ b'K' ∷ b'\r' ∷ b'\n' ∷ []

-- a: b c, and a tab at the end of the line
abbrev header_text : Bytes
header_text = b'a' ∷ b':' ∷ b' ' ∷ b'b' ∷ b' ' ∷ b'c' ∷ b'\t' ∷ b'\r' ∷ b'\n' ∷ []

abbrev web : Memory
web = written nowhere 100 (line_text ++ (header_text ++ (b'\r' ∷ b'\n' ∷ b'h' ∷ b'i' ∷ [])))

abbrev received : Response
received = az_http_response_init (az_span_init 100 30 30)

abbrev behind_line : Response
behind_line = record {
  http_response = az_span_init 100 30 30;
  remaining = az_span_init 117 13 13;
  next_kind = kind_header;
}

get_status_line_runs :
    az_http_response_get_status_line web received
    ≡ done
        (record {
          major_version = 1;
          minor_version = 1;
          status_code = 200;
          reason_phrase = az_span_init 113 2 2;
        })
        behind_line
unfolding az_http_response_get_status_line az_http_response_init written peek skip byte_at
    value_from max_rounds to_uint64_from
get_status_line_runs = refl

abbrev no_pair : Pair
no_pair = record { key = az_span_null; value = az_span_null }

next_header_runs :
    az_http_response_get_next_header web (record { self = behind_line; out = no_pair })
    ≡ done tt (record {
      self = record behind_line { remaining = az_span_init 126 4 4 };
      out = record { key = az_span_init 117 1 1; value = az_span_init 120 3 3 };
    })
unfolding az_http_response_get_next_header written peek skip byte_at value_from max_rounds
    to_uint64_from
next_header_runs = refl

get_body_runs :
    az_http_response_get_body web received
    ≡ done (az_span_init 128 2 2) (record {
      http_response = az_span_init 100 30 30;
      remaining = az_span_init 128 2 2;
      next_kind = kind_eof;
    })
unfolding az_http_response_get_body az_http_response_init written peek skip byte_at value_from
    max_rounds to_uint64_from
get_body_runs = refl

abbrev greeting : Message
greeting = record {
  major = b'1';
  minor = b'1';
  code = b'2' ∷ b'0' ∷ b'0' ∷ [];
  reason = b'O' ∷ b'K' ∷ [];
  fields =
      record {
        name = b'a' ∷ [];
        before = b' ' ∷ [];
        value = b'b' ∷ b' ' ∷ b'c' ∷ [];
        after = b'\t' ∷ [];
      }
      ∷ [];
  body = b'h' ∷ b'i' ∷ [];
}

greeting-IsMessage : IsMessage greeting
unfolding az_is_http_whitespace
greeting-IsMessage = record {
  line = record {
    major_digit = refl;
    minor_digit = refl;
    three = refl;
    code_digits = refl;
    reason_line = (refl, (refl, tt));
  };
  fields = (
    record {
      name_start = refl;
      name_token = (refl, tt);
      before_space = (refl, tt);
      value_start = refl;
      value_end = (refl, (refl, refl));
      after_space = (refl, tt);
      short = omega arith;
    },
    tt,
  );
}

received-Views : Views web received.http_response (message_text greeting)
unfolding az_http_response_init
received-Views = record {
  count = refl;
  fits = omega arith;
  holds = Holds-written (message_text greeting) nowhere 100;
}

response_reads_example : ReadsMessage web greeting received
response_reads_example = response_reads web greeting received greeting-IsMessage received-Views

get_body_example : ReadsBody web greeting.body received
unfolding az_http_response_init
get_body_example =
    az_http_response_get_body_lem web greeting greeting-IsMessage received greeting.fields
      kind_status_line greeting-IsMessage.fields refl received-Views

reach_example :
    IsOf
      (az_span_init 100 30 30)
      (record received { remaining = az_span_init 128 2 2; next_kind = kind_eof })
unfolding az_http_response_init
reach_example =
    Reach-IsOf (az_span_init 100 30 30)
      (next here (call_body web (inl (az_span_init 128 2 2, get_body_runs))))

-- a, a colon and a control character
abbrev broken : Memory
broken = written nowhere 100 (b'a' ∷ b':' ∷ 7 ∷ b'\r' ∷ [])

abbrev in_headers : Response
in_headers = record {
  http_response = az_span_init 100 4 4;
  remaining = az_span_init 100 4 4;
  next_kind = kind_header;
}

broken_header :
    az_http_response_get_next_header broken (record { self = in_headers; out = no_pair })
    ≡ fail parser_unexpected_char (record {
      self = record in_headers { remaining = az_span_init 102 2 2 };
      out = record no_pair { key = az_span_init 100 1 1 };
    })
unfolding az_http_response_get_next_header written peek skip byte_at value_from max_rounds
broken_header = refl

get_body_error_example :
    az_http_response_get_body broken in_headers
    ≡ done
        (az_span_slice (az_span_init 102 2 2) 0 to_end)
        (record in_headers { remaining = az_span_init 102 2 2; next_kind = kind_eof })
get_body_error_example =
    get_body_error broken in_headers parser_unexpected_char
      (record {
        self = record in_headers { remaining = az_span_init 102 2 2 };
        out = record no_pair { key = az_span_init 100 1 1 };
      })
      refl broken_header
