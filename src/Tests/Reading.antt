-- ===== src/Tests/Reading.antt =====
-- Comparing the content of spans: the theorems at concrete inputs.
use azure_sdk_for_c.Base.{
  ℕ, true, ◌==◌, ◌<◌, ◌≤◌, ◌++◌, length, take, map, Bytes, [], ◌∷◌, ◌≡◌, refl, arith, ◌⊎◌,
}
use azure_sdk_for_c.Http.Response.Line.{Tests-az_is_char}
use azure_sdk_for_c.Http.Response.{az_is_char}
use azure_sdk_for_c.Span.Read.Scan.{Rejects, az_scan_until_lem}
use azure_sdk_for_c.Memory.{Memory, written}
use azure_sdk_for_c.Result.{item_not_found, done, fail, eof, parser_unexpected_char}
use azure_sdk_for_c.Source.{at, literal}
use azure_sdk_for_c.Span.Read.{az_scan_until}
use azure_sdk_for_c.Span.Read.Equal.{Decides, az_span_is_content_equal_ignoring_case_lem}
use azure_sdk_for_c.Span.Read.Expected.{az_is_expected_span_lem}
use azure_sdk_for_c.Span.Read.{
  az_ascii_lower, az_span_is_content_equal_ignoring_case, az_is_expected_span,
}
use azure_sdk_for_c.Span.{Span, Views, az_span_init}
use azure_sdk_for_c.Tests.{room}

abbrev upper : Bytes
upper = b'E' ∷ b'T' ∷ b'a' ∷ b'g' ∷ []

abbrev lower : Bytes
lower = b'e' ∷ b't' ∷ b'a' ∷ b'g' ∷ []

abbrev page : Memory
page = written room 100 upper

abbrev name : Span
name = az_span_init 100 4 24

name-Views : Views page name upper
unfolding written
name-Views = record { count = refl; fits = omega arith; holds = (refl, (refl, (refl, (refl, tt)))) }

ignoring_case_example :
    Decides
      (az_span_is_content_equal_ignoring_case page (at name) (literal lower) (tt {0}))
      tt
      (map az_ascii_lower upper ≡ map az_ascii_lower lower)
ignoring_case_example =
    az_span_is_content_equal_ignoring_case_lem page (at name) (literal lower) upper lower tt
      name-Views refl

abbrev start : Bytes
start = b'E' ∷ b'T' ∷ []

expected_span_example :
    ((4 < 2) × (az_is_expected_span page start name ≡ fail eof name))
    ⊎ (((rest : Bytes) × (upper ≡ start ++ rest)
          × (self' : Span) × (az_is_expected_span page start name ≡ done tt self')
          × Views page self' rest)
        ⊎ ((2 ≤ 4)
            × (¬ (take 2 upper ≡ start)
                × (az_is_expected_span page start name ≡ fail parser_unexpected_char name))))
expected_span_example = az_is_expected_span_lem page start upper name name-Views

scan_example :
    ((xs : Bytes) × (b : ℕ) × (rest : Bytes) × (upper ≡ xs ++ (b ∷ rest))
      × Rejects (λ c. c == b'a') xs
      × ((b == b'a') ≡ true)
      × (az_scan_until (az_is_char page b'a') name name ≡ done (length xs) name))
    ⊎ (Rejects (λ c. c == b'a') upper
        × (az_scan_until (az_is_char page b'a') name name ≡ fail item_not_found name))
scan_example =
    az_scan_until_lem page (az_is_char page b'a') (λ c. c == b'a') name upper name
      (Tests-az_is_char page b'a') name-Views
