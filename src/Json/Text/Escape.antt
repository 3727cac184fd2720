-- ===== src/Json/Text/Escape.antt =====
-- The text that `az_json_builder_write_span` writes.
use azure_sdk_for_c.Base.{
  ℕ, suc, not, ltb, ◌==◌, if◌then◌else◌, Bytes, [], ◌∷◌, ◌++◌, length, Bool-cases, ◌≡◌, inl, inr,
}
use azure_sdk_for_c.Json.Text.{
  az_json_esc_encode, unicode_escape, write_char, write_chars, az_json_builder_write_span,
}
use azure_sdk_for_c.Result.{when◌then◌else◌}
use azure_sdk_for_c.Source.{Source, source_len}
use azure_sdk_for_c.Source.Streams.{Provides-len}
use azure_sdk_for_c.Span.Write.{Target}
use azure_sdk_for_c.Span.Write.Emits.{
  IsOpen, Appends, Emits-Appends, Emits, Emits-return, Emits-literal, Emits-seq,
}
use azure_sdk_for_c.Span.Write.Given.{
  Given, Keeps-Given, Emits-item, Emits-fetch, Reads, ReadsFrom, reads_all,
}

-- The escape sequence of a byte, or the byte itself.
unfoldable pub escape : ℕ → Bytes
escape c =
    let esc = az_json_esc_encode c in
    if not (length esc == 0) then esc else if ltb c 0x20 then unicode_escape c else c ∷ []

abbrev pub escaped : Bytes → Bytes
escaped [] = []
escaped (c ∷ cs) = escape c ++ escaped cs

module _ (value : Source) (whole : Bytes) where
  write_char-Emits :
      (i c : ℕ)
      → Reads value whole i c
      → Emits (Given value whole) (write_char value i c) (escape c)
  unfolding write_char escape
  write_char-Emits i c e = elim (Bool-cases (length (az_json_esc_encode c) == 0)) [
    | inr short ↦ rw short (Emits-literal _ (az_json_esc_encode c))
    | inl long ↦ rw long (elim (Bool-cases (ltb c 0x20)) [
      | inl control ↦ rw control (Emits-literal _ (unicode_escape c))
      | inr plain ↦ rw plain (Emits-item value whole i c e)
    ])
  ]

  write_chars-Emits :
      (rest : Bytes) (i : ℕ)
      → ReadsFrom value whole i rest
      → Emits (Given value whole) (write_chars value (length rest) i) (escaped rest)
  unfolding write_chars
  write_chars-Emits [] i r = Emits-return _
  write_chars-Emits (c ∷ cs) i r =
      Emits-fetch value whole i c _ _ (λ t g. (r t g).0)
        (Emits-seq _ (Keeps-Given value whole) (write_char-Emits i c (λ t g. (r t g).0))
          (write_chars-Emits cs (suc i) (λ t g. (r t g).1)))

  pub write_span-Emits :
      source_len value ≡ length whole
      → Emits
          (Given value whole)
          (az_json_builder_write_span value)
          (b'"' ∷ (escaped whole ++ b'"' ∷ []))
  unfolding az_json_builder_write_span
  write_span-Emits n = rw n (
      Emits-seq _ (Keeps-Given value whole) (Emits-literal _ (b'"' ∷ [])) (
        Emits-seq _ (Keeps-Given value whole) (write_chars-Emits whole 0 (reads_all value whole))
          (Emits-literal _ (b'"' ∷ []))))

pub az_json_builder_write_span_lem :
    (value : Source) (cs : Bytes) (t : Target)
    → Given value cs t
    → IsOpen t
    → Appends (az_json_builder_write_span value) t (b'"' ∷ (escaped cs ++ b'"' ∷ []))
az_json_builder_write_span_lem value cs t given ready =
    Emits-Appends (Given value cs) t
      (write_span-Emits value cs (Provides-len t.mem value cs given.provides)) ready given
