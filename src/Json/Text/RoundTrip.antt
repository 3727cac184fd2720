-- ===== src/Json/Text/RoundTrip.antt =====
-- Reading back the escape sequences that the builder writes.
use azure_sdk_for_c.Base.{
  ℕ, suc, ◌+◌, ◌*◌, ◌/◌, ◌%◌, ◌^◌, ◌≤◌, ◌<◌, false, ltb, ◌==◌, ne→==_false, if◌then◌else◌, Bytes,
  [], ◌∷◌, ◌++◌, append_assoc, ◌≡◌, ◌≢◌, refl, sym, arith, subst, lt→ltb, le→ltb_false, All,
}
use azure_sdk_for_c.Hex.{az_number_to_upper_hex, az_hex_to_digit-az_number_to_upper_hex}
use azure_sdk_for_c.Json.Text.{
  az_json_esc_decode, az_json_esc_encode, read_hex_digits, az_span_reader_read_json_string_char,
  unicode_escape,
}
use azure_sdk_for_c.Json.Text.Escape.{escape, escaped}
use azure_sdk_for_c.Memory.{Memory}
use azure_sdk_for_c.Result.{Run, done, ◌>>=◌, when◌then◌else◌, eof, item_not_found}
use azure_sdk_for_c.Span.{Span, Views}
use azure_sdk_for_c.Span.Yields.{
  Yields, Yields-return, Yields-bind, Yields-skip, Yields-fail_at_end, Yields-next,
}
use native.Mathlib.Decide.{ℕ_discrete, dec_lt}

module _ (m : Memory) where
  -- What a run does that Always gives the same value and keeps the reader.
  Yields-known :
      {A B : Type 0} (run : Run Span A) (next : A → Run Span B) (a : A) (b : B) (bs rest : Bytes)
      → ((s : Span) → run s ≡ done a s)
      → Yields m (next a) bs b rest
      → Yields m (run >>= next) bs b rest
  Yields-known run next a b bs rest known f =
      Yields-bind m run next bs a b bs rest (λ s v. (s, known s, v)) f

  hex_digit :
      (n r d : ℕ) (bs rest : Bytes) (c : ℕ)
      → d < 16
      → Yields m (read_hex_digits m n ((r * 2 ^ 4 + d) % 2 ^ 32)) bs c rest
      → Yields m (read_hex_digits m (suc n) r) (az_number_to_upper_hex d ∷ bs) c rest
  unfolding read_hex_digits
  hex_digit n r d bs rest c h f =
      let x = az_number_to_upper_hex d in
      Yields-bind m _ _ (x ∷ bs) tt c (x ∷ bs) rest (Yields-fail_at_end m eof x bs) (
        Yields-next m _ x bs c rest (
          Yields-known _ _ d c (x ∷ bs) rest (λ s. az_hex_to_digit-az_number_to_upper_hex d s h)
            (Yields-bind m _ _ (x ∷ bs) tt c bs rest (Yields-skip m 1 (x ∷ bs)) f)))

  -- The reader on a byte that is neither a quote, a backslash nor a control character.
  read_plain :
      (c : ℕ) (rest : Bytes)
      → c ≢ b'"'
      → c ≢ b'\\'
      → 0x20 ≤ c
      → Yields m (az_span_reader_read_json_string_char m) (c ∷ rest) c rest
  unfolding az_span_reader_read_json_string_char
  read_plain c rest q b h =
      Yields-bind m _ _ (c ∷ rest) tt c (c ∷ rest) rest (Yields-fail_at_end m item_not_found c rest)
        (Yields-next m _ c rest c rest (
          rw (ne→==_false c b'"' q, ne→==_false c b'\\' b)
            (rw (le→ltb_false 0x20 c h) (
              Yields-bind m _ _ (c ∷ rest) tt c rest rest (Yields-skip m 1 (c ∷ rest))
                (Yields-return m c rest)))))

  -- On a backslash.
  read_escaped :
      (e c : ℕ) (rest after : Bytes)
      → Yields m (when e == b'u' then read_hex_digits m 4 0 else az_json_esc_decode e) after c rest
      → Yields m (az_span_reader_read_json_string_char m) (b'\\' ∷ e ∷ after) c rest
  unfolding az_span_reader_read_json_string_char
  read_escaped e c rest after f =
      let bs = e ∷ after in
      Yields-bind m _ _ (b'\\' ∷ bs) tt c (b'\\' ∷ bs) rest
        (Yields-fail_at_end m item_not_found b'\\' bs)
        (Yields-next m _ b'\\' bs c rest (
          Yields-bind m _ _ (b'\\' ∷ bs) tt c bs rest (Yields-skip m 1 (b'\\' ∷ bs)) (
            Yields-bind m _ _ bs tt c bs rest (Yields-fail_at_end m eof e after) (
              Yields-next m _ e after c rest
                (Yields-bind m _ _ bs tt c after rest (Yields-skip m 1 bs) f)))))

  read_unicode :
      (c : ℕ) (rest : Bytes)
      → c < 256
      → Yields m (az_span_reader_read_json_string_char m) (unicode_escape c ++ rest) c rest
  unfolding read_hex_digits az_number_to_upper_hex
  read_unicode c rest h =
      let hi = az_number_to_upper_hex (c / 16) in
      let lo = az_number_to_upper_hex (c % 16) in
      let value : ((0 * 2 ^ 4 + c / 16) % 2 ^ 32 * 2 ^ 4 + c % 16) % 2 ^ 32 ≡ c = omega arith in
      let last : Yields m
          (read_hex_digits m 0 (((0 * 2 ^ 4 + c / 16) % 2 ^ 32 * 2 ^ 4 + c % 16) % 2 ^ 32)) rest c
          rest =
        rw value (Yields-return m c rest) in
      read_escaped b'u' c rest (b'0' ∷ b'0' ∷ hi ∷ lo ∷ rest) (
        hex_digit 3 0 0 (b'0' ∷ hi ∷ lo ∷ rest) rest c (omega arith) (
          hex_digit 2 0 0 (hi ∷ lo ∷ rest) rest c (omega arith) (
            hex_digit 1 0 (c / 16) (lo ∷ rest) rest c (omega arith) (
              hex_digit 0 ((0 * 2 ^ 4 + c / 16) % 2 ^ 32) (c % 16) rest rest c (omega arith)
                last))))

  read_short :
      (e c : ℕ) (rest : Bytes)
      → (e == b'u') ≡ false
      → ((s : Span) → az_json_esc_decode e s ≡ done c s)
      → Yields m (az_span_reader_read_json_string_char m) (b'\\' ∷ e ∷ rest) c rest
  read_short e c rest u d = read_escaped e c rest rest (rw u (λ s v. (s, d s, v)))

  -- The bytes with no short escape sequence.
  unescaped :
      (c : ℕ) (rest : Bytes)
      → c < 256
      → c ≢ b'"'
      → c ≢ b'\\'
      → Yields m
          (az_span_reader_read_json_string_char m)
          ((if ltb c 0x20 then unicode_escape c else c ∷ []) ++ rest)
          c
          rest
  unescaped c rest h q b = elim (dec_lt c 0x20) [
    | yes low ↦ rw (lt→ltb c 0x20 low) (read_unicode c rest h)
    | no high ↦ rw (le→ltb_false 0x20 c (omega arith)) (read_plain c rest q b (omega arith))
  ]

  abbrev ReadsBack : Bytes → ℕ → Type 0
  ReadsBack rest c = Yields m (az_span_reader_read_json_string_char m) (escape c ++ rest) c rest

  -- Reading what the builder wrote for a byte gives that byte, and leaves what follows.
  read-escape : (c : ℕ) (rest : Bytes) → c < 256 → ReadsBack rest c
  unfolding escape az_json_esc_encode az_json_esc_decode
  read-escape c rest h = elim (ℕ_discrete c b'\\') [
    | yes e ↦ subst (ReadsBack rest) (sym e) (read_short b'\\' b'\\' rest refl (λ s. refl))
    | no n1 ↦ elim (ℕ_discrete c b'"') [
      | yes e ↦ subst (ReadsBack rest) (sym e) (read_short b'"' b'"' rest refl (λ s. refl))
      | no n2 ↦ elim (ℕ_discrete c 0x08) [
        | yes e ↦ subst (ReadsBack rest) (sym e) (read_short b'b' 0x08 rest refl (λ s. refl))
        | no n3 ↦ elim (ℕ_discrete c 0x0c) [
          | yes e ↦ subst (ReadsBack rest) (sym e) (read_short b'f' 0x0c rest refl (λ s. refl))
          | no n4 ↦ elim (ℕ_discrete c 0x0a) [
            | yes e ↦ subst (ReadsBack rest) (sym e) (read_short b'n' 0x0a rest refl (λ s. refl))
            | no n5 ↦ elim (ℕ_discrete c 0x0d) [
              | yes e ↦ subst (ReadsBack rest) (sym e) (read_short b'r' 0x0d rest refl (λ s. refl))
              | no n6 ↦ elim (ℕ_discrete c 0x09) [
                | yes e ↦
                    subst (ReadsBack rest) (sym e) (read_short b't' 0x09 rest refl (λ s. refl))
                | no n7 ↦
                    rw
                      (
                        ne→==_false _ _ n1,
                        ne→==_false _ _ n2,
                        ne→==_false _ _ n3,
                        ne→==_false _ _ n4,
                        ne→==_false _ _ n5,
                        ne→==_false _ _ n6,
                        ne→==_false _ _ n7,
                      )
                      (unescaped c rest h n2 n1)
              ]
            ]
          ]
        ]
      ]
    ]
  ]

-- The characters that one call after the other reads from a reader, and the reader they leave.
pub data ReadsChars (m : Memory) : Bytes → Span → Span → Type 0 where
  stop : {s : Span} → ReadsChars m [] s s
  char :
      {c : ℕ} {cs : Bytes} {s s' s'' : Span}
      → az_span_reader_read_json_string_char m s ≡ done c s'
      → ReadsChars m cs s' s''
      → ReadsChars m (c ∷ cs) s s''

-- A text of bytes, escaped as the builder does, is read as these bytes, and what follows is left.
pub read-escaped :
    (m : Memory) (cs rest : Bytes) (s : Span)
    → All (λ c. c < 256) cs
    → Views m s (escaped cs ++ rest)
    → (s' : Span) × ReadsChars m cs s s' × Views m s' rest
read-escaped m [] rest s h v = (s, stop, v)
read-escaped m (c ∷ cs) rest s (h, hs) v =
    let v' : Views m s (escape c ++ (escaped cs ++ rest)) =
      subst (λ bs. Views m s bs) (append_assoc (escape c) (escaped cs) rest) v in
    let (s', e, w) = read-escape m c (escaped cs ++ rest) h s v' in
    let (s'', r, w') = read-escaped m cs rest s' hs w in (s'', char e r, w')
