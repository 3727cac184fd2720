-- ===== src/Json/Builder/Writes.antt =====
-- What the operations of the builder write, and how they set the flag for a comma.
use azure_sdk_for_c.Base.{
  ℕ, ◌+◌, ◌<◌, Bool, true, false, Bytes, [], ◌∷◌, ◌++◌, length, length-append, ◌≡◌, refl, arith,
  ◌⊎◌, inl, inr,
}
use azure_sdk_for_c.Double.{Doubles}
use azure_sdk_for_c.Json.Builder.{
  Builder, on_json, set_need_comma, bool_text, az_json_builder_append_str, append_token_text,
  az_json_builder_write_comma, az_json_builder_write_close,
}
use azure_sdk_for_c.Json.Text.{az_json_builder_write_span}
use azure_sdk_for_c.Json.Text.Escape.{escaped, write_span-Emits}
use azure_sdk_for_c.Json.Token.{Token, null, boolean, number, string, object, array, span}
use azure_sdk_for_c.Memory.Changes.{Changes-trans}
use azure_sdk_for_c.Result.{Run, fail, done, ◌>>=◌, ◌>>◌, buffer_overflow}
use azure_sdk_for_c.Source.{Source, at}
use azure_sdk_for_c.Span.{Span}
use azure_sdk_for_c.Span.Write.{Target}
use azure_sdk_for_c.Span.Write.Emits.{
  IsOpen, FitsIn, Spoils, Extends, Extends-refl, Extends-trans, Extends-IsOpen, Emits,
  Emits-Appends, Emits-literal, Emits-seq, Emits-Ready, Keeps,
}
use azure_sdk_for_c.Span.Write.Given.{Given, Keeps-Given, Emits-Given}

-- The comma in front of an item that is not the first.
abbrev pub comma : Bool → Bytes
comma true = b',' ∷ []
comma false = []

-- A run that writes, from a builder whose `json` is `Ready`, the text that `text` gives for its comma
-- flag, and leaves the flag that `flag` gives for it.
abbrev pub WritesJson :
    (Target → Type 0) → Run Builder (Unit {0}) → (Bool → Bytes) → (Bool → Bool) → Type 0
WritesJson Ready run text flag =
    (self : Builder)
    → IsOpen self.json
    → Ready self.json
    → (FitsIn self.json (text self.need_comma)
        × (t : Target) × (run self
            ≡ done tt (record { json = t; need_comma = flag self.need_comma }))
        × Extends self.json (text self.need_comma) t)
      ⊎ ((self.json.self.capacity < self.json.self.len + length (text self.need_comma))
          × (t : Target) × (b : Bool) × (run self
              ≡ fail buffer_overflow (record { json = t; need_comma = b }))
          × Spoils self.json t)

module _ (Ready : Target → Type 0) where
  pub on_json-WritesJson :
      {run : Run Target (Unit {0})} {bs : Bytes}
      → Emits Ready run bs
      → WritesJson Ready (on_json run) (λ b. bs) (λ b. b)
  on_json-WritesJson f self b r = elim (Emits-Appends Ready self.json f b r) [
    | inl (room, t, e, x) ↦ inl (room, t, rw (e, on_json), x)
    | inr (full, t, e, x) ↦ inr (full, t, self.need_comma, rw (e, on_json), x)
  ]

  pub flag-WritesJson :
      (value : Bool) → WritesJson Ready (set_need_comma value) (λ b. []) (λ b. value)
  flag-WritesJson value self b r =
      inl (omega (arith, b.within), self.json, refl, Extends-refl self.json)

  module _ (keep : Keeps Ready) {run next : Run Builder (Unit {0})} (xs : Bool → Bytes)
      (f : Bool → Bool) (ys : Bool → Bytes) (g : Bool → Bool) where
    pub seq-WritesJson :
        WritesJson Ready run xs f
        → WritesJson Ready next ys g
        → WritesJson Ready (run >> next) (λ b. xs b ++ ys (f b)) (λ b. g (f b))
    seq-WritesJson u v self b r = elim (u self b r) [
      | inr (full, t, c, e, x) ↦ inr (
        omega (arith, length-append (xs self.need_comma) (ys (f self.need_comma))),
        t,
        c,
        rw (e, ◌>>=◌),
        x,
      )
      | inl (room, t, e, x) ↦
          elim (v (record { json = t; need_comma = f self.need_comma }) (Extends-IsOpen x b room)
            (keep self.json t (xs self.need_comma) x room r)) [
              | inl (room', t', e', y) ↦ inl (
                omega (
                  arith,
                  length-append (xs self.need_comma) (ys (f self.need_comma)),
                  x.longer,
                  x.same_capacity,
                ),
                t',
                rw (e, ◌>>=◌) e',
                Extends-trans x y,
              )
              | inr (full, t', c, e', y) ↦ inr (
                omega (
                  arith,
                  length-append (xs self.need_comma) (ys (f self.need_comma)),
                  x.longer,
                  x.same_capacity,
                ),
                t',
                c,
                rw (e, ◌>>=◌) e',
                Changes-trans _ _ (omega arith) (omega arith) (omega (arith, x.longer, x.same_ptr))
                    (omega (arith, x.longer, x.same_ptr, x.same_capacity)) x.changes y,
              )
            ]
    ]

  pub write_comma-WritesJson : WritesJson Ready az_json_builder_write_comma comma (λ b. b)
  unfolding az_json_builder_write_comma
  write_comma-WritesJson self b r = go self.json self.need_comma b r
    where
      go :
          (json : Target) (c : Bool)
          → IsOpen json
          → Ready json
          → (FitsIn json (comma c)
              × (t : Target) × (az_json_builder_write_comma (record { json = json; need_comma = c })
                  ≡ done tt (record { json = t; need_comma = c }))
              × Extends json (comma c) t)
            ⊎ ((json.self.capacity < json.self.len + length (comma c))
                × (t : Target) × (c' : Bool) × (az_json_builder_write_comma
                      (record { json = json; need_comma = c })
                    ≡ fail buffer_overflow (record { json = t; need_comma = c' }))
                × Spoils json t)
      go json true b r =
          on_json-WritesJson (Emits-literal Ready (b',' ∷ []))
            (record { json = json; need_comma = true }) b r
      go json false b r = inl (omega (arith, b.within), json, refl, Extends-refl json)

  module _ (keep : Keeps Ready) where
    pub close-WritesJson :
        (c : ℕ) → WritesJson Ready (az_json_builder_write_close (c ∷ [])) (λ b. c ∷ []) (λ b. true)
    unfolding az_json_builder_write_close
    close-WritesJson c =
        seq-WritesJson keep (λ b. c ∷ []) (λ b. b) (λ b. []) (λ b. true)
          (on_json-WritesJson (Emits-literal Ready (c ∷ []))) (flag-WritesJson true)

    pub str-Emits :
        (value : Source) (cs : Bytes)
        → ((t : Target) → Ready t → Given value cs t)
        → Emits Ready (az_json_builder_append_str value) (b'"' ∷ (cs ++ (b'"' ∷ [])))
    unfolding az_json_builder_append_str
    str-Emits value cs given = Emits-seq Ready keep (Emits-literal Ready (b'"' ∷ [])) (
        Emits-seq Ready keep (Emits-Ready given (Emits-Given value cs))
          (Emits-literal Ready (b'"' ∷ [])))

module _ (fp : Doubles) where
  -- The text of a token; `cs` is the content of the span that it has. Numbers are left out.
  abbrev pub token_text : Token fp.Double → Bytes → Bytes
  token_text null cs = b'n' ∷ b'u' ∷ b'l' ∷ b'l' ∷ []
  token_text (boolean b) cs = bool_text b
  token_text (number d) cs = []
  token_text (string s) cs = b'"' ∷ (cs ++ (b'"' ∷ []))
  token_text object cs = b'{' ∷ []
  token_text array cs = b'[' ∷ []
  token_text (span s) cs = b'"' ∷ (escaped cs ++ (b'"' ∷ []))

  -- The span of a token has the content `cs` and stands outside of the buffer; it is no number.
  abbrev pub TokenGiven : Token fp.Double → Bytes → Target → Type 0
  TokenGiven (string s) cs t = Given (at s) cs t
  TokenGiven (span s) cs t = Given (at s) cs t
  TokenGiven (number d) cs t = ⊥
  TokenGiven _ cs t = Unit {0}

  pub Keeps-TokenGiven : (token : Token fp.Double) (cs : Bytes) → Keeps (TokenGiven token cs)
  Keeps-TokenGiven (string s) cs t t' bs x h g = Keeps-Given (at s) cs t t' bs x h g
  Keeps-TokenGiven (span s) cs t t' bs x h g = Keeps-Given (at s) cs t t' bs x h g
  Keeps-TokenGiven (number d) cs t t' bs x h g = g
  Keeps-TokenGiven null cs t t' bs x h g = g
  Keeps-TokenGiven (boolean b) cs t t' bs x h g = g
  Keeps-TokenGiven object cs t t' bs x h g = g
  Keeps-TokenGiven array cs t t' bs x h g = g

  pub token-Emits :
      (token : Token fp.Double) (cs : Bytes)
      → Emits (TokenGiven token cs) (append_token_text fp token) (token_text token cs)
  unfolding append_token_text
  token-Emits null cs = Emits-literal _ _
  token-Emits (boolean b) cs = Emits-literal _ (bool_text b)
  token-Emits (number d) cs = record {
    fits = λ t b g h. elim g [ ];
    overflows = λ t b g h. elim g [ ];
  }
  token-Emits (string s) cs =
      str-Emits (Given (at s) cs) (Keeps-Given (at s) cs) (at s) cs (λ t g. g)
  token-Emits object cs = Emits-literal _ _
  token-Emits array cs = Emits-literal _ _
  token-Emits (span s) cs = span_emits s cs
    where
      span_emits :
          (s : Span) (cs : Bytes)
          → Emits
              (Given (at s) cs)
              (az_json_builder_write_span (at s))
              (b'"' ∷ (escaped cs ++ (b'"' ∷ [])))
      span_emits s cs = record {
        fits = λ t b g h. (write_span-Emits (at s) cs g.provides.count).fits t b g h;
        overflows = λ t b g h. (write_span-Emits (at s) cs g.provides.count).overflows t b g h;
      }
