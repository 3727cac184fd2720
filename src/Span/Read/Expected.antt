-- ===== src/Span/Read/Expected.antt =====
-- `az_is_expected_span`: a reader is asked for given bytes.
use azure_sdk_for_c.Base.{
  sym, subst, take-append, drop-append, length-append, ℕ, zero, suc, ◌<◌, ◌≤◌, ltb, Bool-cases,
  Bytes, [], ◌∷◌, ◌++◌, if◌then◌else◌, take, drop, length, ◌≡◌, refl, ap, ◌∙◌, ◌⊎◌, inl, inr, arith,
}
use azure_sdk_for_c.Base.Int.{pos}
use azure_sdk_for_c.Memory.{Memory}
use azure_sdk_for_c.Result.{◌>>=◌, done, fail, eof, parser_unexpected_char}
use azure_sdk_for_c.Source.{at, literal}
use azure_sdk_for_c.Span.Read.Equal.{az_span_is_equal_lem}
use azure_sdk_for_c.Span.Read.{az_is_expected_span}
use azure_sdk_for_c.Span.Slice.{Views-az_span_slice}
use azure_sdk_for_c.Span.Yields.{Yields}
use azure_sdk_for_c.Span.{Span, Views, az_span_slice, to_end, skip}

take-drop : (n : ℕ) (bs : Bytes) → bs ≡ take n bs ++ drop n bs
take-drop zero bs = refl
take-drop (suc n) [] = refl
take-drop (suc n) (b ∷ bs) = ap (λ xs. b ∷ xs) (take-drop n bs)

-- A reader whose content is given is asked for bytes. With fewer bytes left than these, the end of
-- the input is reported; if they stand next, the reader moves behind them, to the rest of the
-- content; if other bytes stand next, an unexpected character is reported. The reader stays where
-- it is on both errors.
pub az_is_expected_span_lem :
    (m : Memory) (expected bs : Bytes) (self : Span)
    → Views m self bs
    → ((length bs < length expected) × (az_is_expected_span m expected self ≡ fail eof self))
      ⊎ (((rest : Bytes) × (bs ≡ expected ++ rest)
            × (self' : Span) × (az_is_expected_span m expected self ≡ done tt self')
            × Views m self' rest)
          ⊎ ((length expected ≤ length bs)
              × (¬ (take (length expected) bs ≡ expected)
                  × (az_is_expected_span m expected self ≡ fail parser_unexpected_char self))))
unfolding az_is_expected_span skip
az_is_expected_span_lem m expected bs self v = elim (Bool-cases (ltb self.len (length expected))) [
  | inl short ↦ inl (ground (arith, short, v.count), rw short refl)
  | inr long ↦
      rw long
        (elim (az_span_is_equal_lem m (at (az_span_slice self 0 (pos (length expected))))
          (literal expected) (take (length expected) bs) expected self
          (Views-az_span_slice 0 (pos (length expected)) bs v).0 refl) [
            | inl (r, same) ↦
                rw (r, ◌>>=◌, if◌then◌else◌)
                  (inr (
                    inl (
                      drop (length expected) bs,
                      take-drop (length expected) bs
                          ∙ ap (λ xs. xs ++ drop (length expected) bs) same,
                      az_span_slice self (length expected) to_end,
                      refl,
                      (Views-az_span_slice (length expected) to_end bs v).0,
                    )))
            | inr (r, differ) ↦
                rw (r, ◌>>=◌, if◌then◌else◌)
                  (inr (inr (ground (arith, long, v.count), (differ, refl))))
          ])
]

-- Where the bytes stand next, the reader moves behind them.
pub Yields-az_is_expected_span :
    (m : Memory) (expected rest : Bytes)
    → Yields m (az_is_expected_span m expected) (expected ++ rest) tt rest
Yields-az_is_expected_span m expected rest s v =
    elim (az_is_expected_span_lem m expected (expected ++ rest) s v) [
      | inl (short, e) ↦ absurd (omega (arith, short, length-append expected rest))
      | inr (inl (rest', e, s', r, v')) ↦
          let same : rest' ≡ rest =
            sym (drop-append expected rest')
            ∙ (ap (drop (length expected)) (sym e) ∙ drop-append expected rest) in
          (s', r, subst (Views m s') same v')
      | inr (inr (long, (differ, e))) ↦ absurd (differ (take-append expected rest))
    ]
