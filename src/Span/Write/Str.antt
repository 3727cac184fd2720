-- ===== src/Span/Write/Str.antt =====
-- `az_span_to_str`: the content of a span as a string of C.
use azure_sdk_for_c.Base.{
  ℕ, ◌+◌, ◌≤◌, ◌<◌, true, ltb, Bool-cases, Bytes, [], ◌∷◌, ◌++◌, length, ◌≡◌, refl, arith, ◌⊎◌, inl,
  inr,
}
use azure_sdk_for_c.Memory.{Memory, readable}
use azure_sdk_for_c.Memory.Changes.{Changes-readable}
use azure_sdk_for_c.Result.{fail, done, ◌>>=◌, when◌then◌else◌, buffer_overflow}
use azure_sdk_for_c.Source.{Source, source_is_valid, Provides}
use azure_sdk_for_c.Source.Streams.{Provides-len}
use azure_sdk_for_c.Span.Write.Copy.{Stored, move_from-Stored, readable_part}
use azure_sdk_for_c.Span.Write.Stores.{store-Stored, Stored-append}
use azure_sdk_for_c.Span.Write.{az_span_to_str}
use native.Mathlib.Nat.{add-zero}

pub az_span_to_str_lem :
    (m : Memory) (s max_size : ℕ) (src : Source) (bs : Bytes)
    → Provides m src bs
    → source_is_valid src ≡ true
    → readable m s max_size ≡ true
    → ((length bs < max_size)
        × (m' : Memory) × (az_span_to_str s max_size src m ≡ done tt m')
        × Stored m s (bs ++ (0 ∷ [])) m')
      ⊎ ((max_size ≤ length bs) × (az_span_to_str s max_size src m ≡ fail buffer_overflow m))
unfolding az_span_to_str
az_span_to_str_lem m s max_size src bs v valid r =
    elim (Bool-cases (ltb max_size (length bs + 1))) [
      | inl full ↦ inr (ground (arith, full), rw (valid, Provides-len m src bs v) (rw full refl))
      | inr room ↦
          let fits : length bs + 1 ≤ max_size = ground (arith, room) in
          let (m1, e1, st1) =
            move_from-Stored m s src bs v
              (rw add-zero at (readable_part m s max_size 0 (length bs) r (omega arith))) in
          let (m2, e2, st2) = store-Stored m1 (s + length bs) 0 (
            Changes-readable (s + length bs) 1 st1.changes
              (readable_part m s max_size (length bs) 1 r (omega arith))) in
          inl (
            ground (arith, room),
            m2,
            rw (valid, Provides-len m src bs v) (rw (room, e1, ◌>>=◌, when◌then◌else◌) e2),
            Stored-append st1 st2,
          )
    ]
