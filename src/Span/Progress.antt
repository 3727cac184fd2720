-- ===== src/Span/Progress.antt =====
-- How the steps of a reader consume it: its size is its length.
use azure_sdk_for_c.Base.{
  ℕ, zero, suc, ◌+◌, ◌-◌, ◌≤◌, min, false, not, ltb, ◌==◌, if◌then◌else◌, Bool-cases, Bytes, length,
  ◌≡◌, arith, inl, inr, some, none, Option,
}
use azure_sdk_for_c.Base.Int.{pos}
use azure_sdk_for_c.Memory.{Memory}
use azure_sdk_for_c.Result.Progress.{Takes, Takes-bind, Takes-when, loss}
use azure_sdk_for_c.Result.{
  Run, Outcome, fault, hang, fail, done, ◌>>=◌, ◌>>◌, return, throw, when◌then◌else◌, Error,
  parser_unexpected_char,
}
use azure_sdk_for_c.Source.{Source, at, literal, source_len, byte_at, demand}
use azure_sdk_for_c.Span.{Span, peek, skip, fail_at_end, if_at_end◌else◌, az_span_slice, to_end}
use azure_sdk_for_c.Span.Read.{memcmp_equal, az_span_is_equal, az_is_expected_span}

abbrev pub size : Span → ℕ
size s = s.len

slice_len : (s : Span) (k : ℕ) → (az_span_slice s k to_end).len ≤ s.len - k
unfolding az_span_slice
slice_len s k = ground arith

module _ {A : Type 0} (r j n : ℕ) where
  -- Steps that keep the reader.
  pub Takes-peek :
      (m : Memory) (next : ℕ → Run Span A) (s : Span)
      → ((c : ℕ) → Takes size r j n (next c s))
      → Takes size r j n ((peek m >>= next) s)
  unfolding peek
  Takes-peek m next s f = go (m s.ptr)
    where
      go :
          (o : Option ℕ)
          → Takes size r j n
              (elim (elim o as (λ x. Outcome Span ℕ) [ none ↦ fault | some c ↦ done c s ]) [
                | fault ↦ fault
                | hang ↦ hang
                | fail e s' ↦ fail e s'
                | done a s' ↦ next a s'
              ])
      go none = tt
      go (some c) = f c

  pub Takes-demand :
      (o : Option ℕ) (next : ℕ → Run Span A) (s : Span)
      → ((c : ℕ) → Takes size r j n (next c s))
      → Takes size r j n ((demand o >>= next) s)
  Takes-demand none next s f = tt
  Takes-demand (some c) next s f = f c

  pub Takes-fail_at_end :
      (e : Error) (next : Run Span A) (s : Span)
      → s.len + loss j e ≤ n
      → (1 ≤ s.len → Takes size r j n (next s))
      → Takes size r j n ((fail_at_end e >> next) s)
  Takes-fail_at_end e next s h f = elim (Bool-cases (s.len == 0)) [
    | inl end ↦ rw (end, ◌>>=◌, fail_at_end) h
    | inr more ↦ rw (more, ◌>>=◌, fail_at_end) (f (ground arith))
  ]

  pub Takes-if_at_end :
      (x y : Run Span A) (s : Span)
      → Takes size r j n (x s)
      → (1 ≤ s.len → Takes size r j n (y s))
      → Takes size r j n ((if_at_end x else y) s)
  Takes-if_at_end x y s f g = elim (Bool-cases (s.len == 0)) [
    | inl end ↦ rw (end, if_at_end◌else◌) f
    | inr more ↦ rw (more, if_at_end◌else◌) (g (ground arith))
  ]

  -- A byte that is there is passed over.
  pub Takes-skip_one :
      (next : Run Span A) (s : Span)
      → 1 ≤ s.len
      → ((s' : Span) → s'.len + 1 ≤ s.len → Takes size r j n (next s'))
      → Takes size r j n ((skip 1 >> next) s)
  unfolding skip
  Takes-skip_one next s h f = f (az_span_slice s 1 to_end) (omega (arith, slice_len s 1))

pub Takes-skip :
    (k r j n : ℕ) (s : Span) → s.len + r ≤ n + min k s.len → Takes size r j n (skip k s)
unfolding skip
Takes-skip k r j n s h = omega (arith, slice_len s k)

-- Comparing keeps the reader.
memcmp-Takes :
    (m : Memory) (a b : Source) (k i r j n : ℕ) (s : Span)
    → s.len + r ≤ n
    → Takes size r j n (memcmp_equal m a b k i s)
unfolding memcmp_equal
memcmp-Takes m a b zero i r j n s h = h
memcmp-Takes m a b (suc k) i r j n s h = Takes-demand r j n (byte_at m a i) _ s (λ x.
    Takes-demand r j n (byte_at m b i) _ s (λ y.
      Takes-when size r j n (x == y) (memcmp_equal m a b k (suc i)) (return false) s
        (memcmp-Takes m a b k (suc i) r j n s h) h))

is_equal-Takes :
    (m : Memory) (a b : Source) (j : ℕ) (s : Span) → Takes size 0 j s.len (az_span_is_equal m a b s)
unfolding az_span_is_equal
is_equal-Takes m a b j s =
    Takes-when size 0 j s.len (source_len a == source_len b) (memcmp_equal m a b (source_len a) 0)
      (return false) s (memcmp-Takes m a b (source_len a) 0 0 j s.len s (omega arith)) (omega arith)

ltb_false→le : (a b : ℕ) → ltb a b ≡ false → b ≤ a
ltb_false→le a b h = ground arith

pub expected_span-Takes :
    (m : Memory) (expected : Bytes) (j : ℕ) (s : Span)
    → Takes size (length expected) j s.len (az_is_expected_span m expected s)
unfolding az_is_expected_span
expected_span-Takes m expected j s = elim (Bool-cases (ltb s.len (length expected))) [
  | inl short ↦ rw short (omega arith)
  | inr enough ↦ rw enough (
      Takes-bind size 0 (length expected) j s.len
        (az_span_is_equal m (at (az_span_slice s 0 (pos (length expected)))) (literal expected)) _ s
        (is_equal-Takes m (at (az_span_slice s 0 (pos (length expected)))) (literal expected) j s)
        (λ equal s' h.
          Takes-when size (length expected) j s.len (not equal) (throw parser_unexpected_char)
            (skip (length expected)) s' (omega arith)
            (Takes-skip (length expected) (length expected) j s.len s'
              (skip_fits s' h (ltb_false→le s.len (length expected) enough)))))
]
  where
    skip_fits :
        (s' : Span)
        → s'.len + 0 ≤ s.len
        → length expected ≤ s.len
        → s'.len + length expected ≤ s.len + min (length expected) s'.len
    skip_fits s' h k = omega arith
