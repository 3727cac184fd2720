-- ===== src/Span/Write/Given.antt =====
-- A source that keeps its content while a buffer is written to: it stands outside of the buffer.
use azure_sdk_for_c.Base.{ℕ, ◌+◌, ◌≤◌, ◌<◌, true, Bytes, [], ◌∷◌, ◌≡◌, refl, arith, ◌⊎◌, some}
use azure_sdk_for_c.Memory.Changes.{Changes-Holds}
use azure_sdk_for_c.Result.{Run, ◌>>=◌}
use azure_sdk_for_c.Source.{Source, at, literal, byte_at, item_at, source_is_valid, Provides}
use azure_sdk_for_c.Source.Streams.{Streams, Provides-Streams}
use azure_sdk_for_c.Span.{Span}
use azure_sdk_for_c.Span.Write.{Target, append_to, fetch}
use azure_sdk_for_c.Span.Write.Emits.{Emits, Emits-append_to, Keeps}

-- A literal is never in a buffer, and it is no null pointer.
abbrev pub IsApart : Source → Span → Type 0
IsApart (at s) buffer =
    (0 < s.ptr) × ((s.ptr + s.len ≤ buffer.ptr) ⊎ (buffer.ptr + buffer.capacity ≤ s.ptr))
IsApart (literal bs) buffer = Unit {0}

pub record Given (src : Source) (bs : Bytes) (t : Target) : Type 0 where
  pub provides : Provides t.mem src bs
  pub apart : IsApart src t.self

pub Keeps-Given : (src : Source) (bs : Bytes) → Keeps (Given src bs)
Keeps-Given (literal xs) bs t t' ys x fits g = record { provides = g.provides; apart = tt }
Keeps-Given (at s) bs t t' ys x fits g = record {
  provides = record {
    count = g.provides.count;
    fits = g.provides.fits;
    holds = Changes-Holds bs s.ptr x.changes (omega arith) g.provides.holds;
  };
  apart = omega arith;
}

pub Given-valid :
    (src : Source) (bs : Bytes) (t : Target) → Given src bs t → source_is_valid src ≡ true
unfolding source_is_valid
Given-valid (at s) bs t g = ground arith
Given-valid (literal xs) bs t g = refl

pub Emits-Given : (src : Source) (bs : Bytes) → Emits (Given src bs) (append_to src) bs
Emits-Given src bs = Emits-append_to _ src bs (λ t g. (g.provides, Given-valid src bs t g))

pub Given-Streams :
    (src : Source) (bs : Bytes) (t : Target) → Given src bs t → Streams t.mem src 0 bs
Given-Streams src bs t g = Provides-Streams t.mem src bs g.provides

item_at-Provides :
    (src : Source) (whole : Bytes) (t : Target) (i b : ℕ)
    → Given src whole t
    → byte_at t.mem src i ≡ some b
    → Provides t.mem (item_at src i) (b ∷ []) × (source_is_valid (item_at src i) ≡ true)
unfolding item_at byte_at source_is_valid
item_at-Provides (at s) whole t i b g e =
    (record { count = refl; fits = omega arith; holds = (e, tt) }, ground (arith, g.apart.0))
item_at-Provides (literal xs) whole t i b g e = rw (e, item_at) (refl, refl)

module _ (src : Source) (whole : Bytes) where
  -- The byte at an index of a given source, wherever the buffer stands.
  abbrev pub Reads : ℕ → ℕ → Type 0
  Reads i b = (t : Target) → Given src whole t → byte_at t.mem src i ≡ some b

  pub Emits-item :
      (i b : ℕ) → Reads i b → Emits (Given src whole) (append_to (item_at src i)) (b ∷ [])
  Emits-item i b e =
      Emits-append_to _ (item_at src i) (b ∷ []) (λ t g. item_at-Provides src whole t i b g (e t g))

  pub Emits-fetch :
      (i b : ℕ) (next : ℕ → Run Target (Unit {0})) (text : Bytes)
      → Reads i b
      → Emits (Given src whole) (next b) text
      → Emits (Given src whole) (fetch src i >>= next) text
  unfolding fetch
  Emits-fetch i b next text e f = record {
    fits = λ t o g h. rw (e t g, ◌>>=◌) (f.fits t o g h);
    overflows = λ t o g h. rw (e t g, ◌>>=◌) (f.overflows t o g h);
  }

  -- The bytes from an index on.
  abbrev pub ReadsFrom : ℕ → Bytes → Type 0
  ReadsFrom i rest = (t : Target) → Given src whole t → Streams t.mem src i rest

  pub reads_all : ReadsFrom 0 whole
  reads_all t g = Given-Streams src whole t g
