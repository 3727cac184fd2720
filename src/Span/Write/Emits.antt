-- ===== src/Span/Write/Emits.antt =====
-- Sequences of appends to one buffer: all of the text is written, or the overflow is reported and
-- nothing before the end of the content or behind the buffer has changed.
use azure_sdk_for_c.Base.{
  ◌+◌, ◌-◌, ◌≤◌, ◌<◌, true, Bytes, [], ◌++◌, length, length-append, ◌≡◌, refl, ◌∙◌, arith, ◌⊎◌, inl,
  inr,
}
use azure_sdk_for_c.Memory.{Holds, Holds-append}
use azure_sdk_for_c.Memory.Changes.{
  Changes, Changes-refl, Changes-trans, Changes-readable, Changes-Holds,
}
use azure_sdk_for_c.Result.{Run, fail, done, ◌>>=◌, ◌>>◌, return, buffer_overflow}
use azure_sdk_for_c.Source.{Source, literal, source_is_valid, Provides}
use azure_sdk_for_c.Span.{Views}
use azure_sdk_for_c.Span.Write.{Target, in_place, append_to}
use azure_sdk_for_c.Span.Write.Copy.{
  IsBuilder, Appended, az_span_append-Appended, az_span_append_overflow,
}
use native.Mathlib.Decide.{dec_le}

abbrev pub Extends : Target → Bytes → Target → Type 0
Extends t bs t' = Appended t.mem t.self bs t'.mem t'.self

abbrev pub IsOpen : Target → Type 0
IsOpen t = IsBuilder t.mem t.self

abbrev pub FitsIn : Target → Bytes → Type 0
FitsIn t bs = t.self.len + length bs ≤ t.self.capacity

pub Extends-refl : (t : Target) → Extends t [] t
Extends-refl t = record {
  same_ptr = refl;
  longer = omega arith;
  same_capacity = refl;
  holds = tt;
  changes = Changes-refl t.mem _ _;
}

pub Extends-trans :
    {t t' t'' : Target} {xs ys : Bytes}
    → Extends t xs t'
    → Extends t' ys t''
    → Extends t (xs ++ ys) t''
Extends-trans {t} {t'} {t''} {xs} {ys} f g =
    let place : t'.self.ptr + t'.self.len ≡ t.self.ptr + t.self.len + length xs =
      omega (arith, f.same_ptr, f.longer) in
    let later : Holds t''.mem (t.self.ptr + t.self.len + length xs) ys = rw place at g.holds in
    let then' : Changes t'.mem t''.mem (t.self.ptr + t.self.len + length xs) (length ys) =
      rw place at g.changes in
    record {
      same_ptr = g.same_ptr ∙ f.same_ptr;
      longer = omega (arith, f.longer, g.longer, length-append xs ys);
      same_capacity = g.same_capacity ∙ f.same_capacity;
      holds =
          Holds-append xs ys t''.mem _ (Changes-Holds xs _ then' (inl (omega arith)) f.holds) later;
      changes =
          Changes-trans _ _ (omega arith) (omega (arith, length-append xs ys)) (omega arith)
            (omega (arith, length-append xs ys)) f.changes then';
    }

pub Extends-IsOpen :
    {t t' : Target} {bs : Bytes} → Extends t bs t' → IsOpen t → FitsIn t bs → IsOpen t'
Extends-IsOpen {t} {t'} f b h = record {
  buffer = rw (f.same_ptr, f.same_capacity) (Changes-readable _ _ f.changes b.buffer);
  within = omega (arith, f.longer, f.same_capacity);
}

-- The content after an append.
pub Extends-Views :
    {t t' : Target} {xs bs : Bytes}
    → Extends t bs t'
    → FitsIn t bs
    → Views t.mem t.self xs
    → Views t'.mem t'.self (xs ++ bs)
Extends-Views {t} {t'} {xs} {bs} f h v = record {
  count = omega (arith, f.longer, v.count, length-append xs bs);
  fits = omega (arith, f.longer, f.same_capacity);
  holds = rw f.same_ptr (
      Holds-append xs bs t'.mem t.self.ptr
        (Changes-Holds xs _ f.changes (inl (omega (arith, v.count))) v.holds)
        (rw (← v.count) f.holds));
}

-- The unused part of the buffer, at most, has changed.
abbrev pub Spoils : Target → Target → Type 0
Spoils t t' = Changes t.mem t'.mem (t.self.ptr + t.self.len) (t.self.capacity - t.self.len)

-- A run that appends the text `bs` from every state that is `Ready`.
pub record Emits (Ready : Target → Type 0) (run : Run Target (Unit {0})) (bs : Bytes) : Type 0 where
  pub fits :
      (t : Target)
      → IsOpen t
      → Ready t
      → FitsIn t bs
      → (t' : Target) × (run t ≡ done tt t') × Extends t bs t'
  pub overflows :
      (t : Target)
      → IsOpen t
      → Ready t
      → t.self.capacity < t.self.len + length bs
      → (t' : Target) × (run t ≡ fail buffer_overflow t') × Spoils t t'

-- What an append of `bs` to `t` does: it writes all of the text if there is room for it, else it
-- reports the overflow, having touched no more than the unused part of the buffer.
abbrev pub Appends : Run Target (Unit {0}) → Target → Bytes → Type 0
Appends run t bs =
    (FitsIn t bs × (t' : Target) × (run t ≡ done tt t') × Extends t bs t')
    ⊎ ((t.self.capacity < t.self.len + length bs)
        × (t' : Target) × (run t ≡ fail buffer_overflow t')
        × Spoils t t')

module _ (Ready : Target → Type 0) where
  pub Emits-Appends :
      {run : Run Target (Unit {0})} {bs : Bytes} (t : Target)
      → Emits Ready run bs
      → IsOpen t
      → Ready t
      → Appends run t bs
  Emits-Appends {run} {bs} t emits b r = elim (dec_le (t.self.len + length bs) t.self.capacity) [
    | yes room ↦ let (t', e, x) = emits.fits t b r room in inl (room, t', e, x)
    | no full ↦ let (t', e, x) = emits.overflows t b r (omega arith) in inr (omega arith, t', e, x)
  ]

  pub Emits-return : Emits Ready (return tt) []
  Emits-return = record {
    fits = λ t b r h. (t, refl, Extends-refl t);
    overflows = λ t b r h. absurd (omega (arith, b.within));
  }

  pub Emits-append_to :
      (src : Source) (bs : Bytes)
      → ((t : Target) → Ready t → Provides t.mem src bs × (source_is_valid src ≡ true))
      → Emits Ready (append_to src) bs
  unfolding append_to
  Emits-append_to src bs known = record {
    fits = λ t b r h.
        let (m', s', e, a) =
          az_span_append-Appended t.mem t.self src bs b (known t r).0 (known t r).1 h in
        (record { mem = m'; self = s' }, rw (e, append_to, in_place), a);
    overflows = λ t b r h. (
      t,
      rw (
        az_span_append_overflow t.mem t.self src bs (known t r).0 (known t r).1 b.within h,
        append_to,
        in_place,
      ),
      Changes-refl t.mem _ _,
    );
  }

  pub Emits-literal : (bs : Bytes) → Emits Ready (append_to (literal bs)) bs
  unfolding source_is_valid
  Emits-literal bs = Emits-append_to (literal bs) bs (λ t r. (refl, refl))

  -- What makes a state ready is not touched by an append to its buffer.
  abbrev pub Keeps : Type 0
  Keeps = (t t' : Target) (bs : Bytes) → Extends t bs t' → FitsIn t bs → Ready t → Ready t'

  module _ (keep : Keeps) {run next : Run Target (Unit {0})} {xs ys : Bytes} where
    seq_fits :
        Emits Ready run xs
        → Emits Ready next ys
        → (t : Target) → IsOpen t
        → Ready t
        → FitsIn t (xs ++ ys)
        → (t' : Target) × ((run >> next) t ≡ done tt t') × Extends t (xs ++ ys) t'
    seq_fits f g t b r h =
        let both : t.self.len + length xs + length ys ≤ t.self.capacity =
          omega (arith, length-append xs ys, h) in
        let (t', e, x) = f.fits t b r (omega arith) in
        let (t'', e', y) =
          g.fits t' (Extends-IsOpen x b (omega arith)) (keep t t' xs x (omega arith) r)
            (omega (arith, x.longer, x.same_capacity)) in
        (t'', rw (e, ◌>>=◌) e', Extends-trans x y)

    seq_overflows :
        Emits Ready run xs
        → Emits Ready next ys
        → (t : Target) → IsOpen t
        → Ready t
        → t.self.capacity < t.self.len + length (xs ++ ys)
        → (t' : Target) × ((run >> next) t ≡ fail buffer_overflow t') × Spoils t t'
    seq_overflows f g t b r h = elim (dec_le (t.self.len + length xs) t.self.capacity) [
      | no full ↦ let (t', e, x) = f.overflows t b r (omega arith) in (t', rw (e, ◌>>=◌), x)
      | yes room ↦
          let (t', e, x) = f.fits t b r room in
          let (t'', e', y) =
            g.overflows t' (Extends-IsOpen x b room) (keep t t' xs x room r)
              (omega (arith, x.longer, x.same_capacity, length-append xs ys)) in
          (
            t'',
            rw (e, ◌>>=◌) e',
            Changes-trans _ _ (omega arith) (omega arith) (omega (arith, x.longer, x.same_ptr))
                (omega (arith, x.longer, x.same_ptr, x.same_capacity)) x.changes y,
          )
    ]

    pub Emits-seq : Emits Ready run xs → Emits Ready next ys → Emits Ready (run >> next) (xs ++ ys)
    Emits-seq f g = record { fits = seq_fits f g; overflows = seq_overflows f g }

-- What holds of more states holds of fewer.
pub Emits-Ready :
    {Ready Other : Target → Type 0} {run : Run Target (Unit {0})} {bs : Bytes}
    → ((t : Target) → Other t → Ready t)
    → Emits Ready run bs
    → Emits Other run bs
Emits-Ready f e = record {
  fits = λ t b r h. e.fits t b (f t r) h;
  overflows = λ t b r h. e.overflows t b (f t r) h;
}

-- What is appended may be shown from the state.
pub Emits-from :
    (Ready : Target → Type 0) (run : Run Target (Unit {0})) (bs : Bytes)
    → ((t : Target) → Ready t → Emits Ready run bs)
    → Emits Ready run bs
Emits-from Ready run bs f = record {
  fits = λ t b r h. (f t r).fits t b r h;
  overflows = λ t b r h. (f t r).overflows t b r h;
}

-- What does not touch the buffer and gives a known value.
pub Emits-known :
    {A : Type 0} (Ready : Target → Type 0) (run : Run Target A) (next : A → Run Target (Unit {0}))
    (a : A) (bs : Bytes)
    → ((t : Target) → Ready t → run t ≡ done a t)
    → Emits Ready (next a) bs
    → Emits Ready (run >>= next) bs
Emits-known Ready run next a bs known e = record {
  fits = λ t b r h. rw (known t r, ◌>>=◌) (e.fits t b r h);
  overflows = λ t b r h. rw (known t r, ◌>>=◌) (e.overflows t b r h);
}
