-- ===== src/Span/Yields.antt =====
-- What a reader does to the content in front of it: `Yields` for a value, `Fails` for an error.
use azure_sdk_for_c.Base.{ℕ, Bytes, [], ◌∷◌, drop, ne→==_false, ==_iff, ◌≡◌, refl, arith}
use azure_sdk_for_c.Memory.{Memory}
use azure_sdk_for_c.Result.{Run, fail, done, ◌>>=◌, return, throw, Error}
use azure_sdk_for_c.Span.{Span, Views, peek, skip, fail_at_end, az_span_slice, to_end}
use azure_sdk_for_c.Span.Slice.{Views-az_span_slice}

module _ (m : Memory) {A : Type 0} where
  -- Before the content `bs` the run returns `a` and leaves `rest`.
  abbrev pub Yields : Run Span A → Bytes → A → Bytes → Type 0
  Yields run bs a rest =
      (s : Span) → Views m s bs → (s' : Span) × (run s ≡ done a s') × Views m s' rest

  -- Before the content `bs` the run reports `e`, with `rest` left.
  abbrev pub Fails : Run Span A → Bytes → Error → Bytes → Type 0
  Fails run bs e rest =
      (s : Span) → Views m s bs → (s' : Span) × (run s ≡ fail e s') × Views m s' rest

module _ (m : Memory) {A : Type 0} where
  pub Yields-return : (a : A) (bs : Bytes) → Yields m (return a) bs a bs
  Yields-return a bs s v = (s, refl, v)

  pub Fails-throw : (e : Error) (bs : Bytes) → Fails m {A = A} (throw e) bs e bs
  Fails-throw e bs s v = (s, refl, v)

  module _ {B : Type 0} (run : Run Span A) (next : A → Run Span B) (bs : Bytes) where
    pub Yields-bind :
        (a : A) (b : B) (mid rest : Bytes)
        → Yields m run bs a mid
        → Yields m (next a) mid b rest
        → Yields m (run >>= next) bs b rest
    Yields-bind a b mid rest f g s v =
        let (s', e, v') = f s v in let (s'', e', v'') = g s' v' in (s'', rw (e, ◌>>=◌) e', v'')

    pub Fails-bind :
        (a : A) (e : Error) (mid rest : Bytes)
        → Yields m run bs a mid
        → Fails m (next a) mid e rest
        → Fails m (run >>= next) bs e rest
    Fails-bind a e mid rest f g s v =
        let (s', p, v') = f s v in let (s'', p', v'') = g s' v' in (s'', rw (p, ◌>>=◌) p', v'')

    pub Fails-first :
        (e : Error) (rest : Bytes) → Fails m run bs e rest → Fails m (run >>= next) bs e rest
    Fails-first e rest f s v = let (s', p, v') = f s v in (s', rw (p, ◌>>=◌), v')

module _ (m : Memory) where
  pub Yields-peek : (b : ℕ) (bs : Bytes) → Yields m (peek m) (b ∷ bs) b (b ∷ bs)
  unfolding peek
  Yields-peek b bs s v = (s, rw (v.holds.0, peek), v)

  pub Yields-skip : (n : ℕ) (bs : Bytes) → Yields m (skip n) bs tt (drop n bs)
  unfolding skip
  Yields-skip n bs s v = (az_span_slice s n to_end, refl, (Views-az_span_slice n to_end bs v).0)

  pub Yields-fail_at_end :
      (e : Error) (b : ℕ) (bs : Bytes) → Yields m (fail_at_end e) (b ∷ bs) tt (b ∷ bs)
  Yields-fail_at_end e b bs s v =
      (s, rw (ne→==_false s.len 0 (λ z. absurd (omega (arith, v.count, z))), fail_at_end), v)

  pub Fails-fail_at_end : (e : Error) → Fails m (fail_at_end e) [] e []
  Fails-fail_at_end e s v = (s, rw ((==_iff s.len 0).1 v.count, fail_at_end), v)

  -- One byte is looked at and passed over.
  module _ {B : Type 0} (next : ℕ → Run Span B) (b : ℕ) (bs : Bytes) (c : B) (rest : Bytes) where
    pub Yields-next : Yields m (next b) (b ∷ bs) c rest → Yields m (peek m >>= next) (b ∷ bs) c rest
    Yields-next f = Yields-bind m (peek m) next (b ∷ bs) b c (b ∷ bs) rest (Yields-peek b bs) f

module _ (m : Memory) {A : Type 0} where
  -- Before the content `bs` the run returns a value of which `P` holds, and leaves `rest`.
  abbrev pub Gives : Run Span A → Bytes → (A → Type 0) → Bytes → Type 0
  Gives run bs P rest =
      (s : Span)
      → Views m s bs
      → (a : A) × (s' : Span) × (run s ≡ done a s') × P a × Views m s' rest

  pub Gives-return : (a : A) (bs : Bytes) (P : A → Type 0) → P a → Gives (return a) bs P bs
  Gives-return a bs P p s v = (a, s, refl, p, v)

  module _ {B : Type 0} (run : Run Span B) (next : B → Run Span A) (bs : Bytes)
      (P : A → Type 0) where
    pub Gives-bind :
        (b : B) (mid rest : Bytes)
        → Yields m run bs b mid
        → Gives (next b) mid P rest
        → Gives (run >>= next) bs P rest
    Gives-bind b mid rest f g s v =
        let (s', e, v') = f s v in
        let (a, s'', e', p, v'') = g s' v' in (a, s'', rw (e, ◌>>=◌) e', p, v'')

    pub Gives-bind_some :
        (Q : B → Type 0) (mid rest : Bytes)
        → ((s : Span)
            → Views m s bs
            → (b : B) × (s' : Span) × (run s ≡ done b s') × Q b × Views m s' mid)
        → ((b : B) → Q b → Gives (next b) mid P rest)
        → Gives (run >>= next) bs P rest
    Gives-bind_some Q mid rest f g s v =
        let (b, s', e, q, v') = f s v in
        let (a, s'', e', p, v'') = g b q s' v' in (a, s'', rw (e, ◌>>=◌) e', p, v'')
