-- ===== src/Span/Url/Encode.antt =====
-- What `az_span_copy_url_encode` writes.
use azure_sdk_for_c.Base.{
  ℕ, suc, ◌+◌, ◌/◌, ◌%◌, ◌≤◌, ◌<◌, Bool, true, false, not, le→ltb_false, lt→ltb, if◌then◌else◌,
  Bool-cases, Bytes, [], ◌∷◌, ◌++◌, length, length-append, ◌≡◌, sym, ap, ◌∙◌, arith, ◌⊎◌, inl, inr,
  some,
}
use azure_sdk_for_c.Hex.{az_number_to_upper_hex}
use azure_sdk_for_c.Memory.{Memory, readable, store}
use azure_sdk_for_c.Memory.Changes.{Changes, Changes-refl, Changes-readable}
use azure_sdk_for_c.Result.{Run, fail, done, ◌>>=◌, when◌then◌else◌, buffer_overflow}
use azure_sdk_for_c.Source.{Source, at, literal, source_len, byte_at}
use azure_sdk_for_c.Source.Streams.{Streams, Provides-Streams, Provides-len}
use azure_sdk_for_c.Span.{Span, az_span_init, az_span_is_valid}
use azure_sdk_for_c.Span.Url.{
  should_encode, read_at, encoded_size, store_encoded, encode_from, az_span_copy_url_encode,
}
use azure_sdk_for_c.Span.Write.Given.{Given, IsApart, Given-valid}
use native.Mathlib.Decide.{dec_le}
use azure_sdk_for_c.Span.Write.Copy.{Stored, readable_part}
use azure_sdk_for_c.Span.Write.Stores.{store-Stored, Stored-append}

-- A byte percent-encoded, or as it is.
abbrev pub url_encoded_byte : ℕ → Bytes
url_encoded_byte c =
    if should_encode c
    then b'%' ∷ az_number_to_upper_hex (c / 16) ∷ az_number_to_upper_hex (c % 16) ∷ []
    else c ∷ []

abbrev pub url_encoded : Bytes → Bytes
url_encoded [] = []
url_encoded (c ∷ cs) = url_encoded_byte c ++ url_encoded cs

byte_size : (c : ℕ) → length (url_encoded_byte c) ≡ (if should_encode c then 3 else 1)
byte_size c = elim (Bool-cases (should_encode c)) [ inl e ↦ rw e | inr e ↦ rw e ]

read_lem :
    (m : Memory) (src : Source) (i c : ℕ) → byte_at m src i ≡ some c → read_at src i m ≡ done c m
read_lem m src i c h = rw h

size_lem :
    (cs : Bytes) (m : Memory) (src : Source) (i size : ℕ)
    → Streams m src i cs
    → encoded_size src (length cs) i size m ≡ done (size + length (url_encoded cs)) m
unfolding encoded_size
size_lem [] m src i size h = let e : size + 0 ≡ size = omega arith in rw e
size_lem (c ∷ cs) m src i size (h, hs) =
    let total : size + length (url_encoded_byte c ++ url_encoded cs)
        ≡ size + (if should_encode c then 3 else 1) + length (url_encoded cs) =
      omega (arith, length-append (url_encoded_byte c) (url_encoded cs), byte_size c) in
    rw (read_lem m src i c h, ◌>>=◌, total)
      (size_lem cs m src (suc i) (size + (if should_encode c then 3 else 1)) hs)

store_encoded_lem :
    (m : Memory) (p c : ℕ)
    → readable m p 3 ≡ true
    → (m' : Memory) × (store_encoded p c m ≡ done tt m')
      × Stored m p
          (b'%' ∷ az_number_to_upper_hex (c / 16) ∷ az_number_to_upper_hex (c % 16) ∷ [])
          m'
store_encoded_lem m p c r =
    let p0 : p + 0 ≡ p = omega arith in
    let (m1, e1, s1) = store-Stored m p b'%' (rw p0 at (readable_part m p 3 0 1 r (omega arith))) in
    let (m2, e2, s2) =
      store-Stored m1 (p + 1) (az_number_to_upper_hex (c / 16))
        (Changes-readable _ _ s1.changes (readable_part m p 3 1 1 r (omega arith))) in
    let (m3, e3, s3) = store-Stored m2 (p + 2) (az_number_to_upper_hex (c % 16)) (
      Changes-readable _ _ s2.changes
        (Changes-readable _ _ s1.changes (readable_part m p 3 2 1 r (omega arith)))) in
    (
      m3,
      rw (e1, ◌>>=◌) (rw (e2, ◌>>=◌) e3),
      Stored-append {xs = b'%' ∷ az_number_to_upper_hex (c / 16) ∷ []}
          (Stored-append {xs = b'%' ∷ []} s1 s2) s3,
    )

-- A byte is written, percent-encoded if it needs to be.
write_byte : ℕ → ℕ → Run Memory (Unit {0})
write_byte p c = when not (should_encode c) then store p c else store_encoded p c

write_byte_lem :
    (m : Memory) (p c : ℕ)
    → readable m p (length (url_encoded_byte c)) ≡ true
    → (m' : Memory) × (write_byte p c m ≡ done tt m') × Stored m p (url_encoded_byte c) m'
unfolding write_byte
write_byte_lem m p c r = go (should_encode c) r
  where
    go :
        (b : Bool)
        → readable m p (
            length (
              if b
              then b'%' ∷ az_number_to_upper_hex (c / 16) ∷ az_number_to_upper_hex (c % 16) ∷ []
              else c ∷ []))
          ≡ true
        → (m' : Memory) × ((when not b then store p c else store_encoded p c) m ≡ done tt m')
          × Stored m p
              (if b
                then b'%' ∷ az_number_to_upper_hex (c / 16) ∷ az_number_to_upper_hex (c % 16) ∷ []
                else c ∷ [])
              m'
    go true r = store_encoded_lem m p c r
    go false r = store-Stored m p c r

-- A source outside of a buffer still reads the same.
Streams-Changes :
    (bs : Bytes) (m m' : Memory) (buffer : Span) (src : Source) (i p n : ℕ)
    → IsApart src buffer
    → Changes m m' p n
    → buffer.ptr ≤ p
    → p + n ≤ buffer.ptr + buffer.capacity
    → i + length bs ≤ source_len src
    → Streams m src i bs
    → Streams m' src i bs
unfolding byte_at
Streams-Changes [] m m' buffer src i p n a c lo hi le h = tt
Streams-Changes (b ∷ bs) m m' buffer (literal xs) i p n a c lo hi le (h, hs) =
    (h, Streams-Changes bs m m' buffer (literal xs) (suc i) p n a c lo hi (omega arith) hs)
Streams-Changes (b ∷ bs) m m' buffer (at s) i p n a c lo hi le (h, hs) = (
  c.outside (s.ptr + i) (omega (arith, a.1)) ∙ h,
  Streams-Changes bs m m' buffer (at s) (suc i) p n a c lo hi (omega arith) hs,
)

-- The second loop, as writes of bytes.
encode_step :
    (m m' : Memory) (src : Source) (n i p s c : ℕ)
    → byte_at m src i ≡ some c
    → write_byte p c m ≡ done tt m'
    → encode_from src (suc n) i p s m
      ≡ encode_from src n
          (suc i)
          (p + length (url_encoded_byte c))
          (s + length (url_encoded_byte c))
          m'
unfolding encode_from write_byte
encode_step m m' src n i p s c h w = elim (Bool-cases (should_encode c)) [
  | inl e ↦ rw (read_lem m src i c h, ◌>>=◌) (rw e (rw (rw e at w, ◌>>=◌)))
  | inr e ↦ rw (read_lem m src i c h, ◌>>=◌) (rw e (rw (rw e at w, ◌>>=◌)))
]

-- The bytes that are left are encoded, one behind the other.
encode_lem :
    (cs : Bytes) (m : Memory) (buffer : Span) (src : Source) (i p s : ℕ)
    → IsApart src buffer
    → buffer.ptr ≤ p
    → p + length (url_encoded cs) ≤ buffer.ptr + buffer.capacity
    → i + length cs ≤ source_len src
    → Streams m src i cs
    → readable m p (length (url_encoded cs)) ≡ true
    → (m' : Memory) × (encode_from src (length cs) i p s m ≡ done (s + length (url_encoded cs)) m')
      × Stored m p (url_encoded cs) m'
unfolding encode_from
encode_lem [] m buffer src i p s a lo hi le h r =
    let s0 : s + 0 ≡ s = omega arith in
    (m, rw s0, record { holds = tt; changes = Changes-refl m p 0 })
encode_lem (c ∷ cs) m buffer src i p s a lo hi le (h, hs) r =
    let xs = url_encoded_byte c in
    let ys = url_encoded cs in
    let both : length (xs ++ ys) ≡ length xs + length ys = length-append xs ys in
    let p0 : p + 0 ≡ p = omega arith in
    let (m1, e1, s1) =
      write_byte_lem m p c
        (rw p0 at (readable_part m p (length (xs ++ ys)) 0 (length xs) r (omega arith))) in
    let (m2, e2, s2) =
      encode_lem cs m1 buffer src (suc i) (p + length xs) (s + length xs) a (omega arith)
        (omega arith) (omega arith)
        (Streams-Changes cs m m1 buffer src (suc i) p (length xs) a s1.changes lo (omega arith)
          (omega arith) hs)
        (Changes-readable _ _ s1.changes
          (readable_part m p (length (xs ++ ys)) (length xs) (length ys) r (omega arith))) in
    let total : s + length (xs ++ ys) ≡ s + length xs + length ys = omega arith in
    (
      m2,
      encode_step m m1 src (length cs) i p s c h e1 ∙ (e2 ∙ ap (λ k. done k m2) (sym total)),
      Stored-append s1 s2,
    )

pub az_span_copy_url_encode_lem :
    (m : Memory) (dst : Span) (src : Source) (cs : Bytes)
    → Given src cs (record { mem = m; self = dst })
    → az_span_is_valid dst ≡ true
    → readable m dst.ptr dst.capacity ≡ true
    → ((length (url_encoded cs) ≤ dst.capacity)
        × (m' : Memory) × (az_span_copy_url_encode dst src m
            ≡ done (az_span_init dst.ptr (length (url_encoded cs)) dst.capacity) m')
        × Stored m dst.ptr (url_encoded cs) m')
      ⊎ ((dst.capacity < length (url_encoded cs))
          × (az_span_copy_url_encode dst src m ≡ fail buffer_overflow m))
unfolding az_span_copy_url_encode
az_span_copy_url_encode_lem m dst src cs g v r =
    let count : source_len src ≡ length cs = Provides-len m src cs g.provides in
    let reads : Streams m src 0 cs = Provides-Streams m src cs g.provides in
    let sized : encoded_size src (length cs) 0 0 m ≡ done (0 + length (url_encoded cs)) m =
      size_lem cs m src 0 0 reads in
    let n0 : 0 + length (url_encoded cs) ≡ length (url_encoded cs) = omega arith in
    let p0 : dst.ptr + 0 ≡ dst.ptr = omega arith in
    elim (dec_le (length (url_encoded cs)) dst.capacity) [
      | no full ↦ inr (
        omega arith,
        rw (v, Given-valid src cs _ g, count)
            (rw (sized, ◌>>=◌, n0)
              (rw (lt→ltb dst.capacity (length (url_encoded cs)) (omega arith)))),
      )
      | yes room ↦
          let (m', e, s) =
            encode_lem cs m dst src 0 dst.ptr 0 g.apart (omega arith) (omega arith) (omega arith)
              reads
              (rw p0 at (
                readable_part m dst.ptr dst.capacity 0 (length (url_encoded cs)) r
                  (omega arith))) in
          inl (
            room,
            m',
            rw (v, Given-valid src cs _ g, count)
                (rw (sized, ◌>>=◌, n0)
                  (rw (le→ltb_false (length (url_encoded cs)) dst.capacity room)
                    (rw (e, ◌>>=◌, n0)))),
            s,
          )
    ]
