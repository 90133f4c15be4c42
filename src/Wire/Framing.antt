-- ===== src/Wire/Framing.antt =====
-- What `ReadMessage` makes of each length field, and of what the server itself writes.
use duckgres.Base.{
  ℕ, zero, suc, ◌+◌, ◌-◌, ◌*◌, ◌/◌, ◌%◌, ◌^◌, ◌≤◌, ◌<◌, ◌≡◌, refl, ◌∙◌, true, false, [], ◌∷◌, ◌++◌,
  append_assoc, Bytes, length, take, drop, replicate, ltb, leb, ltb→lt, leb→le, lt→ltb, if-cases,
  le→ltb, dec_lt, take-length-append, drop-length-append, if◌then◌else◌, length-append, arith,
}
use duckgres.Base.Results.{Result, ok, err, panic, ◌>>=◌}
use duckgres.Wire.Read.{
  ReadError, msg_body, read_full, be32, sub4, above4, make_bytes, read_message,
}
use duckgres.Wire.Write.{write_message}

-- The writer that keeps what it is given, and never fails.
abbrev pub buffer : {E : Type 0} → Bytes → Bytes → Result E Bytes
buffer out b = ok (out ++ b)

pub read_full-append :
    (e : ReadError) (xs ys : Bytes) → read_full e (length xs) (xs ++ ys) ≡ ok (xs, ys)
unfolding read_full
read_full-append e [] ys = refl
read_full-append e (x ∷ xs) ys = rw (read_full-append e xs ys)

pub read_full_enough :
    (e : ReadError) (n : ℕ) (r : Bytes) → n ≤ length r → read_full e n r ≡ ok (take n r, drop n r)
unfolding read_full
read_full_enough e zero r h = refl
read_full_enough e (suc n) [] h = absurd (omega arith)
read_full_enough e (suc n) (x ∷ r) h = rw (read_full_enough e n r (omega arith))

pub read_full_short : (e : ReadError) (n : ℕ) (r : Bytes) → length r < n → read_full e n r ≡ err e
unfolding read_full
read_full_short e zero r h = absurd (omega arith)
read_full_short e (suc n) [] h = refl
read_full_short e (suc n) (x ∷ r) h = rw (read_full_short e n r (omega arith))

pub u32-be32 :
    (n : ℕ)
    → n < 2 ^ 32
    → n / 2 ^ 24 % 256 * 2 ^ 24 + n / 2 ^ 16 % 256 * 2 ^ 16 + n / 2 ^ 8 % 256 * 2 ^ 8 + n % 256 ≡ n
u32-be32 n h = omega arith

-- `ReadMessage` behind its five bytes of header.
abbrev body_of : ℕ → ℕ → Bytes → Result ReadError (ℕ × Bytes × Bytes)
body_of t n rest = do
  made ← make_bytes (sub4 n)
  (body, r) ← (if above4 n then read_full msg_body (sub4 n) rest else ok (made, rest))
  ok (t, body, r)

read_message_header :
    (t n : ℕ) (rest : Bytes) → n < 2 ^ 32 → read_message (t ∷ (be32 n ++ rest)) ≡ body_of t n rest
unfolding read_message read_full
read_message_header t n rest h = rw (u32-be32 n h)

sub4_lem : (n : ℕ) → 4 ≤ n → n < 2 ^ 32 → sub4 n ≡ n - 4
sub4_lem n h k = omega arith

make_bytes_ok : (n : ℕ) → n < 2 ^ 31 → make_bytes n ≡ ok (replicate n 0)
unfolding make_bytes
make_bytes_ok n h = rw (lt→ltb n (2 ^ 31) h)

make_bytes_negative : (n : ℕ) → 2 ^ 31 ≤ n → make_bytes n ≡ panic
unfolding make_bytes
make_bytes_negative n h = rw (le→ltb n (2 ^ 31) h)

above4_positive : (n : ℕ) → 4 < n → n < 2 ^ 31 → above4 n ≡ true
above4_positive n h k = rw (lt→ltb 4 n h) (lt→ltb n (2 ^ 31) k)

above4_negative : (n : ℕ) → 2 ^ 31 ≤ n → above4 n ≡ false
above4_negative n h = rw (lt→ltb 4 n (omega arith)) (le→ltb n (2 ^ 31) h)

module _ (t n : ℕ) (rest : Bytes) where
  body_of_small : n < 4 → body_of t n rest ≡ panic
  body_of_small h = rw (make_bytes_negative (sub4 n) (omega arith))

  body_of_large : 2 ^ 31 + 4 ≤ n → n < 2 ^ 32 → body_of t n rest ≡ panic
  body_of_large h k = rw (make_bytes_negative (sub4 n) (omega arith))

  body_of_wrapped :
      2 ^ 31 ≤ n → n < 2 ^ 31 + 4 → body_of t n rest ≡ ok (t, replicate (n - 4) 0, rest)
  body_of_wrapped h k = rw (
    sub4_lem n (omega arith) (omega arith),
    make_bytes_ok (n - 4) (omega arith),
    above4_negative n h,
  )

  body_of_read :
      4 ≤ n
      → n < 2 ^ 31
      → body_of t n rest ≡ (do (body, r) ← read_full msg_body (n - 4) rest; ok (t, body, r))
  unfolding read_full
  body_of_read h k = elim (dec_lt 4 n) [
    | yes p ↦
        rw (sub4_lem n h (omega arith), make_bytes_ok (n - 4) (omega arith), above4_positive n p k)
    | no p ↦ let e : n ≡ 4 = omega arith in rw (e, make_bytes_ok 0 (omega arith))
  ]

-- The five kinds of length field.
read_message_cases :
    (t n : ℕ) (rest : Bytes)
    → n < 2 ^ 32
    → (n < 4 → read_message (t ∷ (be32 n ++ rest)) ≡ panic)
      × (4 ≤ n
          → n < 2 ^ 31
          → n - 4 ≤ length rest
          → read_message (t ∷ (be32 n ++ rest)) ≡ ok (t, take (n - 4) rest, drop (n - 4) rest))
      × (4 ≤ n
          → n < 2 ^ 31
          → length rest < n - 4
          → read_message (t ∷ (be32 n ++ rest)) ≡ err msg_body)
      × (2 ^ 31 ≤ n
          → n < 2 ^ 31 + 4
          → read_message (t ∷ (be32 n ++ rest)) ≡ ok (t, replicate (n - 4) 0, rest))
      × (2 ^ 31 + 4 ≤ n → read_message (t ∷ (be32 n ++ rest)) ≡ panic)
read_message_cases t n rest h = (
  λ a. head ∙ body_of_small t n rest a,
  λ a b c. head ∙ body_of_read t n rest a b ∙ rw (read_full_enough msg_body (n - 4) rest c),
  λ a b c. head ∙ body_of_read t n rest a b ∙ rw (read_full_short msg_body (n - 4) rest c),
  λ a b. head ∙ body_of_wrapped t n rest a b,
  λ a. head ∙ body_of_large t n rest a h,
)
  where
    head : read_message (t ∷ (be32 n ++ rest)) ≡ body_of t n rest
    head = read_message_header t n rest h

-- What a length field `n` makes of the bytes behind it.
abbrev pub framed : ℕ → ℕ → Bytes → Result ReadError (ℕ × Bytes × Bytes)
framed t n rest =
    if ltb n 4
    then panic
    else if ltb n (2 ^ 31)
    then (if leb (n - 4) (length rest)
        then ok (t, take (n - 4) rest, drop (n - 4) rest)
        else err msg_body)
    else if ltb n (2 ^ 31 + 4)
    then ok (t, replicate (n - 4) 0, rest)
    else panic

-- A length field below 4 makes the reader panic. Any other that is positive as an int32 gives the
-- type and that many bytes less 4, or an error where the stream is shorter. A negative one gives as
-- many zero bytes without reading them where taking 4 wraps around, and a panic otherwise.
pub read_message_frames :
    (t n : ℕ) (rest : Bytes) → n < 2 ^ 32 → read_message (t ∷ (be32 n ++ rest)) ≡ framed t n rest
read_message_frames t n rest h =
    let (small, whole, short, wrapped, negative) = read_message_cases t n rest h in
    if-cases Reads (ltb n 4) _ _ (λ y. small (ltb→lt n 4 y))
      (λ a.
        if-cases Reads (ltb n (2 ^ 31)) _ _
          (λ y.
            if-cases Reads (leb (n - 4) (length rest)) _ _
              (λ z. whole (not_less n 4 a) (ltb→lt n (2 ^ 31) y) (leb→le (n - 4) (length rest) z))
              (λ z. short (not_less n 4 a) (ltb→lt n (2 ^ 31) y) (not_leb (n - 4) (length rest) z)))
          (λ b.
            if-cases Reads (ltb n (2 ^ 31 + 4)) _ _
              (λ y. wrapped (not_less n (2 ^ 31) b) (ltb→lt n (2 ^ 31 + 4) y))
              (λ d. negative (not_less n (2 ^ 31 + 4) d))))
  where
    Reads : Result ReadError (ℕ × Bytes × Bytes) → Type 0
    Reads r = read_message (t ∷ (be32 n ++ rest)) ≡ r

    not_less : (a b : ℕ) → ltb a b ≡ false → b ≤ a
    not_less a b e = ground arith

    not_leb : (a b : ℕ) → leb a b ≡ false → b < a
    not_leb a b e = ground arith

-- The bytes of one message.
abbrev pub frame : ℕ → Bytes → Bytes
frame t data' = t ∷ (be32 (length data' + 4) ++ data')

pub write_message-frame :
    {E : Type 0} (out : Bytes) (t : ℕ) (data' : Bytes)
    → length data' + 4 < 2 ^ 31
    → write_message {E = E} buffer out t data' ≡ ok (out ++ frame t data')
unfolding write_message
write_message-frame out t [] h = simp append_assoc
write_message-frame out t (x ∷ data') h =
    let small : (suc (length data') + 4) % 2 ^ 32 ≡ suc (length data') + 4 = omega arith in
    rw (small, lt→ltb 0 (suc (length data')) (omega arith)) (simp append_assoc)

pub read_message-frame :
    (t : ℕ) (data' rest : Bytes)
    → length data' + 4 < 2 ^ 31
    → read_message (frame t data' ++ rest) ≡ ok (t, data', rest)
read_message-frame t data' rest h =
    let n : ℕ = length data' + 4 in
    let e : n - 4 ≡ length data' = omega arith in
    (read_message_cases t n (data' ++ rest) (omega arith)).1 (omega arith) h
      (omega (arith, length-append data' rest))
    ∙ rw (e, take-length-append data' rest, drop-length-append data' rest)

-- A message whose length fits an int32 is written whole, and is read back as it was with the
-- stream behind it untouched.
pub read_message-write_message :
    (out rest : Bytes) (t : ℕ) (data' : Bytes)
    → length data' + 4 < 2 ^ 31
    → (s : Bytes) × (write_message {E = ReadError} buffer out t data' ≡ ok (out ++ s))
      × (read_message (s ++ rest) ≡ ok (t, data', rest))
read_message-write_message out rest t data' h =
    (frame t data', write_message-frame out t data' h, read_message-frame t data' rest h)
