-- ===== src/Wire/Params.antt =====
-- The startup message: what a client encodes is what the server sees, and where it panics.
use duckgres.Base.{
  ℕ, zero, suc, ◌+◌, ◌^◌, ◌<◌, ◌≡◌, refl, ap, ◌∙◌, ◌≢◌, [], ◌∷◌, ◌++◌, Option, none, some, Bytes,
  length, drop, All, bytes_eq, lt→ltb, le→ltb, if◌then◌else◌, length-append, arith, inl, inr,
  Option-cases,
}
use duckgres.Base.Dict.{insert, lookup, lookup-insert}
use duckgres.Base.Results.{Result, ok, panic, timeout, ◌>>=◌, >>=-ne-timeout, ok-ne-timeout}
use duckgres.Wire.Framing.{read_full-append, u32-be32}
use duckgres.Wire.Read.{ReadError, startup_body, read_full, be32, u32, sub4, make_bytes}
use duckgres.Wire.Startup.{
  Params, bytes_keys, cut_nul, put_param, parse_params, startup_body_params, read_startup_message,
}

-- No NUL byte.
abbrev pub IsText : Bytes → Type 0
IsText = All (λ c. c ≢ 0)

-- The pairs that the protocol can carry: no NUL inside, and no empty key.
abbrev pub CanCarry : Params → Type 0
CanCarry = All (λ kv. (kv.0 ≢ []) × IsText kv.0 × IsText kv.1)

-- The client's encoding of the pairs.
abbrev pub encode_pairs : Params → Bytes → Bytes
encode_pairs [] end = end
encode_pairs ((k, v) ∷ ps) end = k ++ (0 ∷ (v ++ (0 ∷ encode_pairs ps end)))

-- The value that was sent last for a key.
abbrev pub last_value : Bytes → Params → Option Bytes → Option Bytes
last_value k [] old = old
last_value k ((j, v) ∷ ps) old = last_value k ps (if bytes_eq j k then some v else old)

abbrev put_all : Params → Params → Params
put_all [] m = m
put_all ((k, v) ∷ ps) m = put_all ps (insert k v m)

lookup-put_all :
    (k : Bytes) (ps m : Params) → lookup k (put_all ps m) ≡ last_value k ps (lookup k m)
lookup-put_all k [] m = refl
lookup-put_all k ((j, v) ∷ ps) m =
    lookup-put_all k ps (insert j v m) ∙ ap (last_value k ps) (lookup-insert j k v m)

pub cut_nul-text : (s rest : Bytes) → IsText s → cut_nul (s ++ (0 ∷ rest)) ≡ some (s, rest)
unfolding cut_nul
cut_nul-text [] rest h = refl
cut_nul-text (c ∷ s) rest (h, t) = ground (arith, cut_nul-text s rest t)

cut_nul-none : (s : Bytes) → IsText s → cut_nul s ≡ none
unfolding cut_nul
cut_nul-none [] h = refl
cut_nul-none (c ∷ s) (h, t) = ground (arith, cut_nul-none s t)

put_param_lem : (k v : Bytes) (m : Params) → k ≢ [] → put_param k v m ≡ insert k v m
unfolding put_param
put_param_lem [] v m h = absurd (h refl)
put_param_lem (c ∷ k) v m h = refl

length_pair :
    (k v rest : Bytes)
    → length (k ++ (0 ∷ (v ++ (0 ∷ rest)))) ≡ length k + length v + length rest + 2
length_pair k v rest =
    omega (arith, length-append k (0 ∷ (v ++ (0 ∷ rest))), length-append v (0 ∷ rest))

parse_params-encode_pairs :
    (f : ℕ) (ps : Params) (end : Bytes) (m : Params)
    → CanCarry ps
    → length (encode_pairs ps end) < f
    → (g : ℕ) × (length end < g)
      × (parse_params f (encode_pairs ps end) m ≡ parse_params g end (put_all ps m))
unfolding parse_params
parse_params-encode_pairs f [] end m c h = (f, h, refl)
parse_params-encode_pairs zero (kv ∷ ps) end m c h = elim h [ ]
parse_params-encode_pairs (suc f) ((k, v) ∷ ps) end m ((ne, tk, tv), c) h =
    let tail = encode_pairs ps end in
    let size = length_pair k v tail in
    let (g, hg, e) = parse_params-encode_pairs f ps end (insert k v m) c (omega arith) in
    (
      g,
      hg,
      rw
          (
            lt→ltb 1 (length (k ++ (0 ∷ (v ++ (0 ∷ tail))))) (omega arith),
            cut_nul-text k (v ++ (0 ∷ tail)) tk,
            cut_nul-text v tail tv,
            put_param_lem k v m ne,
          )
          e,
    )

cut_nul_shorter : (s : Bytes) {a b : Bytes} → cut_nul s ≡ some (a, b) → length b < length s
unfolding cut_nul
cut_nul_shorter [] h = cc
cut_nul_shorter (c ∷ s) h = elim (Option-cases (cut_nul s)) [
  | inl e ↦ ground (arith, e)
  | inr ((a', b'), e) ↦ ground (arith, e, cut_nul_shorter s e)
]

-- Fuel above the number of bytes is enough.
parse_params-ne-timeout :
    (f : ℕ) (s : Bytes) (m : Params) → length s < f → parse_params f s m ≢ timeout
unfolding parse_params
parse_params-ne-timeout zero s m h = elim h [ ]
parse_params-ne-timeout (suc f) s m h = elim (Option-cases (cut_nul s)) [
  | inl e ↦ rw (e, parse_params) (ground arith)
  | inr ((k, after), e) ↦ elim (Option-cases (cut_nul after)) [
    | inl e' ↦ rw (e, e', parse_params) (ground arith)
    | inr ((v, rest), e') ↦
        rw (e, e', parse_params)
          (ground (
            arith,
            parse_params-ne-timeout f rest (put_param k v m)
                (omega (arith, cut_nul_shorter s e, cut_nul_shorter after e')),
          ))
  ]
]

abbrev params_of : Bytes → Result ReadError Params
params_of pairs = parse_params (suc (length pairs)) pairs []

-- The protocol versions that are requests of another kind.
abbrev pub IsOrdinary : ℕ → Type 0
IsOrdinary v = (v ≢ 80877102) × (v ≢ 80877103) × (v ≢ 80877104)

startup_body_params_ordinary :
    (v : ℕ) (pairs : Bytes)
    → v < 2 ^ 32
    → IsOrdinary v
    → startup_body_params (be32 v ++ pairs) ≡ params_of pairs
unfolding startup_body_params
startup_body_params_ordinary v pairs h o = rw (u32-be32 v h) (ground arith)

params_of-encode_pairs :
    (ps : Params) → CanCarry ps → params_of (encode_pairs ps (0 ∷ [])) ≡ ok (put_all ps [])
params_of-encode_pairs ps c =
    let (g, h, e) = parse_params-encode_pairs _ ps (0 ∷ []) [] c (omega arith) in e ∙ stop g h
  where
    stop : (g : ℕ) → 1 < g → parse_params g (0 ∷ []) (put_all ps []) ≡ ok (put_all ps [])
    stop zero h = elim h [ ]
    stop (suc g) h = unfold parse_params in refl

params_of_unterminated :
    (ps : Params) (key value : Bytes)
    → CanCarry ps
    → key ≢ []
    → IsText key
    → IsText value
    → params_of (encode_pairs ps (key ++ (0 ∷ value))) ≡ panic
params_of_unterminated ps key value c ne tk tv =
    let (g, h, e) = parse_params-encode_pairs _ ps (key ++ (0 ∷ value)) [] c (omega arith) in
    e ∙ fault key ne tk g h
  where
    fault :
        (key : Bytes)
        → key ≢ []
        → IsText key
        → (g : ℕ) → length (key ++ (0 ∷ value)) < g
        → parse_params g (key ++ (0 ∷ value)) (put_all ps []) ≡ panic
    fault [] ne tk g h = absurd (ne refl)
    fault (x ∷ key) ne tk zero h = elim h [ ]
    fault (x ∷ key) ne tk (suc g) h =
        unfold parse_params in
        rw (
          cut_nul-text (x ∷ key) value tk,
          cut_nul-none value tv,
          lt→ltb 1 (suc (length (key ++ (0 ∷ value))))
              (omega (arith, length-append key (0 ∷ value))),
        )

-- A startup message behind its length.
read_startup_message-body :
    (v : ℕ) (pairs rest : Bytes)
    → length pairs + 8 < 2 ^ 31
    → read_startup_message (be32 (length pairs + 8) ++ (be32 v ++ (pairs ++ rest)))
      ≡ (do params ← startup_body_params (be32 v ++ pairs); ok (params, rest))
unfolding read_startup_message read_full make_bytes
read_startup_message-body v pairs rest h =
    let size : sub4 (length pairs + 8) ≡ length (be32 v ++ pairs) = omega arith in
    rw (
      u32-be32 (length pairs + 8) (omega arith),
      size,
      lt→ltb (length (be32 v ++ pairs)) (2 ^ 31) (omega arith),
      read_full-append startup_body pairs rest,
      le→ltb (length (be32 v ++ pairs)) 4 (omega arith),
    )

-- A startup message of an ordinary version with a list of pairs that the protocol can carry, of a
-- length that fits an int32, is read: each key has the value that was sent last for it, and the
-- stream behind the message is untouched.
pub read_startup_message-encode_pairs :
    (v : ℕ) (ps : Params) (rest : Bytes)
    → v < 2 ^ 32
    → IsOrdinary v
    → CanCarry ps
    → length (encode_pairs ps (0 ∷ [])) + 8 < 2 ^ 31
    → (params : Params) × (read_startup_message (
          be32 (length (encode_pairs ps (0 ∷ [])) + 8)
          ++ (be32 v ++ (encode_pairs ps (0 ∷ []) ++ rest)))
        ≡ ok (params, rest))
      × ((k : Bytes) → lookup k params ≡ last_value k ps none)
unfolding lookup
read_startup_message-encode_pairs v ps rest h o c l = (
  put_all ps [],
  read_startup_message-body v (encode_pairs ps (0 ∷ [])) rest l
      ∙ rw (
        startup_body_params_ordinary v (encode_pairs ps (0 ∷ [])) h o,
        params_of-encode_pairs ps c,
      ),
  λ k. lookup-put_all k ps [],
)

-- In a startup message of an ordinary version whose length fits an int32, a key that is not empty and
-- whose value has no terminator, as the last of the pairs, makes the reader panic.
pub read_startup_message_unterminated :
    (v : ℕ) (ps : Params) (key value rest : Bytes)
    → v < 2 ^ 32
    → IsOrdinary v
    → CanCarry ps
    → key ≢ []
    → IsText key
    → IsText value
    → length (encode_pairs ps (key ++ (0 ∷ value))) + 8 < 2 ^ 31
    → read_startup_message (
        be32 (length (encode_pairs ps (key ++ (0 ∷ value))) + 8)
        ++ (be32 v ++ (encode_pairs ps (key ++ (0 ∷ value)) ++ rest)))
      ≡ panic
read_startup_message_unterminated v ps key value rest h o c ne tk tv l =
    let pairs = encode_pairs ps (key ++ (0 ∷ value)) in
    read_startup_message-body v pairs rest l
    ∙ rw (startup_body_params_ordinary v pairs h o, params_of_unterminated ps key value c ne tk tv)

read_full-ne-timeout : (e : ReadError) (n : ℕ) (r : Bytes) → read_full e n r ≢ timeout
unfolding read_full
read_full-ne-timeout e zero r = λ q. cc
read_full-ne-timeout e (suc n) [] = λ q. cc
read_full-ne-timeout e (suc n) (x ∷ r) = >>=-ne-timeout _ _ (read_full-ne-timeout e n r) (λ a q. cc)

startup_body_params-ne-timeout : (b : Bytes) → startup_body_params b ≢ timeout
unfolding startup_body_params
startup_body_params-ne-timeout b =
    ground (arith, parse_params-ne-timeout (suc (length (drop 4 b))) (drop 4 b) [])

-- Whatever bytes the client sends, the loop over the pairs ends within its fuel.
pub read_startup_message-ne-timeout : (r : Bytes) → read_startup_message r ≢ timeout
unfolding read_startup_message make_bytes
read_startup_message-ne-timeout r = >>=-ne-timeout _ _ (read_full-ne-timeout _ 4 r) λ a.
    >>=-ne-timeout _ _ (ground arith) λ b.
      >>=-ne-timeout _ _ (read_full-ne-timeout _ (sub4 (u32 a.0)) a.1) λ c.
        >>=-ne-timeout _ _ (ground (arith, startup_body_params-ne-timeout c.0))
          (λ d. ok-ne-timeout _)
