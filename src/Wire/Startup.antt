-- ===== src/Wire/Startup.antt =====
-- server/wire/protocol.go: `ReadStartupMessage`. A Go map is an association list of byte strings.
use duckgres.Base.{
  ℕ, zero, suc, ◌+◌, ◌/◌, ◌%◌, List, [], ◌∷◌, Option, none, some, Bytes, codes, length, drop,
  bytes_eq, bytes_eq_iff, ltb, leb, ◌==◌, if◌then◌else◌,
}
use duckgres.Base.Dict.{Eq, insert}
use duckgres.Base.Results.{Result, ok, panic, timeout, ◌>>=◌}
use duckgres.Wire.Read.{ReadError, startup_length, startup_body, read_full, u32, sub4, make_bytes}

instance abbrev pub bytes_keys : Eq Bytes
bytes_keys = record { beq = bytes_eq; beq_iff = bytes_eq_iff }

abbrev pub Params : Type 0
Params = List (Bytes × Bytes)

-- The bytes before the first NUL and those behind it, or `none` if there is no NUL.
unfoldable pub cut_nul : Bytes → Option (Bytes × Bytes)
cut_nul [] = none
cut_nul (c ∷ cs) =
    if c == 0
    then some ([], cs)
    else elim (cut_nul cs) [ none ↦ none | some (s, rest) ↦ some (c ∷ s, rest) ]

-- `if key != "" { params[key] = value }`
unfoldable pub put_param : Bytes → Bytes → Params → Params
put_param [] value params = params
put_param (c ∷ key) value params = insert (c ∷ key) value params

-- The loop over the null-terminated pairs. With no NUL behind the key it stops; with none behind
-- the value, `valEnd > len(data)` is false and `data[valEnd+1:]` is out of range.
unfoldable pub parse_params : ℕ → Bytes → Params → Result ReadError Params
parse_params zero data' params = timeout
parse_params (suc f) data' params =
    let round : Result ReadError Params = elim (cut_nul data') [
      | none ↦ ok params
      | some (key, after_key) ↦ elim (cut_nul after_key) [
        | none ↦ panic
        | some (value, rest) ↦ parse_params f rest (put_param key value params)
      ]
    ] in
    if ltb 1 (length data') then round else ok params

-- `fmt.Sprintf("%d", n)`; ten digits hold every uint32.
unfoldable pub decimal_digits : ℕ → ℕ → Bytes → Bytes
decimal_digits zero n acc = acc
decimal_digits (suc f) n acc =
    let more = decimal_digits f (n / 10) ((b'0' + n % 10) ∷ acc) in
    if ltb n 10 then (b'0' + n) ∷ acc else more

abbrev pub decimal : ℕ → Bytes
decimal n = decimal_digits 10 n []

abbrev pub yes_text : Bytes
yes_text = codes "true"

-- A cancel request, with the process and its secret where the body holds them.
cancel_request : Bytes → Params
cancel_request remaining =
    if leb 12 (length remaining)
    then (codes "__cancel_request", yes_text)
      ∷ (codes "__cancel_pid", decimal (u32 (drop 4 remaining)))
      ∷ (codes "__cancel_secret_key", decimal (u32 (drop 8 remaining)))
      ∷ []
    else (codes "__cancel_request", yes_text) ∷ []

-- The dispatch on the protocol version.
unfoldable pub startup_body_params : Bytes → Result ReadError Params
unfolding cancel_request
startup_body_params remaining =
    let version = u32 remaining in
    let pairs = drop 4 remaining in
    if version == 80877103
    then ok ((codes "__ssl_request", yes_text) ∷ [])
    else if version == 80877104
    then ok ((codes "__gssenc_request", yes_text) ∷ [])
    else if version == 80877102
    then ok (cancel_request remaining)
    else parse_params (suc (length pairs)) pairs []

-- `remaining[:4]` panics on a body of less than four bytes.
unfoldable pub read_startup_message : Bytes → Result ReadError (Params × Bytes)
read_startup_message r = do
  (len_buf, r₁) ← read_full startup_length 4 r
  let size = sub4 (u32 len_buf)
  _ ← make_bytes size
  (remaining, r₂) ← read_full startup_body size r₁
  params ← (if ltb size 4 then panic else startup_body_params remaining)
  ok (params, r₂)
