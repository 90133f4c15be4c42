-- ===== src/Wire/Read.antt =====
-- server/wire/protocol.go: `ReadMessage`, over the reads of Go's io and encoding/binary.
use duckgres.Base.{
  ℕ, zero, suc, ◌+◌, ◌-◌, ◌*◌, ◌/◌, ◌%◌, ◌^◌, Bool, ◌&&◌, [], ◌∷◌, Bytes, replicate, ltb,
  if◌then◌else◌,
}
use duckgres.Base.Results.{Result, ok, err, panic, ◌>>=◌}

-- The place of the read that failed.
pub data ReadError : Type 0 where
  startup_length startup_body msg_type msg_length msg_body : ReadError

-- `io.ReadFull` of `n` bytes: the bytes, and what the reader still holds.
unfoldable pub read_full : ReadError → ℕ → Bytes → Result ReadError (Bytes × Bytes)
read_full e zero r = ok ([], r)
read_full e (suc n) [] = err e
read_full e (suc n) (x ∷ r) = do (xs, r') ← read_full e n r; ok (x ∷ xs, r')

-- `binary.BigEndian.PutUint32`, and `PutUint16`.
abbrev pub be32 : ℕ → Bytes
be32 n = n / 2 ^ 24 % 256 ∷ n / 2 ^ 16 % 256 ∷ n / 2 ^ 8 % 256 ∷ n % 256 ∷ []

abbrev pub be16 : ℕ → Bytes
be16 n = n / 2 ^ 8 % 256 ∷ n % 256 ∷ []

-- `binary.BigEndian.Uint32`; its callers hand it four bytes at least.
abbrev pub u32 : Bytes → ℕ
u32 (a ∷ b ∷ c ∷ d ∷ _) = a * 2 ^ 24 + b * 2 ^ 16 + c * 2 ^ 8 + d
u32 _ = 0

-- `length - 4` on an int32.
abbrev pub sub4 : ℕ → ℕ
sub4 w = (w + 2 ^ 32 - 4) % 2 ^ 32

-- `length > 4` on an int32.
abbrev pub above4 : ℕ → Bool
above4 w = ltb 4 w && ltb w (2 ^ 31)

-- `make([]byte, n)` of an int32: a negative length panics.
unfoldable pub make_bytes : ℕ → Result ReadError Bytes
make_bytes n = if ltb n (2 ^ 31) then ok (replicate n 0) else panic

abbrev first : Bytes → ℕ
first [] = 0
first (x ∷ _) = x

-- The message's type and body, and the rest of the stream.
unfoldable pub read_message : Bytes → Result ReadError (ℕ × Bytes × Bytes)
read_message r = do
  (type_buf, r₁) ← read_full msg_type 1 r
  (len_buf, r₂) ← read_full msg_length 4 r₁
  let len = u32 len_buf
  made ← make_bytes (sub4 len)
  (body, r₃) ← (if above4 len then read_full msg_body (sub4 len) r₂ else ok (made, r₂))
  ok (first type_buf, body, r₃)
