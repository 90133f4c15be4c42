-- ===== src/Wire/Examples.antt =====
-- Runs of the wire protocol on concrete messages, and the theorems at concrete inputs.
use duckgres.Base.{◌≡◌, refl, ◌≢◌, [], ◌∷◌, ◌++◌, some, none, Bytes, codes, arith}
use duckgres.Base.Dict.{lookup}
use duckgres.Base.Results.{ok, panic, timeout}
use duckgres.Wire.Framing.{buffer, framed, read_message_frames, read_message-write_message}
use duckgres.Wire.Params.{
  last_value, encode_pairs, read_startup_message-encode_pairs, read_startup_message_unterminated,
  read_startup_message-ne-timeout,
}
use duckgres.Wire.Read.{ReadError, be32, read_full, make_bytes, read_message}
use duckgres.Wire.Replies.{read_fields, write_error_response-read_fields}
use duckgres.Wire.Startup.{
  Params, bytes_keys, decimal_digits, startup_body_params, read_startup_message,
}
use duckgres.Wire.Write.{response_fields, write_message, write_error_response}

abbrev user_pair : Params
user_pair = (codes "user", codes "ann") ∷ []

read_query :
    read_message (b'Q' ∷ 0 ∷ 0 ∷ 0 ∷ 6 ∷ b';' ∷ 0 ∷ b'X' ∷ []) ≡ ok (b'Q', b';' ∷ 0 ∷ [], b'X' ∷ [])
unfolding read_message read_full make_bytes
read_query = refl

read_cancel :
    read_startup_message (be32 16 ++ be32 80877102 ++ be32 1007 ++ be32 42)
    ≡ ok (
      (codes "__cancel_request", codes "true")
          ∷ (codes "__cancel_pid", codes "1007")
          ∷ (codes "__cancel_secret_key", codes "42")
          ∷ [],
      [],
    )
unfolding read_startup_message read_full make_bytes startup_body_params decimal_digits
read_cancel = refl

read_message_frames_example :
    read_message (b'Q' ∷ (be32 5 ++ (b';' ∷ []))) ≡ framed b'Q' 5 (b';' ∷ [])
read_message_frames_example = read_message_frames b'Q' 5 (b';' ∷ []) (omega arith)

read_message-write_message_example :
    (s : Bytes) × (write_message {E = ReadError} buffer [] b'd' (codes "1,2") ≡ ok s)
    × (read_message (s ++ codes "c") ≡ ok (b'd', codes "1,2", codes "c"))
read_message-write_message_example =
    read_message-write_message [] (codes "c") b'd' (codes "1,2") (omega arith)

read_startup_message-encode_pairs_example :
    (params : Params) × (read_startup_message
        (be32 18 ++ (be32 196608 ++ encode_pairs user_pair (0 ∷ [])))
      ≡ ok (params, []))
    × ((k : Bytes) → lookup k params ≡ last_value k user_pair none)
read_startup_message-encode_pairs_example =
    read_startup_message-encode_pairs 196608 user_pair [] (omega arith) (omega arith)
      (((λ e. cc), omega arith, omega arith), tt) (omega arith)

read_startup_message_unterminated_example :
    read_startup_message (be32 14 ++ (be32 196608 ++ codes "user" ++ (0 ∷ b'x' ∷ []))) ≡ panic
read_startup_message_unterminated_example =
    read_startup_message_unterminated 196608 [] (codes "user") (codes "x") [] (omega arith)
      (omega arith) tt (λ e. cc) (omega arith) (omega arith) (omega arith)

read_startup_message-ne-timeout_example :
    read_startup_message (be32 10 ++ be32 196608 ++ (0 ∷ 0 ∷ [])) ≢ timeout
read_startup_message-ne-timeout_example =
    read_startup_message-ne-timeout (be32 10 ++ be32 196608 ++ (0 ∷ 0 ∷ []))

write_error_response-read_fields_example :
    (s body : Bytes) × (write_error_response {E = ReadError} buffer
        (λ m. m)
        []
        (codes "ERROR")
        (codes "57014")
        (codes "no")
      ≡ ok s)
    × (read_message (s ++ []) ≡ ok (b'E', body, []))
    × (read_fields body
        ≡ some ((b'S', codes "ERROR") ∷ (b'C', codes "57014") ∷ (b'M', codes "no") ∷ []))
write_error_response-read_fields_example =
    write_error_response-read_fields (λ m. m) (codes "ERROR") (codes "57014") (codes "no") []
      (omega arith) (omega arith) (omega arith) (unfold response_fields in omega arith)
