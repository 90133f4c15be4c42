-- ===== src/Wire/Write.antt =====
-- server/wire/protocol.go: the messages that the server writes. An `io.Writer` is a state with the
-- function that writes bytes to it, which may fail.
use duckgres.Base.{
  ℕ, zero, suc, ◌+◌, ◌%◌, ◌^◌, Bool, [], ◌∷◌, ◌++◌, Bytes, length, ltb, if◌then◌else◌,
}
use duckgres.Base.Results.{Result, ok, ◌>>=◌}
use duckgres.Wire.Read.{be32, be16}

-- The fields of `WriteErrorResponse` and `WriteNoticeResponse`: severity, SQLSTATE and message.
unfoldable pub response_fields : Bytes → Bytes → Bytes → Bytes
response_fields severity code message =
    b'S' ∷ (severity ++ (0 ∷ b'C' ∷ (code ++ (0 ∷ b'M' ∷ (message ++ (0 ∷ 0 ∷ []))))))

-- The loop over the columns of a COPY response.
unfoldable pub column_formats : ℕ → ℕ → Bytes
column_formats zero format = []
column_formats (suc n) format = be16 format ++ column_formats n format

-- An int16 as a loop bound: a negative one makes no round.
abbrev pub int16_rounds : ℕ → ℕ
int16_rounds n = if ltb n (2 ^ 15) then n else 0

unfoldable pub copy_response : ℕ → Bool → Bytes
unfolding column_formats
copy_response columns text_format =
    let format : ℕ = if text_format then 0 else 1 in
    format ∷ (be16 columns ++ column_formats (int16_rounds columns) format)

module _ {S E : Type 0} (write : S → Bytes → Result E S) where
  -- `binary.Write` of an int32 writes its pattern, so the length wraps at 2 ^ 32.
  unfoldable pub write_message : S → ℕ → Bytes → Result E S
  write_message w msg_type data' = do
    w₁ ← write w (msg_type ∷ [])
    w₂ ← write w₁ (be32 ((length data' + 4) % 2 ^ 32))
    if ltb 0 (length data') then write w₂ data' else ok w₂

  unfoldable pub write_auth_ok : S → Result E S
  write_auth_ok w = write_message w b'R' (be32 0)

  unfoldable pub write_auth_cleartext_password : S → Result E S
  write_auth_cleartext_password w = write_message w b'R' (be32 3)

  unfoldable pub write_parameter_status : S → Bytes → Bytes → Result E S
  write_parameter_status w name value = write_message w b'S' (name ++ (0 ∷ (value ++ (0 ∷ []))))

  unfoldable pub write_backend_key_data : S → ℕ → ℕ → Result E S
  write_backend_key_data w pid secret_key = write_message w b'K' (be32 pid ++ be32 secret_key)

  unfoldable pub write_ready_for_query : S → ℕ → Result E S
  write_ready_for_query w tx_status = write_message w b'Z' (tx_status ∷ [])

  -- The message is redacted by a regular expression, which is a parameter here.
  unfoldable pub write_error_response : (Bytes → Bytes) → S → Bytes → Bytes → Bytes → Result E S
  write_error_response redact w severity code message =
      write_message w b'E' (response_fields severity code (redact message))

  unfoldable pub write_notice_response : S → Bytes → Bytes → Bytes → Result E S
  write_notice_response w severity code message =
      write_message w b'N' (response_fields severity code message)

  unfoldable pub write_command_complete : S → Bytes → Result E S
  write_command_complete w tag = write_message w b'C' (tag ++ (0 ∷ []))

  unfoldable pub write_empty_query_response : S → Result E S
  write_empty_query_response w = write_message w b'I' []

  unfoldable pub write_parse_complete : S → Result E S
  write_parse_complete w = write_message w b'1' []

  unfoldable pub write_bind_complete : S → Result E S
  write_bind_complete w = write_message w b'2' []

  unfoldable pub write_close_complete : S → Result E S
  write_close_complete w = write_message w b'3' []

  unfoldable pub write_no_data : S → Result E S
  write_no_data w = write_message w b'n' []

  unfoldable pub write_copy_out_response : S → ℕ → Bool → Result E S
  write_copy_out_response w columns text_format =
      write_message w b'H' (copy_response columns text_format)

  unfoldable pub write_copy_in_response : S → ℕ → Bool → Result E S
  write_copy_in_response w columns text_format =
      write_message w b'G' (copy_response columns text_format)

  unfoldable pub write_copy_data : S → Bytes → Result E S
  write_copy_data w data' = write_message w b'd' data'

  unfoldable pub write_copy_done : S → Result E S
  write_copy_done w = write_message w b'c' []
