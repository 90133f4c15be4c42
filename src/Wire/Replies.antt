-- ===== src/Wire/Replies.antt =====
-- What a client reads from the server's structured replies.
use duckgres.Base.{
  ℕ, zero, suc, ◌+◌, ◌*◌, ◌/◌, ◌%◌, ◌^◌, ◌<◌, ◌≡◌, refl, ap, Bool, List, [], ◌∷◌, ◌++◌, Option,
  none, some, Bytes, length, replicate, ◌==◌, if◌then◌else◌, arith,
}
use duckgres.Base.Results.{ok}
use duckgres.Wire.Framing.{buffer, frame, write_message-frame, read_message-frame}
use duckgres.Wire.Params.{IsText, cut_nul-text}
use duckgres.Wire.Read.{ReadError, read_message}
use duckgres.Wire.Startup.{cut_nul}
use duckgres.Wire.Write.{response_fields, column_formats, copy_response, write_error_response}

-- The fields of an error or notice: a type byte and a text each, up to a zero byte.
fields_from : ℕ → Bytes → Option (List (ℕ × Bytes))
fields_from zero b = none
fields_from (suc f) [] = none
fields_from (suc f) (c ∷ b) =
    let field : Option (List (ℕ × Bytes)) = elim (cut_nul b) [
      | none ↦ none
      | some (s, rest) ↦ elim (fields_from f rest) [ none ↦ none | some l ↦ some ((c, s) ∷ l) ]
    ] in
    if c == 0 then some [] else field

-- Four fields at most.
pub read_fields : Bytes → Option (List (ℕ × Bytes))
unfolding fields_from
read_fields = fields_from 4

read_fields-response_fields :
    (severity code message : Bytes)
    → IsText severity
    → IsText code
    → IsText message
    → read_fields (response_fields severity code message)
      ≡ some ((b'S', severity) ∷ (b'C', code) ∷ (b'M', message) ∷ [])
unfolding read_fields response_fields
read_fields-response_fields severity code message hs hc hm = rw (
  cut_nul-text severity (b'C' ∷ (code ++ (0 ∷ b'M' ∷ (message ++ (0 ∷ 0 ∷ []))))) hs,
  cut_nul-text code (b'M' ∷ (message ++ (0 ∷ 0 ∷ []))) hc,
  cut_nul-text message (0 ∷ []) hm,
)

-- An error response whose texts hold no NUL and whose length fits an int32 is written whole, and the
-- client reads its three fields, the message redacted.
pub write_error_response-read_fields :
    (redact : Bytes → Bytes) (severity code message rest : Bytes)
    → IsText severity
    → IsText code
    → IsText (redact message)
    → length (response_fields severity code (redact message)) + 4 < 2 ^ 31
    → (s body : Bytes) × (write_error_response {E = ReadError} buffer redact [] severity code
          message
        ≡ ok s)
      × (read_message (s ++ rest) ≡ ok (b'E', body, rest))
      × (read_fields body ≡ some ((b'S', severity) ∷ (b'C', code) ∷ (b'M', redact message) ∷ []))
unfolding write_error_response
write_error_response-read_fields redact severity code message rest hs hc hm h =
    let body = response_fields severity code (redact message) in
    (
      frame b'E' body,
      body,
      write_message-frame [] b'E' body h,
      read_message-frame b'E' body rest h,
      read_fields-response_fields severity code (redact message) hs hc hm,
    )

-- The format codes of a COPY response.
read_formats : ℕ → Bytes → Option (List ℕ)
read_formats zero [] = some []
read_formats zero (_ ∷ _) = none
read_formats (suc n) (a ∷ b ∷ r) = elim (read_formats n r) [
  | none ↦ none
  | some l ↦ some ((a * 256 + b) ∷ l)
]
read_formats (suc n) _ = none

-- The overall format, the number of columns and the format of each.
pub read_copy_response : Bytes → Option (ℕ × List ℕ)
unfolding read_formats
read_copy_response (format ∷ a ∷ b ∷ r) = elim (read_formats (a * 256 + b) r) [
  | none ↦ none
  | some l ↦ some (format, l)
]
read_copy_response _ = none

read_formats-column_formats :
    (n f : ℕ) → f < 2 → read_formats n (column_formats n f) ≡ some (replicate n f)
unfolding read_formats column_formats
read_formats-column_formats zero f h = refl
read_formats-column_formats (suc n) f h = rw (read_formats-column_formats n f h) (ground arith)

-- The body of both COPY responses, for fewer than 2 ^ 15 columns, announces each column in the
-- format of the whole.
pub copy_response-read :
    (columns : ℕ) (text_format : Bool)
    → columns < 2 ^ 15
    → read_copy_response (copy_response columns text_format)
      ≡ (let format : ℕ = if text_format then 0 else 1 in some (format, replicate columns format))
unfolding read_copy_response copy_response
copy_response-read columns text_format h =
    let n : columns / 256 % 256 * 256 + columns % 256 ≡ columns = omega arith in
    ground (
      arith,
      n,
      ap (λ k. read_formats k (column_formats columns 0)) n,
      ap (λ k. read_formats k (column_formats columns 1)) n,
      read_formats-column_formats columns 0 (omega arith),
      read_formats-column_formats columns 1 (omega arith),
    )
