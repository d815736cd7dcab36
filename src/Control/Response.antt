-- ===== src/Control/Response.antt =====
-- src/controller/protocol.rs: the responses, and how they are printed.
use plexy.Prelude.{
  ℕ, suc, ◌-◌, List, [], ◌∷◌, ◌++◌, Option, none, some, Text, codes, length, ltb, if◌then◌else◌,
}
use plexy.Errors.{Error, Result, ok, err, error_to_string}

pub data CommandResponse : Type 0 where
  response_ok : CommandResponse
  problem : Option Error → CommandResponse
  info : Text → Option (List Text) → CommandResponse
  response_done : CommandResponse

abbrev pub newline : ℕ
newline = 10

abbrev pub tab : ℕ
tab = 9

-- The loop over the lines from number `n` on, of `size` lines.
unfoldable pub detail_lines : ℕ → ℕ → List Text → Text
detail_lines size n [] = []
detail_lines size n (l ∷ lines) =
    tab ∷ l ++ ((if ltb n (size - 1) then newline ∷ [] else []) ++ detail_lines size (suc n) lines)

-- `CommandResponse::fmt`
unfoldable pub response_to_string : CommandResponse → Text
unfolding detail_lines
response_to_string response_done = codes "DONE"
response_to_string response_ok = codes "OK"
response_to_string (problem none) = codes "SORRY"
response_to_string (problem (some e)) = codes "SORRY" ++ (codes ": " ++ error_to_string e)
response_to_string (info short none) = codes "OK: " ++ short
response_to_string (info short (some lines)) =
    codes "OK: " ++ (short ++ newline ∷ detail_lines (length lines) 0 lines)

-- `From<Result<T>>`
abbrev pub from_result {ℓ} : {A : Type ℓ} → Result A → CommandResponse
from_result (ok _) = response_ok
from_result (err e) = problem (some e)

-- `CommandCodec::encode`; `encode_line` is `LinesCodec::encode` into the buffer.
unfoldable pub encode {ℓ} :
    {Buffer : Type ℓ} → (Text → Buffer → Result Buffer) → CommandResponse → Buffer → Result Buffer
unfolding response_to_string
encode encode_line item dst = encode_line (response_to_string item) dst
