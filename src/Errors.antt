-- ===== src/Errors.antt =====
-- src/error.rs: the error type, its codes, and its result type.
use plexy.Prelude.{ℕ, ◌+◌, ◌≡◌, refl, ◌⊎◌, inl, inr, ◌++◌, Text, codes}

-- A source error of another library (`io::Error`, `LinesCodecError`, ...) is kept as its message.
pub data Error : Type 0 where
  tunnel_parse_error : Text → Error
  socket_spec_parse_error : Text → Error
  socket_addr_parse : Text → Error
  io_error : Text → Error
  tunnel_exists : Error
  tunnel_does_not_exist : Error
  remote_exists : Error
  remote_does_not_exist : Error
  control_protocol_line_error : Text → Error
  control_protocol_error : Text → Error
  no_remote : Error
  invalid_lb_strategy : Error
  rpc_error : Text → Error
  certificate_error : Text → Error

abbrev pub error_base : ℕ
error_base = 1000

unfoldable pub error_code : Error → ℕ
error_code (tunnel_parse_error _) = error_base + 1
error_code (socket_spec_parse_error _) = error_base + 2
error_code (socket_addr_parse _) = error_base + 3
error_code (io_error _) = error_base + 4
error_code tunnel_exists = error_base + 5
error_code tunnel_does_not_exist = error_base + 6
error_code remote_exists = error_base + 7
error_code remote_does_not_exist = error_base + 8
error_code (control_protocol_line_error _) = error_base + 9
error_code (control_protocol_error _) = error_base + 10
error_code no_remote = error_base + 11
error_code invalid_lb_strategy = error_base + 12
error_code (rpc_error _) = error_base + 13
error_code (certificate_error _) = error_base + 14

-- The messages, of the attributes `#[error(..)]`.
unfoldable pub error_to_string : Error → Text
error_to_string (tunnel_parse_error x) = codes "Tunnel definition parsing error: " ++ x
error_to_string (socket_spec_parse_error x) = codes "Socket spec parse error: " ++ x
error_to_string (socket_addr_parse x) = codes "Socket address parse error: " ++ x
error_to_string (io_error x) = codes "IO error: " ++ x
error_to_string tunnel_exists = codes "Tunnel already exists"
error_to_string tunnel_does_not_exist = codes "Tunnel doesn't exist"
error_to_string remote_exists = codes "Remote already exists"
error_to_string remote_does_not_exist = codes "Remote does not exists"
error_to_string (control_protocol_line_error x) = codes "Invalid control protocol line: " ++ x
error_to_string (control_protocol_error x) = codes "Control protocol error: " ++ x
error_to_string no_remote = codes "No remote available"
error_to_string invalid_lb_strategy = codes "Invalid loadbalancing strategy string"
error_to_string (rpc_error x) = codes "RPC error: " ++ x
error_to_string (certificate_error x) = codes "Certificate error: " ++ x

pub data Result {ℓ} (A : Type ℓ) : Type ℓ where
  ok : A → Result A
  err : Error → Result A

-- `?` on a `Result`
infixl 5 ◌>>=◌
abbrev pub ◌>>=◌ {ℓ κ} : {A : Type ℓ} {B : Type κ} → Result A → (A → Result B) → Result B
ok a >>= f = f a
err e >>= f = err e

pub Result-cases {ℓ} :
    {A : Type ℓ} (r : Result A) → ((a : A) × (r ≡ ok a)) ⊎ ((e : Error) × (r ≡ err e))
Result-cases (ok a) = inl (a, refl)
Result-cases (err e) = inr (e, refl)
