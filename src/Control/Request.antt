-- ===== src/Control/Request.antt =====
-- src/controller/protocol.rs: the commands, and how a line is read as one.
use plexy.Prelude.{
  Bool, true, false, ◌||◌, [], ◌∷◌, ◌++◌, Option, none, some, Text, codes, text_eq,
  to_ascii_uppercase, ◌==◌, if◌then◌else◌,
}
use plexy.Errors.{Error, Result, ok, err, ◌>>=◌, control_protocol_error}
use plexy.Tunnel.{SocketSpec, F32, Tunnel, TunnelOptions}
use plexy.Tunnel.Specs.{socket_spec_from_str, tunnel_from_str}
use plexy.Nom.{Nom}

pub data CommandRequest : Type 0 where
  opens : Tunnel → CommandRequest
  closes : SocketSpec → CommandRequest
  status : Bool → CommandRequest
  detail : SocketSpec → CommandRequest
  help exit : CommandRequest
  invalid : Error → CommandRequest
  adds removes : SocketSpec → SocketSpec → CommandRequest

-- The two `next()` of `s.splitn(2, ' ')`: the first part is always there.
unfoldable pub splitn2 : Text → Text × Option Text
splitn2 [] = ([], none)
splitn2 (c ∷ s) =
    let (head, tail) = splitn2 s in if c == b' ' then ([], some s) else (c ∷ head, tail)

-- `parts.next().ok_or_else(|| Error::ControlProtocolError(message))`
abbrev pub ok_or : Text → Option Text → Result Text
ok_or message none = err (control_protocol_error message)
ok_or message (some s) = ok s

-- The closure `args`.
abbrev pub args : Option Text → Result Text
args rest = ok_or (codes "Missing argument") rest

-- `args().map(|s| s.to_ascii_uppercase()).unwrap_or_default()`
abbrev pub scale : Option Text → Text
scale none = []
scale (some s) = to_ascii_uppercase s

unfoldable pub status_request : Text → Result CommandRequest
status_request s =
    if text_eq s (codes "LONG") || text_eq s (codes "FULL")
    then ok (status true)
    else if text_eq s (codes "SHORT") || text_eq s []
    then ok (status false)
    else err (control_protocol_error (codes "Invalid argument to STATUS"))

module _ (nom : Nom) where
  -- The closure `two_sockets`.
  unfoldable pub two_sockets : Option Text → Result (SocketSpec × SocketSpec)
  unfolding splitn2
  two_sockets rest = args rest >>= λ s.
      let (first, second) = splitn2 s in
      socket_spec_from_str nom first >>= λ tunnel.
      ok_or (codes "Missing remote socket spec") second >>= λ r.
      socket_spec_from_str nom r >>= λ remote. ok (tunnel, remote)

module _ (nom : Nom) (parse_f32 : Text → Option F32) (default : TunnelOptions) where
  -- The match on the command word.
  unfoldable pub command_request : Text → Option Text → Result CommandRequest
  unfolding two_sockets status_request
  command_request cmd rest =
      if text_eq cmd (codes "STATUS")
      then status_request (scale rest)
      else if text_eq cmd (codes "OPEN")
      then args rest >>= (λ s. tunnel_from_str nom parse_f32 default s >>= λ t. ok (opens t))
      else if text_eq cmd (codes "HELP")
      then ok help
      else if text_eq cmd (codes "EXIT")
      then ok exit
      else if text_eq cmd (codes "CLOSE")
      then args rest >>= (λ s. socket_spec_from_str nom s >>= λ k. ok (closes k))
      else if text_eq cmd (codes "DETAIL")
      then args rest >>= (λ s. socket_spec_from_str nom s >>= λ k. ok (detail k))
      else if text_eq cmd (codes "ADD")
      then two_sockets nom rest >>= (λ p. ok (adds p.0 p.1))
      else if text_eq cmd (codes "REMOVE")
      then two_sockets nom rest >>= (λ p. ok (removes p.0 p.1))
      else err (control_protocol_error (codes "Invalid command: " ++ cmd))

  -- `CommandRequest::from_str`
  unfoldable pub request_from_str : Text → Result CommandRequest
  unfolding splitn2 command_request
  request_from_str s =
      let (first, rest) = splitn2 s in command_request (to_ascii_uppercase first) rest

  -- `line.parse().unwrap_or_else(CommandRequest::Invalid)`
  unfoldable pub line_request : Text → CommandRequest
  unfolding request_from_str
  line_request line = elim (request_from_str line) [ ok cmd ↦ cmd | err e ↦ invalid e ]

  -- `CommandCodec::decode`, of what the lines codec decoded.
  unfoldable pub decode : Result (Option Text) → Result (Option CommandRequest)
  unfolding line_request
  decode (err e) = err e
  decode (ok none) = ok none
  decode (ok (some line)) = ok (some (line_request line))
