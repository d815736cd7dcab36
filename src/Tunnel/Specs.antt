-- ===== src/Tunnel/Specs.antt =====
-- src/tunnel.rs: socket specs and tunnels read from text and printed, and the parts of a spec.
use plexy.Prelude.{
  ℕ, ◌-◌, ◌^◌, Bool, true, false, ◌&&◌, ◌||◌, List, [], ◌∷◌, ◌++◌, Option, none, some, Text, codes,
  length, take, drop, parse_unsigned, leb, ◌==◌, if◌then◌else◌,
}
use plexy.Errors.{Result, ok, err, socket_spec_parse_error, tunnel_parse_error}
use plexy.Tunnel.{SocketSpec, F32, Tunnel, TunnelOptions}
use plexy.Tunnel.Parser.{last, socket_spec, tunnel}
use plexy.Nom.{IResult, done, error, failure, incomplete, Nom}

-- `s.rsplit_once(c)`
abbrev pub split_at : ℕ → ℕ → Text → Option (Text × Text) → Option (Text × Text)
split_at c d s (some (before, after)) = some (d ∷ before, after)
split_at c d s none = if d == c then some ([], s) else none

unfoldable pub rsplit_once : ℕ → Text → Option (Text × Text)
rsplit_once c [] = none
rsplit_once c (d ∷ s) = split_at c d s (rsplit_once c s)

abbrev pub starts_with : ℕ → Text → Bool
starts_with c [] = false
starts_with c (d ∷ s) = d == c

abbrev pub ends_with : ℕ → Text → Bool
ends_with c s = elim (last s) [ none ↦ false | some d ↦ d == c ]

-- `&host[1..host.len() - 1]` if the host stands in brackets
unfoldable pub without_brackets : Text → Text
without_brackets host =
    if starts_with b'[' host && ends_with b']' host
    then drop 1 (take (length host - 1) host)
    else host

-- `SocketSpec::as_tuple`; `none` is a panic of one of the two `unwrap`s.
unfoldable pub as_tuple : SocketSpec → Option (Text × ℕ)
unfolding rsplit_once without_brackets
as_tuple spec = elim (rsplit_once b':' spec.inner) [
  | none ↦ none
  | some parts ↦ elim (parse_unsigned (2 ^ 16) parts.1) [
    | none ↦ none
    | some port ↦ some (without_brackets parts.0, port)
  ]
]

-- `SocketSpec::port` and `SocketSpec::host`, with the same panics
unfoldable pub spec_port : SocketSpec → Option ℕ
unfolding as_tuple
spec_port spec = elim (as_tuple spec) [ none ↦ none | some parts ↦ some parts.1 ]

unfoldable pub spec_host : SocketSpec → Option Text
unfolding as_tuple
spec_host spec = elim (as_tuple spec) [ none ↦ none | some parts ↦ some parts.0 ]

-- `char::is_whitespace`
abbrev pub is_whitespace : ℕ → Bool
is_whitespace c =
    leb 9 c && leb c 13
    || c == 32
    || c == 0x85
    || c == 0xA0
    || c == 0x1680
    || leb 0x2000 c && leb c 0x200A
    || c == 0x2028
    || c == 0x2029
    || c == 0x202F
    || c == 0x205F
    || c == 0x3000

-- `s.trim_end().is_empty()`
unfoldable pub is_blank : Text → Bool
is_blank [] = true
is_blank (c ∷ s) = is_whitespace c && is_blank s

module _ (nom : Nom) where
  -- What `from_str` makes of the parser's answer.
  unfoldable pub whole_spec : IResult nom.Kind SocketSpec → Result SocketSpec
  unfolding is_blank
  whole_spec incomplete = err (socket_spec_parse_error (codes "Incomplete Socket Spec"))
  whole_spec (error k i) = err (
      socket_spec_parse_error
        (codes "Failed parser: " ++ (nom.debug k ++ (codes ", unparsed: " ++ i))))
  whole_spec (failure k i) = err (
      socket_spec_parse_error
        (codes "Failed parser: " ++ (nom.debug k ++ (codes ", unparsed: " ++ i))))
  whole_spec (done rest spec) =
      if is_blank rest
      then ok spec
      else err (socket_spec_parse_error (codes "Extra characters after spec: " ++ rest))

  -- `SocketSpec::from_str`
  unfoldable pub socket_spec_from_str : Text → Result SocketSpec
  unfolding whole_spec
  socket_spec_from_str s = whole_spec (socket_spec nom s)

  unfoldable pub whole_tunnel : IResult nom.Kind Tunnel → Result Tunnel
  whole_tunnel incomplete = err (tunnel_parse_error (codes "Incomplete tunnel spec"))
  whole_tunnel (error k i) =
      err (tunnel_parse_error (codes "Parser: " ++ (nom.debug k ++ (codes ", Unparsed: " ++ i))))
  whole_tunnel (failure k i) =
      err (tunnel_parse_error (codes "Parser: " ++ (nom.debug k ++ (codes ", Unparsed: " ++ i))))
  whole_tunnel (done rest t) = ok t

  -- `Tunnel::from_str`
  unfoldable pub tunnel_from_str : (Text → Option F32) → TunnelOptions → Text → Result Tunnel
  unfolding whole_tunnel
  tunnel_from_str parse_f32 default s = whole_tunnel (tunnel nom parse_f32 default s)

-- `SocketSpec::fmt`
abbrev pub socket_spec_to_string : SocketSpec → Text
socket_spec_to_string spec = spec.inner

-- The loop of `Tunnel::fmt`, behind its first round.
unfoldable pub more_remotes : List SocketSpec → Text
more_remotes [] = []
more_remotes (addr ∷ addrs) = b',' ∷ socket_spec_to_string addr ++ more_remotes addrs

unfoldable pub remotes_to_string : List SocketSpec → Text
unfolding more_remotes
remotes_to_string [] = []
remotes_to_string (addr ∷ addrs) = socket_spec_to_string addr ++ more_remotes addrs

-- `Tunnel::fmt`
unfoldable pub tunnel_to_string : Tunnel → Text
unfolding remotes_to_string
tunnel_to_string t = socket_spec_to_string t.local ++ b'=' ∷ remotes_to_string t.remote
