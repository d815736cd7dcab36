-- ===== src/Control/Lines.antt =====
-- src/controller/protocol.rs: lines that start with a command word.
use plexy.Prelude.{
  ◌≡◌, refl, sym, List, ◌∷◌, ◌++◌, Option, some, Text, codes, text_eq, to_ascii_uppercase, to_upper,
  subst,
}
use plexy.Tunnel.{SocketSpec, F32, Tunnel, TunnelOptions}
use plexy.Tunnel.Specs.{socket_spec_from_str, socket_spec_to_string, tunnel_from_str}
use plexy.Tunnel.RoundTrip.{from_str-inner}
use plexy.Tunnel.Remotes.{Parsed}
use plexy.Tunnel.Whole.{tunnel_from_str-read, tunnel-Parsed}
use plexy.Errors.{ok, ◌>>=◌}
use plexy.Nom.{Nom}
use plexy.Nom.Listed.{Every}
use plexy.Control.Request.{
  opens, closes, adds, removes, splitn2, command_request, two_sockets, request_from_str,
  line_request,
}
use plexy.Control.Words.{IsWord, splitn2-append}

module _ (nom : Nom) where
  pub two_sockets-words :
      (a b : Text)
      → IsWord a
      → two_sockets nom (some (a ++ b' ' ∷ b))
        ≡ (socket_spec_from_str nom a >>= λ k. socket_spec_from_str nom b >>= λ r. ok (k, r))
  unfolding two_sockets
  two_sockets-words a b h = rw (splitn2-append a b h) refl

  module _ (parse_f32 : Text → Option F32) (default : TunnelOptions) where
    pub close_line :
        (a : Text)
        → request_from_str nom parse_f32 default (codes "CLOSE " ++ a)
          ≡ (socket_spec_from_str nom a >>= λ k. ok (closes k))
    unfolding request_from_str command_request splitn2 text_eq to_ascii_uppercase to_upper
    close_line a = refl

    pub add_line :
        (a b : Text)
        → request_from_str nom parse_f32 default (codes "ADD " ++ (a ++ b' ' ∷ b))
          ≡ (two_sockets nom (some (a ++ b' ' ∷ b)) >>= λ p. ok (adds p.0 p.1))
    unfolding request_from_str command_request splitn2 text_eq to_ascii_uppercase to_upper
    add_line a b = refl

    pub remove_line :
        (a b : Text)
        → request_from_str nom parse_f32 default (codes "REMOVE " ++ (a ++ b' ' ∷ b))
          ≡ (two_sockets nom (some (a ++ b' ' ∷ b)) >>= λ p. ok (removes p.0 p.1))
    unfolding request_from_str command_request splitn2 text_eq to_ascii_uppercase to_upper
    remove_line a b = refl

    pub tunnel_parts :
        (a : Text) (t : Tunnel)
        → tunnel_from_str nom parse_f32 default a ≡ ok t
        → (socket_spec_from_str nom (socket_spec_to_string t.local) ≡ ok t.local)
          × Every (Parsed nom) t.remote
    tunnel_parts a t e =
        let (r, x) = tunnel_from_str-read nom parse_f32 default a t e in
        let (local, others) = tunnel-Parsed nom parse_f32 default a r t x in
        let (i, l, p) = local in
        let (y, ys, q, py, pys) = others in
        (
          from_str-inner nom i l t.local p,
          subst (λ (ks : List SocketSpec). Every (Parsed nom) ks) (sym q) (py, pys),
        )

    pub open_line :
        (a : Text) (t : Tunnel)
        → tunnel_from_str nom parse_f32 default a ≡ ok t
        → line_request nom parse_f32 default (codes "OPEN " ++ a) ≡ opens t
    unfolding line_request request_from_str command_request splitn2 text_eq to_ascii_uppercase
        to_upper
    open_line a t e = rw (e, line_request) refl

    pub close_request :
        (a : Text) (k : SocketSpec)
        → socket_spec_from_str nom a ≡ ok k
        → line_request nom parse_f32 default (codes "CLOSE " ++ a) ≡ closes k
    unfolding line_request
    close_request a k e = rw (close_line a, e, line_request) refl
