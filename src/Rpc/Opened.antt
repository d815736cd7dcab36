-- ===== src/Rpc/Opened.antt =====
-- src/rpc.rs beside src/controller/protocol.rs: a tunnel opened by a method and by a command.
use plexy.Prelude.{◌≡◌, refl, List, [], ◌∷◌, ◌++◌, Option, Text, codes, map}
use plexy.Tunnel.{SocketSpec, F32, Tunnel, TunnelOptions}
use plexy.Tunnel.Specs.{socket_spec_to_string, tunnel_from_str}
use plexy.Tunnel.RoundTrip.{from_str-inner}
use plexy.Tunnel.Remotes.{Parsed}
use plexy.Errors.{ok}
use plexy.Maps.{KeyedMap, IndexMap}
use plexy.Nom.{Nom}
use plexy.Nom.Listed.{Every}
use plexy.State.Store.{State}
use plexy.Control.Exec.{Outside, exec, start_tunnel}
use plexy.Rpc.{open_tunnel, parse_remotes}
use plexy.Control.Lines.{tunnel_parts, open_line}
use plexy.Rpc.Same.{exec_line, answered}

module _ (nom : Nom) where
  parse_remotes-Parsed :
      (im : IndexMap) (dm : KeyedMap) (ks : List SocketSpec)
      → Every (Parsed nom) ks
      → parse_remotes nom im dm (map socket_spec_to_string ks) ≡ ok ks
  unfolding parse_remotes
  parse_remotes-Parsed im dm [] h = refl
  parse_remotes-Parsed im dm (k ∷ ks) ((i, r, e), h) =
      rw (from_str-inner nom i r k e, parse_remotes-Parsed im dm ks h) refl

  module _ (parse_f32 : Text → Option F32) (default : TunnelOptions) where
    module _ (f32_to_string : F32 → Text) (im : IndexMap) (dm : KeyedMap)
        (o : Outside f32_to_string im dm) (s : State im dm) where
      -- OPEN on a line with a text that is accepted as a tunnel, and the method `openTunnel` with the
      -- printed parts of that tunnel and its options, leave the same state, and the response is that
      -- of the method's result, whatever the start of the tunnel meets.
      pub open_tunnel-exec :
          (a : Text) (t : Tunnel)
          → tunnel_from_str nom parse_f32 default a ≡ ok t
          → exec_line nom parse_f32 default f32_to_string im dm o s (codes "OPEN " ++ a)
            ≡ answered (
                open_tunnel nom im dm
                  (start_tunnel f32_to_string im dm o)
                  s
                  (socket_spec_to_string t.local)
                  (map socket_spec_to_string t.remote)
                  t.options)
      unfolding exec open_tunnel
      open_tunnel-exec a t e =
          let (local, others) = tunnel_parts nom parse_f32 default a t e in
          rw
            (
              open_line nom parse_f32 default a t e,
              local,
              parse_remotes-Parsed im dm t.remote others,
            )
            refl
