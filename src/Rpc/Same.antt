-- ===== src/Rpc/Same.antt =====
-- src/rpc.rs beside src/controller/protocol.rs: the same change by a method and by a command.
use plexy.Prelude.{◌≡◌, refl, sym, inl, inr, ◌∷◌, ◌++◌, Option, Text, codes}
use plexy.Tunnel.{F32, TunnelOptions}
use plexy.Tunnel.Specs.{socket_spec_from_str}
use plexy.Errors.{Result, ok, err, Result-cases}
use plexy.Maps.{KeyedMap, IndexMap}
use plexy.Nom.{Nom}
use plexy.State.Store.{State, remove_remote_from_tunnel}
use plexy.State.Remote.{RemoteInfo}
use plexy.Control.Request.{line_request}
use plexy.Control.Response.{CommandResponse, from_result}
use plexy.Control.Exec.{Outside, exec}
use plexy.Control.Words.{IsWord}
use plexy.Control.Lines.{close_line, add_line, remove_line, two_sockets-words}
use plexy.Rpc.{close_tunnel, add_remote, remove_remote, stats_of}

abbrev pub answered {ℓ κ} : {S : Type ℓ} {A : Type κ} → S × Result A → S × CommandResponse
answered (s, r) = (s, from_result r)

module _ (nom : Nom) (parse_f32 : Text → Option F32) (default : TunnelOptions)
    (f32_to_string : F32 → Text) (im : IndexMap) (dm : KeyedMap) where
  -- A line of the control protocol, executed.
  abbrev pub exec_line :
      Outside f32_to_string im dm → State im dm → Text → State im dm × CommandResponse
  exec_line o s line = exec f32_to_string im dm o (line_request nom parse_f32 default line) s

  module _ (o : Outside f32_to_string im dm) (s : State im dm) where
    -- CLOSE on a line and the method `closeTunnel` with the same text, valid or not, leave the same
    -- state, and the response is that of the method's result: OK, or SORRY with the same error.
    pub close_tunnel-exec :
        (a : Text) → exec_line o s (codes "CLOSE " ++ a) ≡ answered (close_tunnel nom im dm s a)
    unfolding line_request close_tunnel exec
    close_tunnel-exec a = elim (Result-cases (socket_spec_from_str nom a)) [
      | inl (k, e) ↦ rw (close_line nom parse_f32 default a, e, line_request) refl
      | inr (x, e) ↦ rw (close_line nom parse_f32 default a, e, line_request) refl
    ]

    -- ADD on a line and the method `addRemote` with the same two texts, valid or not, the first one
    -- without a space, leave the same state, and the response is that of the method's result.
    pub add_remote-exec :
        (a b : Text)
        → IsWord a
        → exec_line o s (codes "ADD " ++ (a ++ b' ' ∷ b)) ≡ answered (add_remote nom im dm s a b)
    unfolding line_request add_remote exec
    add_remote-exec a b h = elim (Result-cases (socket_spec_from_str nom a)) [
      | inl (k, e) ↦ elim (Result-cases (socket_spec_from_str nom b)) [
        | inl (r, f) ↦
            rw (add_line nom parse_f32 default a b, two_sockets-words nom a b h, e, f, line_request)
              refl
        | inr (x, f) ↦
            rw (add_line nom parse_f32 default a b, two_sockets-words nom a b h, e, f, line_request)
              refl
      ]
      | inr (x, e) ↦
          rw (add_line nom parse_f32 default a b, two_sockets-words nom a b h, e, line_request) refl
    ]

    stats_of-answered :
        (r : State im dm × Result RemoteInfo) → answered (stats_of nom im dm r) ≡ answered r
    stats_of-answered (t, ok ri) = refl
    stats_of-answered (t, err e) = refl

    -- REMOVE on a line and the method `removeRemote` with the same two texts, valid or not, the first
    -- one without a space, leave the same state, and the response is that of the method's result.
    pub remove_remote-exec :
        (a b : Text)
        → IsWord a
        → exec_line o s (codes "REMOVE " ++ (a ++ b' ' ∷ b))
          ≡ answered (remove_remote nom im dm s a b)
    unfolding line_request remove_remote exec
    remove_remote-exec a b h = elim (Result-cases (socket_spec_from_str nom a)) [
      | inl (k, e) ↦ elim (Result-cases (socket_spec_from_str nom b)) [
        | inl (r, f) ↦
            rw
              (
                remove_line nom parse_f32 default a b,
                two_sockets-words nom a b h,
                e,
                f,
                line_request,
              )
              (sym (stats_of-answered (remove_remote_from_tunnel im dm s k r)))
        | inr (x, f) ↦
            rw
              (
                remove_line nom parse_f32 default a b,
                two_sockets-words nom a b h,
                e,
                f,
                line_request,
              )
              refl
      ]
      | inr (x, e) ↦
          rw (remove_line nom parse_f32 default a b, two_sockets-words nom a b h, e, line_request)
            refl
    ]
