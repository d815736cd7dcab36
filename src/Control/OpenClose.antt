-- ===== src/Control/OpenClose.antt =====
-- src/controller.rs and src/lib.rs: a tunnel opened and closed by lines of a control connection.
use plexy.Prelude.{◌≡◌, refl, ap, ◌∙◌, List, [], ◌∷◌, ◌++◌, Option, none, Text, codes}
use plexy.Tunnel.{SocketSpec, F32, Tunnel, TunnelOptions}
use plexy.Tunnel.Specs.{socket_spec_to_string, tunnel_from_str}
use plexy.Errors.{ok}
use plexy.Maps.{KeyedMap, IndexMap}
use plexy.Nom.{Nom}
use plexy.State.Store.{State}
use plexy.Proxy.{stop_tunnel}
use plexy.Proxy.Tunnels.{created, create_tunnel-stop_tunnel}
use plexy.Control.Request.{opens, closes, line_request}
use plexy.Control.Response.{CommandResponse, response_ok}
use plexy.Control.Exec.{Outside, start_tunnel, exec, respond, control_loop}
use plexy.Control.Session.{Item, loop_ok}
use plexy.Control.Lines.{tunnel_parts, open_line, close_request}

module _ (nom : Nom) (parse_f32 : Text → Option F32) (default : TunnelOptions)
    (f32_to_string : F32 → Text) (im : IndexMap) (dm : KeyedMap)
    (o o' : Outside f32_to_string im dm) (s : State im dm) (a : Text) (t : Tunnel) where
  -- The line that opens the tunnel of a text, then the line that closes its listening address.
  abbrev pub open_then_close : List (Item f32_to_string im dm)
  open_then_close =
      (o, ok (line_request nom parse_f32 default (codes "OPEN " ++ a)))
      ∷ (
        o',
        ok (line_request nom parse_f32 default (codes "CLOSE " ++ socket_spec_to_string t.local)),
      )
      ∷ []

  abbrev pub session : State im dm × List CommandResponse
  session = control_loop f32_to_string im dm open_then_close s

  opened_ok :
      o.waiting s ≡ s
      → o.bound ≡ ok tt
      → (created im dm o.binding o.sender s t).1 ≡ ok tt
      → respond f32_to_string im dm o (ok (opens t)) (o.waiting s)
        ≡ ((created im dm o.binding o.sender s t).0, response_ok)
  unfolding respond exec start_tunnel
  opened_ok w b e = rw (w, b, e) refl

  closed_ok :
      (u : State im dm)
      → o'.waiting u ≡ u
      → (stop_tunnel im dm u t.local).1 ≡ ok o.sender
      → respond f32_to_string im dm o' (ok (closes t.local)) (o'.waiting u)
        ≡ ((stop_tunnel im dm u t.local).0, response_ok)
  unfolding respond exec
  closed_ok u w e = rw (w, e) refl

  -- A text that is accepted as a tunnel, whose listening address is not in use, neither at first nor
  -- when the listener was bound: the line OPEN with that text and the line CLOSE with the printed
  -- address are both answered with OK, and in the end every tunnel is what it was when the listener
  -- was bound, if the listener is bound and the other tasks do nothing else between.
  pub control_loop-OpenClose :
      tunnel_from_str nom parse_f32 default a ≡ ok t
      → dm.get t.local s.tunnels ≡ none
      → dm.get t.local (o.binding s).tunnels ≡ none
      → o.bound ≡ ok tt
      → o.waiting s ≡ s
      → ((u : State im dm) → o'.waiting u ≡ u)
      → (session.1 ≡ response_ok ∷ response_ok ∷ [])
        × ((m : SocketSpec) → dm.get m session.0.tunnels ≡ dm.get m (o.binding s).tunnels)
  unfolding control_loop
  control_loop-OpenClose e absent absent' b w w' =
      let (local, _) = tunnel_parts nom parse_f32 default a t e in
      let (made, _, gone, same) =
        create_tunnel-stop_tunnel im dm o.binding o.sender s t absent absent' in
      let u = (created im dm o.binding o.sender s t).0 in
      let lines : open_then_close ≡ (o, ok (opens t)) ∷ (o', ok (closes t.local)) ∷ [] =
        rw
          (
            open_line nom parse_f32 default a t e,
            close_request nom parse_f32 default (socket_spec_to_string t.local) t.local local,
          )
          refl in
      let first =
        loop_ok f32_to_string im dm o (ok (opens t)) ((o', ok (closes t.local)) ∷ []) s u
          (opened_ok w b made) in
      let second =
        loop_ok f32_to_string im dm o' (ok (closes t.local)) [] u (stop_tunnel im dm u t.local).0
          (closed_ok u (w' u) gone) in
      let whole =
        ap (λ (c : List (Item f32_to_string im dm)). control_loop f32_to_string im dm c s) lines
        ∙ first
        ∙ ap (λ (x : State im dm × List CommandResponse). (x.0, response_ok ∷ x.1)) second in
      (
        ap (λ (x : State im dm × List CommandResponse). x.1) whole,
        λ m. ap (λ (x : State im dm × List CommandResponse). dm.get m x.0.tunnels) whole ∙ same m,
      )
