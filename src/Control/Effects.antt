-- ===== src/Control/Effects.antt =====
-- src/controller/protocol.rs: commands that are refused.
use plexy.Prelude.{
  ◌≡◌, refl, ◌∙◌, inl, inr, Bool, true, false, ◌&&◌, not, is_some, Option, Text, Bool-cases,
  Option-cases, ◌==◌,
}
use plexy.Tunnel.{SocketSpec, F32, Tunnel}
use plexy.Errors.{Error, Result, ok, err, Result-cases}
use plexy.Maps.{KeyedMap, IndexMap}
use plexy.State.Info.{WatchSender}
use plexy.State.Store.{
  State, number_of_tunnels, remote_stats, tunnel_exists, remove_tunnel, add_tunnel,
  add_remote_to_tunnel, remove_remote_from_tunnel,
}
use plexy.Proxy.{create_tunnel, stop_tunnel}
use plexy.Control.Request.{
  CommandRequest, opens, closes, status, detail, help, exit, invalid, adds, removes,
}
use plexy.Control.Response.{problem, from_result}
use plexy.Control.Exec.{Outside, start_tunnel, exec_status, exec_detail, exec}

from_result-problem :
    {A : Type 0} (r : Result A) (x : Option Error)
    → from_result r ≡ problem x
    → (e : Error) × (r ≡ err e)
from_result-problem (ok a) x p = cc
from_result-problem (err e) x p = (e, refl)

module _ (im : IndexMap) (dm : KeyedMap) where
  -- A call that fails leaves the state as it was.
  abbrev Refuses : {A : Type 0} → State im dm → State im dm × Result A → Type 0
  Refuses s r = (e : Error) → r.1 ≡ err e → r.0 ≡ s

  add_tunnel-Refuses :
      (s : State im dm) (t : Tunnel) (c : WatchSender) → Refuses s (add_tunnel im dm s t c)
  unfolding add_tunnel
  add_tunnel-Refuses s t c e h = elim (Bool-cases (is_some (dm.get t.local s.tunnels))) [
    | inl x ↦ rw (x, add_tunnel) refl
    | inr x ↦ absurd (let q = rw (x, add_tunnel) at h in cc)
  ]

  remove_tunnel-Refuses : (s : State im dm) (l : SocketSpec) → Refuses s (remove_tunnel im dm s l)
  unfolding remove_tunnel
  remove_tunnel-Refuses s l e h = elim (Option-cases (dm.get l s.tunnels)) [
    | inl x ↦ rw (x, remove_tunnel) refl
    | inr (t, x) ↦ absurd (let q = rw (x, remove_tunnel) at h in cc)
  ]

  add_remote-Refuses :
      (s : State im dm) (l r : SocketSpec) → Refuses s (add_remote_to_tunnel im dm s l r)
  unfolding add_remote_to_tunnel
  add_remote-Refuses s l r e h = elim (Option-cases (dm.get l s.tunnels)) [
    | inl x ↦ rw (x, add_remote_to_tunnel) refl
    | inr (ti, x) ↦
        elim (Bool-cases
          (not (is_some (im.get r ti.remotes)) && not (is_some (im.get r ti.dead_remotes)))) [
            | inl y ↦ absurd (let q = rw (x, y, add_remote_to_tunnel) at h in cc)
            | inr y ↦ rw (x, y, add_remote_to_tunnel) refl
          ]
  ]

  remove_remote-Refuses :
      (s : State im dm) (l r : SocketSpec) → Refuses s (remove_remote_from_tunnel im dm s l r)
  unfolding remove_remote_from_tunnel
  remove_remote-Refuses s l r e h = elim (Option-cases (dm.get l s.tunnels)) [
    | inl x ↦ rw (x, remove_remote_from_tunnel) refl
    | inr (ti, x) ↦ elim (Option-cases (im.get r ti.remotes)) [
      | inr (i, y) ↦ absurd (let q = rw (x, y, remove_remote_from_tunnel) at h in cc)
      | inl y ↦ elim (Option-cases (im.get r ti.dead_remotes)) [
        | inl z ↦ rw (x, y, z, remove_remote_from_tunnel) refl
        | inr (d, z) ↦ absurd (let q = rw (x, y, z, remove_remote_from_tunnel) at h in cc)
      ]
    ]
  ]

  stop_tunnel-Refuses : (s : State im dm) (l : SocketSpec) → Refuses s (stop_tunnel im dm s l)
  unfolding stop_tunnel
  stop_tunnel-Refuses s l e h = elim (Result-cases (remove_tunnel im dm s l).1) [
    | inl (t, x) ↦ absurd (let q = rw (x, stop_tunnel) at h in cc)
    | inr (y, x) ↦ rw (x, stop_tunnel) (remove_tunnel-Refuses s l y x)
  ]

  module _ (f32_to_string : F32 → Text) where
    -- The other tasks do nothing during the command.
    pub record IsQuiet (o : Outside f32_to_string im dm) : Type 0 where
      pub binding : (s : State im dm) → o.binding s ≡ s
      pub between : (s : State im dm) → o.between s ≡ s
      pub between_again : (s : State im dm) → o.between_again s ≡ s

    start_tunnel-Refuses :
        (o : Outside f32_to_string im dm) (s : State im dm) (t : Tunnel)
        → IsQuiet o
        → Refuses s (start_tunnel f32_to_string im dm o s t)
    unfolding start_tunnel create_tunnel
    start_tunnel-Refuses o s t h e p = elim (Bool-cases (tunnel_exists im dm s t.local)) [
      | inl x ↦ rw (x, create_tunnel) refl
      | inr x ↦ elim (Result-cases o.bound) [
        | inl (_, y) ↦
            rw (x, y, create_tunnel)
              (add_tunnel-Refuses (o.binding s) t o.sender e (rw (x, y, create_tunnel) at p)
                ∙ h.binding s)
        | inr (_, y) ↦ rw (x, y, create_tunnel) (h.binding s)
      ]
    ]

    exec_status-same :
        (o : Outside f32_to_string im dm) (long : Bool) (s : State im dm)
        → IsQuiet o
        → (exec_status f32_to_string im dm o long s).0 ≡ s
    unfolding exec_status
    exec_status-same o true s h = elim (Bool-cases (number_of_tunnels im dm s == 0)) [
      | inl x ↦ rw (x, exec_status) refl
      | inr x ↦ rw (x, exec_status) (h.between_again _ ∙ h.between s)
    ]
    exec_status-same o false s h = elim (Bool-cases (number_of_tunnels im dm s == 0)) [
      | inl x ↦ rw (x, exec_status) refl
      | inr x ↦ rw (x, exec_status) (h.between s)
    ]

    exec_detail-same :
        (o : Outside f32_to_string im dm) (l : SocketSpec) (s : State im dm)
        → IsQuiet o
        → (exec_detail f32_to_string im dm o l s).0 ≡ s
    unfolding exec_detail
    exec_detail-same o l s h = elim (Result-cases (remote_stats im dm s l)) [
      | inl (x, e) ↦ rw (e, exec_detail) (h.between s)
      | inr (x, e) ↦ rw (e, exec_detail) refl
    ]

    -- When the other tasks do nothing meanwhile, any command that is answered with a problem leaves
    -- the state as it was.
    pub exec-problem :
        (o : Outside f32_to_string im dm) (cmd : CommandRequest) (s : State im dm)
        (x : Option Error)
        → IsQuiet o
        → (exec f32_to_string im dm o cmd s).1 ≡ problem x
        → (exec f32_to_string im dm o cmd s).0 ≡ s
    unfolding exec
    exec-problem o (opens t) s x h p =
        let (e, q) = from_result-problem _ x p in start_tunnel-Refuses o s t h e q
    exec-problem o (closes l) s x h p =
        let (e, q) = from_result-problem _ x p in stop_tunnel-Refuses s l e q
    exec-problem o (adds l r) s x h p =
        let (e, q) = from_result-problem _ x p in add_remote-Refuses s l r e q
    exec-problem o (removes l r) s x h p =
        let (e, q) = from_result-problem _ x p in remove_remote-Refuses s l r e q
    exec-problem o (status long) s x h p = exec_status-same o long s h
    exec-problem o (detail l) s x h p = exec_detail-same o l s h
    exec-problem o help s x h p = refl
    exec-problem o exit s x h p = refl
    exec-problem o (invalid e) s x h p = refl
