-- ===== src/State/Separate/Dead.antt =====
-- Live and dead remotes (src/state.rs): failing remotes and the checks of dead ones.
use plexy.Prelude.{ℕ, inl, inr, Bool, true, false, some, Option-cases, Bool-cases}
use plexy.Tunnel.{SocketSpec, SocketAddr, TunnelRemoteOptions}
use plexy.Maps.{KeyedMap, IndexMap}
use plexy.State.Remote
use plexy.State.Remote.{RemoteInfo}
use plexy.State.Info
use plexy.State.Info.{TunnelInfo, DeadRemote, WatchSender, JoinHandle, new_tunnel_info}
use plexy.State.Store.{State, CheckTask}
use plexy.State.Dead.{is_dead, bury, remote_error, recover, still_dead, run_check}
use plexy.State.Separate.{
  IsSeparate, AllSeparate, write-AllSeparate, modify_live, modify_dead, move_to_dead, move_to_live,
}

module _ (im : IndexMap) (dm : KeyedMap) where
  module _ {s : State im dm} (h : AllSeparate im dm s) where
    pub bury-AllSeparate :
        (l r : SocketSpec) (o : TunnelRemoteOptions) (ti : TunnelInfo im)
        → IsSeparate im ti.remotes ti.dead_remotes
        → AllSeparate im dm (bury im dm s l r o ti)
    unfolding bury
    bury-AllSeparate l r o ti p = elim (Option-cases (im.get r ti.remotes)) [
      | inl e ↦ rw (e, bury) (write-AllSeparate im dm h l ti p)
      | inr (rec, e) ↦
          rw (e, bury) (write-AllSeparate im dm (record { at = h.at }) l _ (move_to_dead im p r _))
    ]

    pub remote_error-AllSeparate :
        (now : ℕ) (l r : SocketSpec) (a : SocketAddr) (o : TunnelRemoteOptions)
        → AllSeparate im dm (remote_error im dm s now l r a o)
    unfolding remote_error Info.remote_error
    remote_error-AllSeparate now l r a o = elim (Option-cases (dm.get l s.tunnels)) [
      | inl e ↦ rw (e, remote_error) h
      | inr (ti, e) ↦ elim (Option-cases (im.get r ti.remotes)) [
        | inl e' ↦ rw (e, e', remote_error) (write-AllSeparate im dm h l _ (h.at l ti e))
        | inr (rec, e') ↦
            let p = modify_live im (h.at l ti e) r (Remote.error now (some a)) in
            elim (Bool-cases (is_dead im dm now a o rec)) [
              | inl b ↦ rw (e, e', b, remote_error) (bury-AllSeparate l r o _ p)
              | inr b ↦ rw (e, e', b, remote_error) (write-AllSeparate im dm h l _ p)
            ]
      ]
    ]

    pub recover-AllSeparate : (l r : SocketSpec) → AllSeparate im dm (recover im dm s l r)
    unfolding recover
    recover-AllSeparate l r = elim (Option-cases (dm.get l s.tunnels)) [
      | inl e ↦ rw (e, recover) h
      | inr (ti, e) ↦ elim (Option-cases (im.get r ti.dead_remotes)) [
        | inl e' ↦ rw (e, e', recover) h
        | inr (d, e') ↦
            rw (e, e', recover) (write-AllSeparate im dm h l _ (move_to_live im (h.at l ti e) r _))
      ]
    ]

    pub still_dead-AllSeparate :
        (now : ℕ) (t : CheckTask) → AllSeparate im dm (still_dead im dm s now t)
    unfolding still_dead Info.remote_error
    still_dead-AllSeparate now t = elim (Option-cases (dm.get t.local s.tunnels)) [
      | inl e ↦ rw (e, still_dead) h
      | inr (ti, e) ↦ elim (Option-cases (im.get t.remote ti.dead_remotes)) [
        | inl e' ↦ rw (e, e', still_dead) (write-AllSeparate im dm h t.local _ (h.at t.local ti e))
        | inr (d, e') ↦
            rw (e, e', still_dead)
              (write-AllSeparate im dm (record { at = h.at }) t.local _
                (modify_dead im (h.at t.local ti e) t.remote _))
      ]
    ]

  pub run_check-AllSeparate :
      {s : State im dm} (h : AllSeparate im dm s) (now : ℕ) (t : CheckTask) (c : Bool)
      → AllSeparate im dm (run_check im dm s now t c)
  unfolding run_check
  run_check-AllSeparate h now t true = recover-AllSeparate (record { at = h.at }) t.local t.remote
  run_check-AllSeparate h now t false = still_dead-AllSeparate (record { at = h.at }) now t
