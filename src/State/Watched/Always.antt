-- ===== src/State/Watched/Always.antt =====
-- src/state.rs: the tasks of the dead remotes in the states of a run.
use plexy.Prelude.{◌≡◌, inl, inr, arith, is_some, Bool-cases}
use plexy.Tunnel.{Tunnel, TunnelOptions}
use plexy.Errors.{Result, ok}
use plexy.Config.{Args}
use plexy.Maps.{KeyedMap, IndexMap}
use plexy.State.Info.{DeadRemote, TunnelInfo, WatchSender, new_tunnel_info}
use plexy.State.Store.{State, ClientConfig, find_task, new_state, add_tunnel, options_or_default}
use plexy.State.Steps.{
  Step, Reach, Runs, adds_tunnel, removes_tunnel, adds_remote, removes_remote, selects,
  connects_client, connects_remote, fails_remote, transfers, disconnects, checks, here, next, runs,
}
use plexy.State.Watched.{AllWatched}
use plexy.State.Watched.Quiet.{
  client_connected-AllWatched, remote_connected-AllWatched, update_transferred-AllWatched,
  client_disconnected-AllWatched, select_remote-AllWatched, add_remote-AllWatched,
}
use plexy.State.Watched.Dead.{
  remote_error-AllWatched, remove_remote-AllWatched, remove_tunnel-AllWatched,
}
use plexy.State.Watched.Checks.{run_check-AllWatched}

module _ (im : IndexMap) (dm : KeyedMap) where
  add_tunnel-AllWatched :
      {s : State im dm} (h : AllWatched im dm s) (t : Tunnel) (c : WatchSender)
      → AllWatched im dm (add_tunnel im dm s t c).0
  unfolding add_tunnel new_tunnel_info
  add_tunnel-AllWatched {s} h t c = elim (Bool-cases (is_some (dm.get t.local s.tunnels))) [
    | inl e ↦ rw (e, add_tunnel) h
    | inr e ↦
        rw (e, add_tunnel)
          (record {
            fresh = h.fresh;
            watched = λ j u p r d q.
                h.watched j u
                  (ground (
                    arith,
                    dm.get-insert t.local j
                        (new_tunnel_info im c t.remote (options_or_default im dm s t.options))
                        s.tunnels,
                    im.get-empty {V = DeadRemote} r,
                  ))
                  r d q;
          })
  ]

  Step-AllWatched : {s u : State im dm} → Step im dm s u → AllWatched im dm s → AllWatched im dm u
  Step-AllWatched (adds_tunnel t c) h = add_tunnel-AllWatched h t c
  Step-AllWatched (removes_tunnel l) h = remove_tunnel-AllWatched im dm h l
  Step-AllWatched (adds_remote l r) h = add_remote-AllWatched im dm h l r
  Step-AllWatched (removes_remote l r) h = remove_remote-AllWatched im dm h l r
  Step-AllWatched (selects g l) h = select_remote-AllWatched im dm h g l
  Step-AllWatched (connects_client l) h = client_connected-AllWatched im dm h l
  Step-AllWatched (connects_remote l r) h = remote_connected-AllWatched im dm h l r
  Step-AllWatched (fails_remote now l r a o) h = remote_error-AllWatched im dm h now l r a o
  Step-AllWatched (transfers l r b n) h = update_transferred-AllWatched im dm h l r b n
  Step-AllWatched (disconnects l r) h = client_disconnected-AllWatched im dm h l r
  Step-AllWatched (checks now k t c e) h = run_check-AllWatched im dm h k t e now c

  Reach-AllWatched : {s u : State im dm} → AllWatched im dm s → Reach im dm s u → AllWatched im dm u
  Reach-AllWatched h here = h
  Reach-AllWatched h (next r st) = Step-AllWatched st (Reach-AllWatched h r)

  new_state-AllWatched :
      (create : Args → Result ClientConfig) (o : TunnelOptions) (args : Args) (s : State im dm)
      → new_state im dm create o args ≡ ok s
      → AllWatched im dm s
  unfolding new_state find_task
  new_state-AllWatched create o args s e = record {
    fresh = λ k le. ground arith;
    watched = λ l ti p. absurd (ground (arith, dm.get-empty {V = TunnelInfo im} l));
  }

  -- In every state of a run each dead remote of an open tunnel holds the handle of a task that still
  -- runs, and that task checks this remote of this tunnel; no running task has a handle that is still
  -- to be given out.
  pub Runs-AllWatched : {s : State im dm} → Runs im dm s → AllWatched im dm s
  Runs-AllWatched (runs create o args start e r) =
      Reach-AllWatched (new_state-AllWatched create o args start e) r
