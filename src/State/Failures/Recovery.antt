-- ===== src/State/Failures/Recovery.antt =====
-- src/state.rs, the task of `check_dead`: its two ends.
use plexy.Prelude.{
  ℕ, suc, ◌≡◌, refl, ◌∙◌, true, false, [], ◌∷◌, ◌++◌, none, some, arith, add64, option_map,
}
use plexy.Maps.{KeyedMap, IndexMap}
use plexy.State.Remote
use plexy.State.Remote.{RemoteInfo}
use plexy.State.Info
use plexy.State.Info.{TunnelInfo, DeadRemote}
use plexy.State.Store.{State, CheckTask, write, abort}
use plexy.State.View.{live_remote, dead_remote}
use plexy.State.Dead.{run_check, recover, still_dead, check_dead, requeue}
use plexy.State.Failures.{with_error, tunnel_errors, errors-write, live-write_same, dead-write_same}

module _ (im : IndexMap) (dm : KeyedMap) where
  -- The remote `r` of the tunnel `l` left the dead remotes for the live ones with no errors in a row,
  -- and nothing else of its statistics changed. No task but the one that ran is gone.
  pub record IsRecovered (s : State im dm) (t : CheckTask) (d : DeadRemote) (u : State im dm)
      : Type 0 where
    pub not_dead : dead_remote im dm u t.local t.remote ≡ none
    pub recovered : RemoteInfo
    pub live : live_remote im dm u t.local t.remote ≡ some recovered
    pub stats : recovered.stats ≡ record d.remote.stats { num_errors = 0 }
    pub tasks : u.tasks ≡ abort t.handle s.tasks

  -- The remote stays dead with the error counted, and a task like the one that ran takes its place,
  -- under the handle that the remote now holds. The tunnel counts one error more.
  pub record IsRequeued (s : State im dm) (now : ℕ) (t : CheckTask) (d : DeadRemote)
      (u : State im dm) : Type 0 where
    pub failed : RemoteInfo
    pub stats : failed.stats ≡ with_error now d.remote.stats
    pub dead :
        dead_remote im dm u t.local t.remote
        ≡ some (record { remote = failed; join_handle = some s.next_handle })
    pub same_live : live_remote im dm u t.local t.remote ≡ live_remote im dm s t.local t.remote
    pub tasks : u.tasks ≡ abort t.handle s.tasks ++ record t { handle = s.next_handle } ∷ []
    pub errors :
        tunnel_errors im dm u t.local
        ≡ option_map (λ (n : ℕ). add64 n 1) (tunnel_errors im dm s t.local)

  module _ (s : State im dm) (now : ℕ) (t : CheckTask) (ti : TunnelInfo im) (d : DeadRemote)
      (open_tunnel : dm.get t.local s.tunnels ≡ some ti)
      (dead_before : im.get t.remote ti.dead_remotes ≡ some d) where
    abbrev ended : State im dm
    ended = record s { tasks = abort t.handle s.tasks }

    abbrev recovered_tunnel : TunnelInfo im
    recovered_tunnel = record ti {
      dead_remotes = im.remove t.remote ti.dead_remotes;
      remotes = im.insert t.remote (Remote.remote_recovered d.remote) ti.remotes;
    }

    abbrev requeued_tunnel : TunnelInfo im
    requeued_tunnel = record (Info.remote_error im ti) {
      dead_remotes = im.modify t.remote (requeue now s.next_handle) ti.dead_remotes;
    }

    abbrev with_task : State im dm
    with_task = record s {
      tasks = abort t.handle s.tasks ++ record t { handle = s.next_handle } ∷ [];
      next_handle = suc s.next_handle;
    }

    check-connected : run_check im dm s now t true ≡ write im dm t.local recovered_tunnel ended
    unfolding run_check recover
    check-connected = rw (open_tunnel, recover) (rw dead_before refl)

    check-failed : run_check im dm s now t false ≡ write im dm t.local requeued_tunnel with_task
    unfolding run_check still_dead check_dead Info.remote_error
    check-failed = rw (open_tunnel, still_dead) (rw dead_before refl)

    requeued_live : im.get t.remote requeued_tunnel.remotes ≡ live_remote im dm s t.local t.remote
    unfolding Info.remote_error
    requeued_live = rw (open_tunnel, live_remote) refl

    -- A check of a dead remote whose connection is made makes it live again, with no errors in a row
    -- and its statistics else unchanged. One whose connection is not made adds one, modulo 2^64, to
    -- its total errors, to its errors in a row and to the tunnel's errors and notes the time; the
    -- remote stays dead, and a task like the one that ran takes its place.
    pub run_check-outcome :
        IsRecovered s t d (run_check im dm s now t true)
        × IsRequeued s now t d (run_check im dm s now t false)
    unfolding Remote.error Info.remote_error
    run_check-outcome = (
      rw check-connected (record {
        not_dead =
            dead-write_same im dm ended t.local recovered_tunnel ti t.remote open_tunnel
            ∙ ground (arith, im.get-remove t.remote t.remote ti.dead_remotes);
        recovered = Remote.remote_recovered d.remote;
        live =
            live-write_same im dm ended t.local recovered_tunnel ti t.remote open_tunnel
            ∙ ground (
              arith,
              im.get-insert t.remote t.remote (Remote.remote_recovered d.remote) ti.remotes,
            );
        stats = unfold Remote.remote_recovered in refl;
        tasks = unfold write in refl;
      }),
      rw check-failed (record {
        failed = Remote.error now none d.remote;
        stats = refl;
        errors = errors-write im dm with_task t.local requeued_tunnel ti open_tunnel refl;
        dead =
            dead-write_same im dm with_task t.local requeued_tunnel ti t.remote open_tunnel
            ∙ ground (
              arith,
              im.get-modify t.remote t.remote (requeue now s.next_handle) ti.dead_remotes,
            );
        same_live =
            live-write_same im dm with_task t.local requeued_tunnel ti t.remote open_tunnel
            ∙ requeued_live;
        tasks = unfold write in refl;
      }),
    )
