-- ===== src/State/Watched/Checks.antt =====
-- src/state.rs: a check that ends, and the tasks of the dead remotes.
use plexy.Prelude.{
  ℕ, ◌≡◌, subst, sym, ◌⊎◌, inl, inr, ◌≢◌, Bool, true, false, none, some, arith, Option-cases,
  ℕ_discrete,
}
use plexy.Tunnel.{SocketSpec, SocketSpec-discrete}
use plexy.Maps.{KeyedMap, IndexMap}
use plexy.State.Info
use plexy.State.Info.{TunnelInfo, DeadRemote}
use plexy.State.Store.{State, CheckTask, find_task, abort}
use plexy.State.Dead.{requeue, recover, still_dead, run_check}
use plexy.State.Watched.{IsWatchedBy, AllWatched, IsFresh, OthersWatched, write_watched}
use plexy.State.Watched.Tasks.{find_task-abort, handle-find_task, find_task-abort-none}
use plexy.State.Watched.Dead.{spawn_for}

module _ (im : IndexMap) (dm : KeyedMap) {s : State im dm} (h : AllWatched im dm s) (hd : ℕ)
    (t : CheckTask) (found : find_task hd s.tasks ≡ some t) where
  -- The state that the task, no longer running, goes on with.
  abbrev ended : State im dm
  ended = record s { tasks = abort t.handle s.tasks }

  ended-IsFresh : IsFresh im dm ended
  ended-IsFresh k le = find_task-abort-none k t.handle s.tasks (h.fresh k le)

  -- It watched nothing but its own remote.
  own_or_watched :
      {j r : SocketSpec} {d : DeadRemote} (w : IsWatchedBy s.tasks j r d)
      → ((t.local ≡ j) × (t.remote ≡ r)) ⊎ IsWatchedBy ended.tasks j r d
  own_or_watched w = elim (ℕ_discrete w.handle t.handle) [
    | yes q ↦
        inl (
          ground (arith, handle-find_task hd s.tasks found, w.running, w.same_local, w.same_remote))
    | no q ↦ inr (record {
      handle = w.handle;
      task = w.task;
      held = w.held;
      running = ground (arith, find_task-abort w.handle t.handle s.tasks, w.running);
      same_local = w.same_local;
      same_remote = w.same_remote;
    })
  ]

  ended-others : OthersWatched im dm ended t.local
  ended-others j u ne e r d p = elim (own_or_watched (h.watched j u e r d p)) [
    | inl own ↦ absurd (ne own.0)
    | inr w ↦ w
  ]

  ended-same_tunnel :
      (u : TunnelInfo im)
      → dm.get t.local s.tunnels ≡ some u
      → (r : SocketSpec) (d : DeadRemote) → t.remote ≢ r
      → im.get r u.dead_remotes ≡ some d
      → IsWatchedBy ended.tasks t.local r d
  ended-same_tunnel u e r d ne p = elim (own_or_watched (h.watched t.local u e r d p)) [
    | inl own ↦ absurd (ne own.1)
    | inr w ↦ w
  ]

  -- A task whose remote is not dead leaves nothing unwatched.
  ended-AllWatched :
      ((u : TunnelInfo im)
        → dm.get t.local s.tunnels ≡ some u
        → im.get t.remote u.dead_remotes ≡ none)
      → AllWatched im dm ended
  ended-AllWatched gone = record {
    fresh = ended-IsFresh;
    watched = λ j u e r d p. elim (own_or_watched (h.watched j u e r d p)) [
      | inl own ↦
          let a = subst (λ x. dm.get x s.tunnels ≡ some u) (sym own.0) e in
          let b = subst (λ x. im.get x u.dead_remotes ≡ some d) (sym own.1) p in cc (gone u a)
      | inr w ↦ w
    ];
  }

  recover-AllWatched : AllWatched im dm (recover im dm ended t.local t.remote)
  unfolding recover
  recover-AllWatched = elim (Option-cases (dm.get t.local s.tunnels)) [
    | inl e ↦ rw (e, recover) (ended-AllWatched (λ u e'. ground arith))
    | inr (ti, e) ↦ elim (Option-cases (im.get t.remote ti.dead_remotes)) [
      | inl e' ↦ rw (e, e', recover) (ended-AllWatched (λ u p. ground arith))
      | inr (d, e') ↦
          rw (e, e', recover)
            (write_watched im dm ended t.local _ ended-IsFresh ended-others λ r x p.
              elim (SocketSpec-discrete t.remote r) [
                | yes q ↦ ground (arith, im.get-remove t.remote r ti.dead_remotes)
                | no q ↦
                    ended-same_tunnel ti e r x q
                      (ground (arith, im.get-remove t.remote r ti.dead_remotes))
              ])
    ]
  ]

  still_dead-AllWatched : (now : ℕ) → AllWatched im dm (still_dead im dm ended now t)
  unfolding still_dead Info.remote_error
  still_dead-AllWatched now = elim (Option-cases (dm.get t.local s.tunnels)) [
    | inl e ↦ rw (e, still_dead) (ended-AllWatched (λ u e'. ground arith))
    | inr (ti, e) ↦ elim (Option-cases (im.get t.remote ti.dead_remotes)) [
      | inl e' ↦
          rw (e, e', still_dead)
            (write_watched im dm ended t.local _ ended-IsFresh ended-others
              λ r x p. ended-same_tunnel ti e r x (λ q. ground arith) p)
      | inr (d, e') ↦
          rw (e, e', still_dead)
            (spawn_for im dm ended ended-IsFresh t.local t.remote t.timeout t.after t.tls_config _
              ended-others
              (λ x p. ground (
                arith,
                im.get-modify t.remote t.remote (requeue now s.next_handle) ti.dead_remotes,
              ))
              (λ k x q p. ended-same_tunnel ti e k x q (
                ground
                  (arith, im.get-modify t.remote k (requeue now s.next_handle) ti.dead_remotes))))
    ]
  ]

  pub run_check-AllWatched :
      (now : ℕ) (connected : Bool) → AllWatched im dm (run_check im dm s now t connected)
  unfolding run_check
  run_check-AllWatched now true = recover-AllWatched
  run_check-AllWatched now false = still_dead-AllWatched now
