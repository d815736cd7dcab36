-- ===== src/State/Watched/Dead.antt =====
-- src/state.rs: spawned tasks, buried remotes and removals, and the tasks of the dead remotes.
use plexy.Prelude.{
  ℕ, ◌≡◌, refl, subst, sym, inl, inr, ◌∷◌, ◌++◌, List, ◌≢◌, [], Option, some, arith, Option-cases,
  Bool-cases,
}
use plexy.Tunnel.{SocketSpec, SocketSpec-discrete, SocketAddr, TunnelRemoteOptions, F32}
use plexy.Maps.{KeyedMap, IndexMap}
use plexy.State.Info
use plexy.State.Info.{TunnelInfo, DeadRemote}
use plexy.State.Store.{
  State, CheckTask, ClientConfig, write, remove_tunnel, remove_remote_from_tunnel,
}
use plexy.State.Dead.{new_task, check_dead, is_dead, bury, remote_error}
use plexy.State.Watched.{
  IsWatchedBy, AllWatched, IsFresh, OthersWatched, write_watched, write-AllWatched,
}
use plexy.State.Watched.Tasks.{
  find_task-append, find_task-append_self, find_task-append_other, find_task-abort_all-none,
  find_task-abort_all,
}

watch_append :
    {ts : List CheckTask} {l r : SocketSpec} {d : DeadRemote} (w : IsWatchedBy ts l r d)
    (u : CheckTask)
    → IsWatchedBy (ts ++ u ∷ []) l r d
watch_append {ts} w u = record {
  handle = w.handle;
  task = w.task;
  held = w.held;
  running = find_task-append w.handle ts u w.running;
  same_local = w.same_local;
  same_remote = w.same_remote;
}

-- Two dead remotes watched by one task are the same remote of the same tunnel.
pub same_watcher :
    {ts : List CheckTask} {l k j r : SocketSpec} {x d : DeadRemote} (v : IsWatchedBy ts l k x)
    (w : IsWatchedBy ts j r d)
    → x.join_handle ≡ some w.handle
    → (l ≡ j) × (k ≡ r)
same_watcher v w e = ground arith

module _ (im : IndexMap) (dm : KeyedMap) where
  module _ (s : State im dm) (fresh : IsFresh im dm s) (l r : SocketSpec) (timeout after : F32)
      (tls : Option ClientConfig) where
    -- The new task watches whatever holds its handle.
    spawn-IsWatchedBy :
        (d : DeadRemote)
        → d.join_handle ≡ some s.next_handle
        → IsWatchedBy (check_dead im dm s l r timeout after tls).0.tasks l r d
    unfolding check_dead
    spawn-IsWatchedBy d e = record {
      handle = s.next_handle;
      task = new_task im dm s l r timeout after tls;
      held = e;
      running =
          find_task-append_self s.next_handle s.tasks (new_task im dm s l r timeout after tls)
            (fresh s.next_handle (omega arith)) refl;
      same_local = refl;
      same_remote = refl;
    }

    -- A tunnel whose dead remote `r` got the new handle, written after the spawn.
    pub spawn_for :
        (ti : TunnelInfo im)
        → OthersWatched im dm s l
        → ((d : DeadRemote)
            → im.get r ti.dead_remotes ≡ some d
            → d.join_handle ≡ some s.next_handle)
        → ((k : SocketSpec) (d : DeadRemote)
            → r ≢ k
            → im.get k ti.dead_remotes ≡ some d
            → IsWatchedBy s.tasks l k d)
        → AllWatched im dm (write im dm l ti (check_dead im dm s l r timeout after tls).0)
    unfolding check_dead
    spawn_for ti others new old =
        write_watched im dm (check_dead im dm s l r timeout after tls).0 l ti
          (λ k le.
            find_task-append_other k s.tasks (new_task im dm s l r timeout after tls)
              (fresh k (omega arith)) (omega arith))
          (λ j u ne e k d p. watch_append (others j u ne e k d p) _)
          λ k d p. elim (SocketSpec-discrete r k) [
            | yes q ↦
                let p' = subst (λ x. im.get x ti.dead_remotes ≡ some d) (sym q) p in
                subst (λ x. IsWatchedBy (check_dead im dm s l r timeout after tls).0.tasks l x d) q
                  (spawn-IsWatchedBy d (new d p'))
            | no q ↦ watch_append (old k d q p) _
          ]

  module _ {s : State im dm} (h : AllWatched im dm s) where
    pub bury-AllWatched :
        (l r : SocketSpec) (o : TunnelRemoteOptions) (ti : TunnelInfo im)
        → ((k : SocketSpec) (d : DeadRemote)
            → im.get k ti.dead_remotes ≡ some d
            → IsWatchedBy s.tasks l k d)
        → AllWatched im dm (bury im dm s l r o ti)
    unfolding bury
    bury-AllWatched l r o ti w = elim (Option-cases (im.get r ti.remotes)) [
      | inl e ↦ rw (e, bury) (write-AllWatched im dm h l ti w)
      | inr (rec, e) ↦
          let d : DeadRemote = record { remote = rec; join_handle = some s.next_handle } in
          rw (e, bury)
            (spawn_for s h.fresh l r _ _ _ _ (λ j u _. h.watched j u)
              (λ x p. ground (arith, im.get-insert r r d ti.dead_remotes))
              (λ k x q p. w k x (ground (arith, im.get-insert r k d ti.dead_remotes))))
    ]

    pub remote_error-AllWatched :
        (now : ℕ) (l r : SocketSpec) (a : SocketAddr) (o : TunnelRemoteOptions)
        → AllWatched im dm (remote_error im dm s now l r a o)
    unfolding remote_error Info.remote_error
    remote_error-AllWatched now l r a o = elim (Option-cases (dm.get l s.tunnels)) [
      | inl e ↦ rw (e, remote_error) h
      | inr (ti, e) ↦ elim (Option-cases (im.get r ti.remotes)) [
        | inl e' ↦ rw (e, e', remote_error) (write-AllWatched im dm h l _ (h.watched l ti e))
        | inr (rec, e') ↦ elim (Bool-cases (is_dead im dm now a o rec)) [
          | inl b ↦ rw (e, e', b, remote_error) (bury-AllWatched l r o _ (h.watched l ti e))
          | inr b ↦ rw (e, e', b, remote_error) (write-AllWatched im dm h l _ (h.watched l ti e))
        ]
      ]
    ]

    pub remove_remote-AllWatched :
        (l r : SocketSpec) → AllWatched im dm (remove_remote_from_tunnel im dm s l r).0
    unfolding remove_remote_from_tunnel
    remove_remote-AllWatched l r = elim (Option-cases (dm.get l s.tunnels)) [
      | inl e ↦ rw (e, remove_remote_from_tunnel) h
      | inr (ti, e) ↦ elim (Option-cases (im.get r ti.remotes)) [
        | inr (_, live) ↦
            rw (e, live, remove_remote_from_tunnel)
              (write-AllWatched im dm h l _ (h.watched l ti e))
        | inl live ↦ elim (Option-cases (im.get r ti.dead_remotes)) [
          | inr (_, dead) ↦
              rw (e, live, dead, remove_remote_from_tunnel)
                (write-AllWatched im dm h l _
                  λ k d p. h.watched l ti e k d (ground (arith, im.get-remove r k ti.dead_remotes)))
          | inl dead ↦ rw (e, live, dead, remove_remote_from_tunnel) h
        ]
      ]
    ]

    -- The tasks of one tunnel's dead remotes watch no other tunnel's.
    pub remove_tunnel-AllWatched : (l : SocketSpec) → AllWatched im dm (remove_tunnel im dm s l).0
    unfolding remove_tunnel
    remove_tunnel-AllWatched l = elim (Option-cases (dm.get l s.tunnels)) [
      | inl e ↦ rw (e, remove_tunnel) h
      | inr (t, e) ↦
          rw (e, remove_tunnel)
            (record {
              fresh = λ k le.
                  find_task-abort_all-none k (im.entries t.dead_remotes) s.tasks (h.fresh k le);
              watched = λ j u e' r d p.
                  let ne : l ≢ j = λ q. ground (arith, dm.get-remove l j s.tunnels) in
                  let w = h.watched j u (ground (arith, dm.get-remove l j s.tunnels)) r d p in
                  record {
                    handle = w.handle;
                    task = w.task;
                    held = w.held;
                    running =
                        find_task-abort_all w.handle (im.entries t.dead_remotes) s.tasks
                          (λ i k x at held.
                            let v = h.watched l t e k x (im.entries-get t.dead_remotes i k x at) in
                            ne (same_watcher v w held).0)
                          w.running;
                    same_local = w.same_local;
                    same_remote = w.same_remote;
                  };
            })
    ]
