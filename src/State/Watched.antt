-- ===== src/State/Watched.antt =====
-- src/state.rs: the handles of dead remotes beside the tasks that run.
pub mod Tasks
pub mod Quiet
pub mod Dead
pub mod Checks
pub mod Always
use plexy.Prelude.{◌≤◌, ◌≡◌, ◌≢◌, ℕ, List, Option, none, some, arith, subst, sym}
use plexy.Tunnel.{SocketSpec, SocketSpec-discrete}
use plexy.Maps.{KeyedMap, IndexMap}
use plexy.State.Info.{TunnelInfo, DeadRemote}
use plexy.State.Store.{State, CheckTask, find_task, write}

-- `d`, as the dead remote `r` of the tunnel `l`, is watched by a task among `tasks`.
pub record IsWatchedBy (tasks : List CheckTask) (l r : SocketSpec) (d : DeadRemote) : Type 0 where
  pub handle : ℕ
  pub task : CheckTask
  pub held : d.join_handle ≡ some handle
  pub running : find_task handle tasks ≡ some task
  pub same_local : task.local ≡ l
  pub same_remote : task.remote ≡ r

module _ (im : IndexMap) (dm : KeyedMap) where
  pub record AllWatched (s : State im dm) : Type 0 where
    pub fresh : (h : ℕ) → s.next_handle ≤ h → find_task h s.tasks ≡ none
    pub watched :
        (l : SocketSpec) (ti : TunnelInfo im)
        → dm.get l s.tunnels ≡ some ti
        → (r : SocketSpec) (d : DeadRemote) → im.get r ti.dead_remotes ≡ some d
        → IsWatchedBy s.tasks l r d

  abbrev pub IsFresh : State im dm → Type 0
  IsFresh s = (h : ℕ) → s.next_handle ≤ h → find_task h s.tasks ≡ none

  -- The dead remotes of the other tunnels are watched.
  abbrev pub OthersWatched : State im dm → SocketSpec → Type 0
  OthersWatched s l =
      (j : SocketSpec) (u : TunnelInfo im)
      → l ≢ j
      → dm.get j s.tunnels ≡ some u
      → (r : SocketSpec) (d : DeadRemote) → im.get r u.dead_remotes ≡ some d
      → IsWatchedBy s.tasks j r d

  pub write_watched :
      (s : State im dm) (l : SocketSpec) (ti : TunnelInfo im)
      → IsFresh s
      → OthersWatched s l
      → ((r : SocketSpec) (d : DeadRemote)
          → im.get r ti.dead_remotes ≡ some d
          → IsWatchedBy s.tasks l r d)
      → AllWatched (write im dm l ti s)
  unfolding write
  write_watched s l ti fresh others w = record {
    fresh = fresh;
    watched = λ j u e r d p. elim (SocketSpec-discrete l j) [
      | yes q ↦
          let eq : ti ≡ u =
            ground (arith, dm.get-modify l j (λ (_ : TunnelInfo im). ti) s.tunnels) in
          let p' = subst (λ (v : TunnelInfo im). im.get r v.dead_remotes ≡ some d) (sym eq) p in
          subst (λ k. IsWatchedBy s.tasks k r d) q (w r d p')
      | no q ↦
          others j u q (ground (arith, dm.get-modify l j (λ (_ : TunnelInfo im). ti) s.tunnels)) r d
            p
    ];
  }

  pub write-AllWatched :
      {s : State im dm} (h : AllWatched s) (l : SocketSpec) (ti : TunnelInfo im)
      → ((r : SocketSpec) (d : DeadRemote)
          → im.get r ti.dead_remotes ≡ some d
          → IsWatchedBy s.tasks l r d)
      → AllWatched (write im dm l ti s)
  write-AllWatched {s} h l ti = write_watched s l ti h.fresh (λ j u _. h.watched j u)
