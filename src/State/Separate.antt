-- ===== src/State/Separate.antt =====
-- src/state.rs: addresses of live and of dead remotes of a tunnel, and the operations on both.
pub mod Streams
pub mod Tunnels
pub mod Dead
pub mod Always
use plexy.Prelude.{
  ℕ, ◌≡◌, refl, ◌⊎◌, inl, inr, ◌∷◌, List, [], Bool, true, false, Option, none, some, ite, arith,
  option_map, Option-cases, Bool-cases,
}
use plexy.Tunnel.{SocketSpec, SocketSpec-discrete, TunnelRemoteOptions}
use plexy.Errors.{Result, ok, err, Result-cases}
use plexy.Maps.{KeyedMap, IndexMap}
use plexy.State.Remote
use plexy.State.Remote.{RemoteInfo}
use plexy.State.Info
use plexy.State.Info.{TunnelInfo, DeadRemote}
use plexy.State.Store.{
  State, CheckTask, write, new_state, add_tunnel, remove_tunnel, add_remote_to_tunnel,
  remove_remote_from_tunnel,
}
use plexy.State.Streams.{
  start_stream, select_remote, client_connected, remote_connected, update_transferred,
  client_disconnected,
}
use plexy.State.Dead.{bury, remote_error, recover, still_dead, run_check}
use plexy.State.Steps.{
  Step, Reach, Runs, adds_tunnel, removes_tunnel, adds_remote, removes_remote, selects,
  connects_client, connects_remote, fails_remote, transfers, disconnects, checks, here, next, runs,
}

module _ (im : IndexMap) where
  open im use {Map, get, insert, remove, modify, get-empty, get-insert, get-remove, get-modify}

  pub record IsSeparate (live : Map RemoteInfo) (dead : Map DeadRemote) : Type 0 where
    pub apart : (r : SocketSpec) → (get r live ≡ none) ⊎ (get r dead ≡ none)

  module _ {live : Map RemoteInfo} {dead : Map DeadRemote} (h : IsSeparate live dead) where
    pub modify_live :
        (k : SocketSpec) (f : RemoteInfo → RemoteInfo) → IsSeparate (modify k f live) dead
    modify_live k f = record { apart = λ r. ground (arith, h.apart r, get-modify k r f live) }

    pub modify_dead :
        (k : SocketSpec) (f : DeadRemote → DeadRemote) → IsSeparate live (modify k f dead)
    modify_dead k f = record { apart = λ r. ground (arith, h.apart r, get-modify k r f dead) }

    pub remove_live : (k : SocketSpec) → IsSeparate (remove k live) dead
    remove_live k = record { apart = λ r. ground (arith, h.apart r, get-remove k r live) }

    pub remove_dead : (k : SocketSpec) → IsSeparate live (remove k dead)
    remove_dead k = record { apart = λ r. ground (arith, h.apart r, get-remove k r dead) }

    pub insert_live :
        (k : SocketSpec) (v : RemoteInfo) → get k dead ≡ none → IsSeparate (insert k v live) dead
    insert_live k v e = record { apart = λ r. ground (arith, h.apart r, get-insert k r v live) }

    pub move_to_dead :
        (k : SocketSpec) (d : DeadRemote) → IsSeparate (remove k live) (insert k d dead)
    move_to_dead k d = record {
      apart = λ r. ground (arith, h.apart r, get-remove k r live, get-insert k r d dead);
    }

    pub move_to_live :
        (k : SocketSpec) (v : RemoteInfo) → IsSeparate (insert k v live) (remove k dead)
    move_to_live k v = record {
      apart = λ r. ground (arith, h.apart r, get-insert k r v live, get-remove k r dead);
    }

module _ (im : IndexMap) (dm : KeyedMap) where
  pub record AllSeparate (s : State im dm) : Type 0 where
    pub at :
        (l : SocketSpec) (ti : TunnelInfo im)
        → dm.get l s.tunnels ≡ some ti
        → IsSeparate im ti.remotes ti.dead_remotes

  module _ {s : State im dm} (h : AllSeparate s) where
    pub write-AllSeparate :
        (l : SocketSpec) (ti : TunnelInfo im)
        → IsSeparate im ti.remotes ti.dead_remotes
        → AllSeparate (write im dm l ti s)
    unfolding write
    write-AllSeparate l ti p = record {
      at = λ j u e.
          ground (arith, dm.get-modify l j (λ (_ : TunnelInfo im). ti) s.tunnels, h.at j u, p);
    }
