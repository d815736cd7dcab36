-- ===== src/State/Steps.antt =====
-- The calls that the tasks of the program make on the shared state, one step each, and the states
-- that a sequence of them reaches.
use plexy.Prelude.{ℕ, ◌≡◌, Bool, Option, some}
use plexy.Tunnel.{SocketSpec, SocketAddr, Tunnel, TunnelOptions, TunnelRemoteOptions}
use plexy.Errors.{Result, ok}
use plexy.Config.{Args}
use plexy.Maps.{KeyedMap, IndexMap}
use plexy.State.Info.{WatchSender}
use plexy.State.Store.{
  State, CheckTask, ClientConfig, find_task, new_state, add_tunnel, remove_tunnel,
  add_remote_to_tunnel, remove_remote_from_tunnel,
}
use plexy.State.Streams.{
  select_remote, client_connected, remote_connected, update_transferred, client_disconnected,
}
use plexy.State.Dead.{remote_error, run_check}

module _ (im : IndexMap) (dm : KeyedMap) where
  pub data Step (s : State im dm) : State im dm → Type 0 where
    adds_tunnel : (t : Tunnel) (c : WatchSender) → Step s (add_tunnel im dm s t c).0
    removes_tunnel : (l : SocketSpec) → Step s (remove_tunnel im dm s l).0
    adds_remote : (l r : SocketSpec) → Step s (add_remote_to_tunnel im dm s l r).0
    removes_remote : (l r : SocketSpec) → Step s (remove_remote_from_tunnel im dm s l r).0
    selects : (gen_range : ℕ → ℕ) (l : SocketSpec) → Step s (select_remote im dm s gen_range l).0
    connects_client : (l : SocketSpec) → Step s (client_connected im dm s l)
    connects_remote : (l r : SocketSpec) → Step s (remote_connected im dm s l r)
    fails_remote :
        (now : ℕ) (l r : SocketSpec) (a : SocketAddr) (o : TunnelRemoteOptions)
        → Step s (remote_error im dm s now l r a o)
    transfers :
        (l r : SocketSpec) (sent : Bool) (n : ℕ) → Step s (update_transferred im dm s l r sent n)
    disconnects :
        (l : SocketSpec) (r : Option SocketSpec) → Step s (client_disconnected im dm s l r)
    -- one of the tasks that still run
    checks :
        (now h : ℕ) (t : CheckTask) (connected : Bool)
        → find_task h s.tasks ≡ some t
        → Step s (run_check im dm s now t connected)

  pub data Reach (s : State im dm) : State im dm → Type 0 where
    here : Reach s s
    next : {t u : State im dm} → Reach s t → Step t u → Reach s u

  -- A state of a run of the program: reached from one that `State::new` returned.
  pub data Runs (s : State im dm) : Type 0 where
    runs :
        (create : Args → Result ClientConfig) (defaults : TunnelOptions) (args : Args)
        (start : State im dm)
        → new_state im dm create defaults args ≡ ok start
        → Reach start s
        → Runs s
