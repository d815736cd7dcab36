-- ===== src/State/Separate/Always.antt =====
-- Live and dead remotes (src/state.rs) in the states of a run.
use plexy.Prelude.{◌≡◌, arith}
use plexy.Tunnel.{TunnelOptions}
use plexy.Errors.{Result, ok}
use plexy.Maps.{KeyedMap, IndexMap}
use plexy.Config.{Args}
use plexy.State.Info.{TunnelInfo}
use plexy.State.Store.{State, ClientConfig, new_state}
use plexy.State.Steps.{
  Step, Reach, Runs, adds_tunnel, removes_tunnel, adds_remote, removes_remote, selects,
  connects_client, connects_remote, fails_remote, transfers, disconnects, checks, here, next, runs,
}
use plexy.State.Separate.{AllSeparate}
use plexy.State.Separate.Streams.{
  client_connected-AllSeparate, remote_connected-AllSeparate, update_transferred-AllSeparate,
  client_disconnected-AllSeparate, select_remote-AllSeparate,
}
use plexy.State.Separate.Tunnels.{
  add_tunnel-AllSeparate, remove_tunnel-AllSeparate, add_remote-AllSeparate,
  remove_remote-AllSeparate,
}
use plexy.State.Separate.Dead.{remote_error-AllSeparate, run_check-AllSeparate}

module _ (im : IndexMap) (dm : KeyedMap) where
  Step-AllSeparate :
      {s u : State im dm} → Step im dm s u → AllSeparate im dm s → AllSeparate im dm u
  Step-AllSeparate (adds_tunnel t c) h = add_tunnel-AllSeparate im dm h t c
  Step-AllSeparate (removes_tunnel l) h = remove_tunnel-AllSeparate im dm h l
  Step-AllSeparate (adds_remote l r) h = add_remote-AllSeparate im dm h l r
  Step-AllSeparate (removes_remote l r) h = remove_remote-AllSeparate im dm h l r
  Step-AllSeparate (selects g l) h = select_remote-AllSeparate im dm h g l
  Step-AllSeparate (connects_client l) h = client_connected-AllSeparate im dm h l
  Step-AllSeparate (connects_remote l r) h = remote_connected-AllSeparate im dm h l r
  Step-AllSeparate (fails_remote now l r a o) h = remote_error-AllSeparate im dm h now l r a o
  Step-AllSeparate (transfers l r b n) h = update_transferred-AllSeparate im dm h l r b n
  Step-AllSeparate (disconnects l r) h = client_disconnected-AllSeparate im dm h l r
  Step-AllSeparate (checks now i t c e) h = run_check-AllSeparate im dm h now t c

  Reach-AllSeparate :
      {s u : State im dm} → AllSeparate im dm s → Reach im dm s u → AllSeparate im dm u
  Reach-AllSeparate h here = h
  Reach-AllSeparate h (next r st) = Step-AllSeparate st (Reach-AllSeparate h r)

  new_state-AllSeparate :
      (create : Args → Result ClientConfig) (o : TunnelOptions) (args : Args) (s : State im dm)
      → new_state im dm create o args ≡ ok s
      → AllSeparate im dm s
  unfolding new_state
  new_state-AllSeparate create o args s e = record {
    at = λ l ti p. absurd (ground (arith, dm.get-empty {V = TunnelInfo im} l));
  }

  -- In every state of a run no address is both a live and a dead remote of one tunnel.
  pub Runs-AllSeparate : {s : State im dm} → Runs im dm s → AllSeparate im dm s
  Runs-AllSeparate (runs create o args start e r) =
      Reach-AllSeparate (new_state-AllSeparate create o args start e) r
