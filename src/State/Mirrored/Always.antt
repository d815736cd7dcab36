-- ===== src/State/Mirrored/Always.antt =====
-- The tunnels' metric instruments in the states of a run (src/state.rs).
use plexy.Prelude.{◌≡◌, arith}
use plexy.Tunnel.{TunnelOptions}
use plexy.Errors.{Result, ok}
use plexy.Config.{Args}
use plexy.Maps.{KeyedMap, IndexMap}
use plexy.State.Info.{TunnelInfo}
use plexy.State.Store.{State, ClientConfig, new_state}
use plexy.State.Steps.{
  Step, Reach, Runs, adds_tunnel, removes_tunnel, adds_remote, removes_remote, selects,
  connects_client, connects_remote, fails_remote, transfers, disconnects, checks, here, next, runs,
}
use plexy.State.Mirrored.{
  AllMirrored, client_connected-AllMirrored, remote_connected-AllMirrored,
  update_transferred-AllMirrored, client_disconnected-AllMirrored,
}
use plexy.State.Mirrored.Moves.{
  select_remote-AllMirrored, add_remote-AllMirrored, remove_remote-AllMirrored,
  remote_error-AllMirrored, add_tunnel-AllMirrored, remove_tunnel-AllMirrored,
  run_check-AllMirrored,
}

module _ (im : IndexMap) (dm : KeyedMap) where
  Step-AllMirrored :
      {s u : State im dm} → Step im dm s u → AllMirrored im dm s → AllMirrored im dm u
  Step-AllMirrored {s} (adds_tunnel t c) h = add_tunnel-AllMirrored im dm s h t c
  Step-AllMirrored {s} (removes_tunnel l) h = remove_tunnel-AllMirrored im dm s h l
  Step-AllMirrored {s} (adds_remote l r) h = add_remote-AllMirrored im dm s h l r
  Step-AllMirrored {s} (removes_remote l r) h = remove_remote-AllMirrored im dm s h l r
  Step-AllMirrored {s} (selects g l) h = select_remote-AllMirrored im dm s h g l
  Step-AllMirrored {s} (connects_client l) h = client_connected-AllMirrored im dm s h l
  Step-AllMirrored {s} (connects_remote l r) h = remote_connected-AllMirrored im dm s h l r
  Step-AllMirrored {s} (fails_remote now l r a o) h = remote_error-AllMirrored im dm s h now l r a o
  Step-AllMirrored {s} (transfers l r b n) h = update_transferred-AllMirrored im dm s h l r b n
  Step-AllMirrored {s} (disconnects l r) h = client_disconnected-AllMirrored im dm s h l r
  Step-AllMirrored {s} (checks now i t c e) h = run_check-AllMirrored im dm s h now t c

  Reach-AllMirrored :
      {s u : State im dm} → AllMirrored im dm s → Reach im dm s u → AllMirrored im dm u
  Reach-AllMirrored h here = h
  Reach-AllMirrored h (next r st) = Step-AllMirrored st (Reach-AllMirrored h r)

  new_state-AllMirrored :
      (create : Args → Result ClientConfig) (o : TunnelOptions) (args : Args) (s : State im dm)
      → new_state im dm create o args ≡ ok s
      → AllMirrored im dm s
  unfolding new_state
  new_state-AllMirrored create o args s e = record {
    at = λ l ti p. absurd (ground (arith, dm.get-empty {V = TunnelInfo im} l));
  }

  -- In every state of a run, for each open tunnel: the amounts added to the instruments of connections
  -- and of errors total the statistics modulo 2^64, those added to `bytes_sent` total the bytes sent
  -- and received together modulo 2^64, and nothing was added to `bytes_received`.
  pub Runs-AllMirrored : {s : State im dm} → Runs im dm s → AllMirrored im dm s
  Runs-AllMirrored (runs create o args start e r) =
      Reach-AllMirrored (new_state-AllMirrored create o args start e) r
