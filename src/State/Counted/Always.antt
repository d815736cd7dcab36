-- ===== src/State/Counted/Always.antt =====
-- The metric `tunnels_counter` of src/state.rs in the states of a run.
use plexy.Maps.{KeyedMap, IndexMap}
use plexy.State.Store.{State}
use plexy.State.Steps.{
  Step, Reach, Runs, adds_tunnel, removes_tunnel, adds_remote, removes_remote, selects,
  connects_client, connects_remote, fails_remote, transfers, disconnects, checks, here, next, runs,
}
use plexy.State.Counted.{
  IsCounted, add_tunnel-IsCounted, remove_tunnel-IsCounted, add_remote_to_tunnel-IsCounted,
  remove_remote_from_tunnel-IsCounted, select_remote-IsCounted, client_connected-IsCounted,
  remote_connected-IsCounted, remote_error-IsCounted, update_transferred-IsCounted,
  client_disconnected-IsCounted, run_check-IsCounted, new_state-IsCounted,
}

module _ (im : IndexMap) (dm : KeyedMap) where
  Step-IsCounted : {s u : State im dm} → Step im dm s u → IsCounted im dm s → IsCounted im dm u
  Step-IsCounted {s} (adds_tunnel t c) h = add_tunnel-IsCounted im dm s h t c
  Step-IsCounted {s} (removes_tunnel l) h = remove_tunnel-IsCounted im dm s h l
  Step-IsCounted {s} (adds_remote l r) h = add_remote_to_tunnel-IsCounted im dm s h l r
  Step-IsCounted {s} (removes_remote l r) h = remove_remote_from_tunnel-IsCounted im dm s h l r
  Step-IsCounted {s} (selects g l) h = select_remote-IsCounted im dm s h g l
  Step-IsCounted {s} (connects_client l) h = client_connected-IsCounted im dm s h l
  Step-IsCounted {s} (connects_remote l r) h = remote_connected-IsCounted im dm s h l r
  Step-IsCounted {s} (fails_remote now l r a o) h = remote_error-IsCounted im dm s h now l r a o
  Step-IsCounted {s} (transfers l r b n) h = update_transferred-IsCounted im dm s h l r b n
  Step-IsCounted {s} (disconnects l r) h = client_disconnected-IsCounted im dm s h l r
  Step-IsCounted {s} (checks now i t c e) h = run_check-IsCounted im dm s h now t c

  Reach-IsCounted : {s u : State im dm} → IsCounted im dm s → Reach im dm s u → IsCounted im dm u
  Reach-IsCounted h here = h
  Reach-IsCounted h (next r st) = Step-IsCounted st (Reach-IsCounted h r)

  -- In every state of a run the amounts added to the metric `tunnels_counter` total the number of open
  -- tunnels.
  pub Runs-IsCounted : {s : State im dm} → Runs im dm s → IsCounted im dm s
  Runs-IsCounted (runs create o args start e r) =
      Reach-IsCounted (new_state-IsCounted im dm create o args start e) r
