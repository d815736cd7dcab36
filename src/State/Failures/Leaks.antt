-- ===== src/State/Failures/Leaks.antt =====
-- src/state.rs, `client_disconnected`: it looks for the remote among the live ones only.
use plexy.Prelude.{ℕ, ◌≡◌, ap, true, none, some, arith}
use plexy.Maps.{KeyedMap, IndexMap}
use plexy.State.Remote.{RemoteInfo}
use plexy.State.Info
use plexy.State.Info.{TunnelInfo, DeadRemote}
use plexy.State.Store.{State, CheckTask}
use plexy.State.Streams.{client_disconnected}
use plexy.State.View.{live_remote}
use plexy.State.Dead.{run_check}
use plexy.State.Failures.{get-write}
use plexy.State.Failures.Recovery.{run_check-outcome}

module _ (im : IndexMap) (dm : KeyedMap) (s : State im dm) (now : ℕ) (t : CheckTask) where
  -- A stream of the remote closes, and then the check of the remote makes a connection.
  abbrev pub recovered_later : State im dm
  recovered_later = run_check im dm (client_disconnected im dm s t.local (some t.remote)) now t true

  module _ (ti : TunnelInfo im) (d : DeadRemote) (open_tunnel : dm.get t.local s.tunnels ≡ some ti)
      (not_live : im.get t.remote ti.remotes ≡ none)
      (dead_before : im.get t.remote ti.dead_remotes ≡ some d) where
    closed_tunnel :
        dm.get t.local (client_disconnected im dm s t.local (some t.remote)).tunnels
        ≡ some (Info.client_disconnected im ti)
    unfolding client_disconnected Info.client_disconnected
    closed_tunnel =
        rw (open_tunnel, not_live, client_disconnected)
          (ground (arith, get-write im dm s t.local (Info.client_disconnected im ti) t.local))

    still_dead_remote : im.get t.remote (Info.client_disconnected im ti).dead_remotes ≡ some d
    unfolding Info.client_disconnected
    still_dead_remote = dead_before

    -- A stream that closes while its remote is dead stays counted: when the remote is live again, its
    -- count of open streams is that from before the stream closed.
    pub client_disconnected-run_check :
        (y : RemoteInfo) × (live_remote im dm recovered_later t.local t.remote ≡ some y)
        × (y.stats.streams_open ≡ d.remote.stats.streams_open)
    client_disconnected-run_check =
        let (ok_recovered, _) =
          run_check-outcome im dm (client_disconnected im dm s t.local (some t.remote)) now t
            (Info.client_disconnected im ti) d closed_tunnel still_dead_remote in
        (ok_recovered.recovered, ok_recovered.live, ap (λ x. x.streams_open) ok_recovered.stats)
