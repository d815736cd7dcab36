-- ===== src/Proxy/Tunnels.antt =====
-- src/lib.rs, `create_tunnel` and `stop_tunnel`.
use plexy.Prelude.{◌≡◌, ◌≢◌, refl, ap, true, none, some, is_some, arith, ite}
use plexy.Tunnel.{SocketSpec, SocketSpec-discrete, Tunnel}
use plexy.Errors.{Result, ok}
use plexy.Maps.{KeyedMap, IndexMap}
use plexy.State.Info.{TunnelInfo, WatchSender, new_tunnel_info}
use plexy.State.Store.{State, tunnel_exists, add_tunnel, remove_tunnel, options_or_default}
use plexy.Proxy.{create_tunnel, stop_tunnel}

module _ (im : IndexMap) (dm : KeyedMap) (binding : State im dm → State im dm)
    (sender : WatchSender) (s : State im dm) (t : Tunnel) where
  abbrev pub created : State im dm × Result (Unit {0})
  created = create_tunnel im dm binding (ok tt) sender s t

  abbrev pub stopped : State im dm × Result WatchSender
  stopped = stop_tunnel im dm created.0 t.local

  module _ (absent : dm.get t.local s.tunnels ≡ none)
      (absent_then : dm.get t.local (binding s).tunnels ≡ none) where
    abbrev info : TunnelInfo im
    info = new_tunnel_info im sender t.remote (options_or_default im dm (binding s) t.options)

    created_open : dm.get t.local created.0.tunnels ≡ some info
    unfolding create_tunnel add_tunnel tunnel_exists
    created_open =
        rw (absent, create_tunnel)
          (rw (absent_then, add_tunnel)
            (ground (arith, dm.get-insert t.local t.local info (binding s).tunnels)))

    created_other :
        (m : SocketSpec) → t.local ≢ m → dm.get m created.0.tunnels ≡ dm.get m (binding s).tunnels
    unfolding create_tunnel add_tunnel tunnel_exists
    created_other m ne =
        rw (absent, create_tunnel)
          (rw (absent_then, add_tunnel)
            (ground (arith, dm.get-insert t.local m info (binding s).tunnels)))

    created_ok : created.1 ≡ ok tt
    unfolding create_tunnel add_tunnel tunnel_exists
    created_ok = rw (absent, create_tunnel) (rw (absent_then, add_tunnel) refl)

    stopped_channel : stopped.1 ≡ ok sender
    unfolding stop_tunnel remove_tunnel new_tunnel_info
    stopped_channel = rw (created_open, stop_tunnel, remove_tunnel) refl

    stopped_get :
        (m : SocketSpec)
        → dm.get m stopped.0.tunnels
          ≡ ite (SocketSpec-discrete t.local m) none (dm.get m created.0.tunnels)
    unfolding stop_tunnel remove_tunnel
    stopped_get m =
        rw (created_open, stop_tunnel, remove_tunnel)
          (rw (created_open, remove_tunnel) (dm.get-remove t.local m created.0.tunnels))

    -- A tunnel that does not exist, neither at first nor when its listener was bound, is created with
    -- its listener; then it exists, and stopping it signals the channel that it was created with. In
    -- the end every tunnel is what it was when the listener was bound.
    pub create_tunnel-stop_tunnel :
        (created.1 ≡ ok tt)
        × (tunnel_exists im dm created.0 t.local ≡ true)
        × (stopped.1 ≡ ok sender)
        × ((m : SocketSpec) → dm.get m stopped.0.tunnels ≡ dm.get m (binding s).tunnels)
    unfolding tunnel_exists
    create_tunnel-stop_tunnel = (
      created_ok,
      ap is_some created_open,
      stopped_channel,
      λ m. elim (SocketSpec-discrete t.local m) [
        | yes p ↦ ground (arith, stopped_get m, p, absent_then)
        | no p ↦ ground (arith, stopped_get m, created_other m p)
      ],
    )
