-- ===== src/State/Remotes.antt =====
-- src/state.rs, `add_remote_to_tunnel` and `remove_remote_from_tunnel`.
pub mod Readded
use plexy.Prelude.{
  ℕ, ◌≡◌, ◌≢◌, refl, ◌∙◌, Bool, true, false, Option, none, some, is_some, arith, option_map, ite,
}
use plexy.Tunnel.{SocketSpec, SocketSpec-discrete}
use plexy.Errors.{
  Error, Result, ok, err, tunnel_does_not_exist, remote_exists, remote_does_not_exist,
}
use plexy.Maps.{KeyedMap, IndexMap}
use plexy.State.Remote.{RemoteInfo, new_remote_info}
use plexy.State.Info.{TunnelInfo, DeadRemote}
use plexy.State.Store.{State, write, add_remote_to_tunnel, remove_remote_from_tunnel}
use plexy.State.View.{live_remote, dead_remote}
use plexy.State.Failures.{live-write_same, dead-write_same, get-write}

module _ (im : IndexMap) (dm : KeyedMap) (s : State im dm) (l r : SocketSpec) (ti : TunnelInfo im)
    (open_tunnel : dm.get l s.tunnels ≡ some ti) where
  abbrev with_remote : TunnelInfo im
  with_remote = record ti { remotes = im.insert r new_remote_info ti.remotes }

  abbrev without_live : TunnelInfo im
  without_live = record ti { remotes = im.remove r ti.remotes }

  pub add_remote-new :
      im.get r ti.remotes ≡ none
      → im.get r ti.dead_remotes ≡ none
      → add_remote_to_tunnel im dm s l r ≡ (write im dm l with_remote s, ok tt)
  unfolding add_remote_to_tunnel
  add_remote-new e f = rw (open_tunnel, e, f, add_remote_to_tunnel) refl

  pub remove_remote-live :
      (x : RemoteInfo)
      → im.get r ti.remotes ≡ some x
      → remove_remote_from_tunnel im dm s l r ≡ (write im dm l without_live s, ok x)
  unfolding remove_remote_from_tunnel
  remove_remote-live x e = rw (open_tunnel, e, remove_remote_from_tunnel) refl

  pub tunnel-write : (u : TunnelInfo im) → dm.get l (write im dm l u s).tunnels ≡ some u
  tunnel-write u = ground (arith, get-write im dm s l u l)
