-- ===== src/State/Failures.antt =====
-- src/state.rs: what an error of a remote, and the check of a dead one, do to it.
pub mod Errors
pub mod Recovery
pub mod Leaks
use plexy.Prelude.{
  ℕ, suc, ◌≤◌, ◌<◌, ◌≡◌, ◌≢◌, refl, ap, inl, inr, Bool, true, false, List, [], ◌∷◌, ◌++◌, Option,
  none, some, ite, arith, option_map, add64,
}
use plexy.Tunnel.{SocketSpec, SocketSpec-discrete}
use plexy.Maps.{KeyedMap, IndexMap}
use plexy.State.Stats.{RemoteStats}
use plexy.State.Info.{TunnelInfo}
use plexy.State.Store.{State, write}
use plexy.State.View.{live_remote, dead_remote}

-- A remote's statistics with one error more, at the time `now`.
abbrev pub with_error : ℕ → RemoteStats → RemoteStats
with_error now x = record x {
  total_errors = add64 x.total_errors 1;
  num_errors = add64 x.num_errors 1;
  last_error_time = some now;
}

-- How many errors the tunnel `l` counts, if it is open.
abbrev pub tunnel_errors : (im : IndexMap) (dm : KeyedMap) → State im dm → SocketSpec → Option ℕ
tunnel_errors im dm s l = option_map (λ (t : TunnelInfo im). t.stats.errors) (dm.get l s.tunnels)

module _ (im : IndexMap) (dm : KeyedMap) (s : State im dm) (l : SocketSpec)
    (ti : TunnelInfo im) where
  pub get-write :
      (m : SocketSpec)
      → dm.get m (write im dm l ti s).tunnels
        ≡ ite
            (SocketSpec-discrete l m)
            (option_map (λ (_ : TunnelInfo im). ti) (dm.get m s.tunnels))
            (dm.get m s.tunnels)
  unfolding write
  get-write m = dm.get-modify l m (λ (_ : TunnelInfo im). ti) s.tunnels

  -- A write with one error more than the open tunnel had.
  pub errors-write :
      (old : TunnelInfo im)
      → dm.get l s.tunnels ≡ some old
      → ti.stats.errors ≡ add64 old.stats.errors 1
      → tunnel_errors im dm (write im dm l ti s) l
        ≡ option_map (λ (n : ℕ). add64 n 1) (tunnel_errors im dm s l)
  errors-write old e p = rw e (ground (arith, get-write l, e, p))

  -- A write to an open tunnel is what is seen of it, and nothing else is seen to change.
  pub live-write_same :
      (old : TunnelInfo im) (r : SocketSpec)
      → dm.get l s.tunnels ≡ some old
      → live_remote im dm (write im dm l ti s) l r ≡ im.get r ti.remotes
  live-write_same old r e = ground (arith, get-write l)

  pub dead-write_same :
      (old : TunnelInfo im) (r : SocketSpec)
      → dm.get l s.tunnels ≡ some old
      → dead_remote im dm (write im dm l ti s) l r ≡ im.get r ti.dead_remotes
  dead-write_same old r e = ground (arith, get-write l)

  pub get-write_other :
      (m : SocketSpec) → l ≢ m → dm.get m (write im dm l ti s).tunnels ≡ dm.get m s.tunnels
  get-write_other m ne = ground (arith, get-write m)
