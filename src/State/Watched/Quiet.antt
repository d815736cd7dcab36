-- ===== src/State/Watched/Quiet.antt =====
-- src/state.rs: the calls that leave dead remotes and tasks alone.
use plexy.Prelude.{ℕ, ◌≡◌, refl, inl, inr, Bool, true, false, Option, none, some, Option-cases}
use plexy.Tunnel.{SocketSpec}
use plexy.Errors.{Result, ok, err, Result-cases}
use plexy.Maps.{KeyedMap, IndexMap}
use plexy.State.Info
use plexy.State.Info.{TunnelInfo, DeadRemote, WatchSender, new_tunnel_info}
use plexy.State.Store.{State, write, add_remote_to_tunnel}
use plexy.State.Streams.{
  start_stream, select_remote, client_connected, remote_connected, update_transferred,
  client_disconnected,
}
use plexy.State.Watched.{AllWatched, write-AllWatched}

module _ (im : IndexMap) (dm : KeyedMap) {s : State im dm} (h : AllWatched im dm s) where
  same_dead :
      (l : SocketSpec) (ti ti' : TunnelInfo im)
      → dm.get l s.tunnels ≡ some ti
      → ti'.dead_remotes ≡ ti.dead_remotes
      → AllWatched im dm (write im dm l ti' s)
  same_dead l ti ti' e same =
      write-AllWatched im dm h l ti' λ r d p. h.watched l ti e r d (rw same at p)

  pub client_connected-AllWatched : (l : SocketSpec) → AllWatched im dm (client_connected im dm s l)
  unfolding client_connected Info.client_connected
  client_connected-AllWatched l = elim (Option-cases (dm.get l s.tunnels)) [
    | inl e ↦ rw (e, client_connected) h
    | inr (ti, e) ↦ rw (e, client_connected) (same_dead l ti _ e refl)
  ]

  pub remote_connected-AllWatched :
      (l r : SocketSpec) → AllWatched im dm (remote_connected im dm s l r)
  unfolding remote_connected
  remote_connected-AllWatched l r = elim (Option-cases (dm.get l s.tunnels)) [
    | inl e ↦ rw (e, remote_connected) h
    | inr (ti, e) ↦ elim (Option-cases (im.get r ti.remotes)) [
      | inl e' ↦ rw (e, e', remote_connected) h
      | inr (_, e') ↦ rw (e, e', remote_connected) (same_dead l ti _ e refl)
    ]
  ]

  moved_bytes-dead :
      (sent : Bool) (n : ℕ) (ti : TunnelInfo im)
      → (Info.update_moved_bytes im sent n ti).dead_remotes ≡ ti.dead_remotes
  unfolding Info.update_moved_bytes
  moved_bytes-dead true n ti = refl
  moved_bytes-dead false n ti = refl

  pub update_transferred-AllWatched :
      (l r : SocketSpec) (sent : Bool) (n : ℕ)
      → AllWatched im dm (update_transferred im dm s l r sent n)
  unfolding update_transferred
  update_transferred-AllWatched l r sent n = elim (Option-cases (dm.get l s.tunnels)) [
    | inl e ↦ rw (e, update_transferred) h
    | inr (ti, e) ↦ elim (Option-cases (im.get r (Info.update_moved_bytes im sent n ti).remotes)) [
      | inl e' ↦ rw (e, e', update_transferred) (same_dead l ti _ e (moved_bytes-dead sent n ti))
      | inr (_, e') ↦
          rw (e, e', update_transferred) (same_dead l ti _ e (moved_bytes-dead sent n ti))
    ]
  ]

  pub client_disconnected-AllWatched :
      (l : SocketSpec) (r : Option SocketSpec) → AllWatched im dm (client_disconnected im dm s l r)
  unfolding client_disconnected Info.client_disconnected
  client_disconnected-AllWatched l none = elim (Option-cases (dm.get l s.tunnels)) [
    | inl e ↦ rw (e, client_disconnected) h
    | inr (ti, e) ↦ rw (e, client_disconnected) (same_dead l ti _ e refl)
  ]
  client_disconnected-AllWatched l (some r) = elim (Option-cases (dm.get l s.tunnels)) [
    | inl e ↦ rw (e, client_disconnected) h
    | inr (ti, e) ↦ elim (Option-cases (im.get r ti.remotes)) [
      | inl e' ↦ rw (e, e', client_disconnected) (same_dead l ti _ e refl)
      | inr (_, e') ↦ rw (e, e', client_disconnected) (same_dead l ti _ e refl)
    ]
  ]

  picked-dead :
      (gen : ℕ → ℕ) (ti : TunnelInfo im)
      → (Info.select_remote im gen ti).0.dead_remotes ≡ ti.dead_remotes
  unfolding Info.select_remote
  picked-dead gen ti = elim (Result-cases (Info.pick_index im gen ti)) [
    | inl (i, e) ↦ rw (e, Info.select_remote)
    | inr (x, e) ↦ rw (e, Info.select_remote)
  ]

  start_stream-AllWatched :
      (l : SocketSpec) (ti ti' : TunnelInfo im) (res : Result SocketSpec)
      → dm.get l s.tunnels ≡ some ti
      → ti'.dead_remotes ≡ ti.dead_remotes
      → AllWatched im dm (start_stream im dm s l (ti', res)).0
  unfolding start_stream
  start_stream-AllWatched l ti ti' (err x) e same = same_dead l ti ti' e same
  start_stream-AllWatched l ti ti' (ok k) e same = elim (Option-cases (im.get k ti'.remotes)) [
    | inl e' ↦ rw (e', start_stream) (same_dead l ti ti' e same)
    | inr (_, e') ↦ rw (e', start_stream) (same_dead l ti _ e same)
  ]

  pub select_remote-AllWatched :
      (gen : ℕ → ℕ) (l : SocketSpec) → AllWatched im dm (select_remote im dm s gen l).0
  unfolding select_remote
  select_remote-AllWatched gen l = elim (Option-cases (dm.get l s.tunnels)) [
    | inl e ↦ rw (e, select_remote) h
    | inr (ti, e) ↦
        rw (e, select_remote)
          (start_stream-AllWatched l ti _ (Info.select_remote im gen ti).1 e (picked-dead gen ti))
  ]

  pub add_remote-AllWatched :
      (l r : SocketSpec) → AllWatched im dm (add_remote_to_tunnel im dm s l r).0
  unfolding add_remote_to_tunnel
  add_remote-AllWatched l r = elim (Option-cases (dm.get l s.tunnels)) [
    | inl e ↦ rw (e, add_remote_to_tunnel) h
    | inr (ti, e) ↦ elim (Option-cases (im.get r ti.remotes)) [
      | inr (_, live) ↦ rw (e, live, add_remote_to_tunnel) h
      | inl live ↦ elim (Option-cases (im.get r ti.dead_remotes)) [
        | inr (_, dead) ↦ rw (e, live, dead, add_remote_to_tunnel) h
        | inl dead ↦ rw (e, live, dead, add_remote_to_tunnel) (same_dead l ti _ e refl)
      ]
    ]
  ]
