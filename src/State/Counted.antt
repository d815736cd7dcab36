-- ===== src/State/Counted.antt =====
-- The metric `tunnels_counter` of src/state.rs beside the number of open tunnels.
pub mod Always
use plexy.Prelude.{
  ℕ, suc, ◌≡◌, refl, ap, sym, ◌∙◌, inl, inr, Bool, true, false, List, [], ◌∷◌, map, Option, none,
  some, arith, length, length-map, is_some, pos, negsuc, ◌+ℤ◌, total, Bool-cases, Option-cases, ite,
}
use plexy.Tunnel.{
  SocketSpec, SocketSpec-discrete, Tunnel, TunnelOptions, TunnelRemoteOptions, SocketAddr,
}
use plexy.Errors.{Result, ok, err}
use plexy.Config.{Args}
use plexy.Maps.{KeyedMap, IndexMap}
use plexy.State.Info
use plexy.State.Info.{TunnelInfo, WatchSender, new_tunnel_info}
use plexy.State.Store.{
  State, CheckTask, abort, ClientConfig, write, number_of_tunnels, options_or_default, new_state,
  add_tunnel, remove_tunnel, add_remote_to_tunnel, remove_remote_from_tunnel,
}
use plexy.State.Streams.{
  start_stream, select_remote, client_connected, remote_connected, update_transferred,
  client_disconnected,
}
use plexy.State.Dead.{bury, remote_error, recover, still_dead, run_check, check_dead, is_dead}

module _ (im : IndexMap) (dm : KeyedMap) where
  abbrev pub IsCounted : State im dm → Type 0
  IsCounted s = total s.tunnels_counter ≡ pos (number_of_tunnels im dm s)

  write_size :
      (l : SocketSpec) (ti : TunnelInfo im) (s : State im dm)
      → number_of_tunnels im dm (write im dm l ti s) ≡ number_of_tunnels im dm s
  unfolding number_of_tunnels write
  write_size l ti s =
      ap length (dm.entries-modify l (λ (_ : TunnelInfo im). ti) s.tunnels) ∙ length-map _ _

  write-IsCounted :
      (s : State im dm)
      → IsCounted s
      → (l : SocketSpec) (ti : TunnelInfo im) → IsCounted (write im dm l ti s)
  unfolding write
  write-IsCounted s h l ti = h ∙ ap pos (sym (write_size l ti s))

  pub remote_connected-IsCounted :
      (s : State im dm)
      → IsCounted s
      → (l r : SocketSpec) → IsCounted (remote_connected im dm s l r)
  unfolding remote_connected
  remote_connected-IsCounted s h l r = grind (arith, write-IsCounted s h)

  pub client_disconnected-IsCounted :
      (s : State im dm)
      → IsCounted s
      → (l : SocketSpec) (r : Option SocketSpec) → IsCounted (client_disconnected im dm s l r)
  unfolding client_disconnected
  client_disconnected-IsCounted s h l none = grind (arith, write-IsCounted s h)
  client_disconnected-IsCounted s h l (some r) = grind (arith, write-IsCounted s h)

  pub client_connected-IsCounted :
      (s : State im dm) → IsCounted s → (l : SocketSpec) → IsCounted (client_connected im dm s l)
  unfolding client_connected
  client_connected-IsCounted s h l = grind (arith, write-IsCounted s h)

  pub update_transferred-IsCounted :
      (s : State im dm)
      → IsCounted s
      → (l r : SocketSpec) (sent : Bool) (n : ℕ) → IsCounted (update_transferred im dm s l r sent n)
  unfolding update_transferred
  update_transferred-IsCounted s h l r sent n = grind (arith, write-IsCounted s h)

  pub select_remote-IsCounted :
      (s : State im dm)
      → IsCounted s
      → (gen_range : ℕ → ℕ) (l : SocketSpec) → IsCounted (select_remote im dm s gen_range l).0
  unfolding select_remote start_stream
  select_remote-IsCounted s h gen_range l = grind (arith, write-IsCounted s h)

  pub add_remote_to_tunnel-IsCounted :
      (s : State im dm)
      → IsCounted s
      → (l r : SocketSpec) → IsCounted (add_remote_to_tunnel im dm s l r).0
  unfolding add_remote_to_tunnel
  add_remote_to_tunnel-IsCounted s h l r = grind (arith, write-IsCounted s h)

  pub remove_remote_from_tunnel-IsCounted :
      (s : State im dm)
      → IsCounted s
      → (l r : SocketSpec) → IsCounted (remove_remote_from_tunnel im dm s l r).0
  unfolding remove_remote_from_tunnel
  remove_remote_from_tunnel-IsCounted s h l r = grind (arith, write-IsCounted s h)

  -- The tasks do not matter.
  with_tasks :
      (s : State im dm)
      → IsCounted s
      → (ts : List CheckTask) (n : ℕ) → IsCounted (record s { tasks = ts; next_handle = n })
  unfolding number_of_tunnels
  with_tasks s h ts n = h

  bury-IsCounted :
      (s : State im dm)
      → IsCounted s
      → (l r : SocketSpec) (o : TunnelRemoteOptions) (ti : TunnelInfo im)
      → IsCounted (bury im dm s l r o ti)
  unfolding bury check_dead
  bury-IsCounted s h l r o ti = elim (Option-cases (im.get r ti.remotes)) [
    | inl e ↦ rw (e, bury) (write-IsCounted s h l ti)
    | inr (_, e) ↦ rw (e, bury) (write-IsCounted _ (with_tasks s h _ _) l _)
  ]

  pub remote_error-IsCounted :
      (s : State im dm)
      → IsCounted s
      → (now : ℕ) (l r : SocketSpec) (a : SocketAddr) (o : TunnelRemoteOptions)
      → IsCounted (remote_error im dm s now l r a o)
  unfolding remote_error
  remote_error-IsCounted s h now l r a o = elim (Option-cases (dm.get l s.tunnels)) [
    | inl e ↦ rw (e, remote_error) h
    | inr (ti, e) ↦ elim (Option-cases (im.get r (Info.remote_error im ti).remotes)) [
      | inl e' ↦ rw (e, e', remote_error) (write-IsCounted s h l _)
      | inr (x, e') ↦ elim (Bool-cases (is_dead im dm now a o x)) [
        | inl d ↦ rw (e, e', d, remote_error) (bury-IsCounted s h l r o _)
        | inr d ↦ rw (e, e', d, remote_error) (write-IsCounted s h l _)
      ]
    ]
  ]

  recover-IsCounted :
      (s : State im dm) → IsCounted s → (l r : SocketSpec) → IsCounted (recover im dm s l r)
  unfolding recover
  recover-IsCounted s h l r = grind (arith, write-IsCounted s h)

  still_dead-IsCounted :
      (s : State im dm)
      → IsCounted s
      → (now : ℕ) (t : CheckTask) → IsCounted (still_dead im dm s now t)
  unfolding still_dead check_dead
  still_dead-IsCounted s h now t = elim (Option-cases (dm.get t.local s.tunnels)) [
    | inl e ↦ rw (e, still_dead) h
    | inr (ti, e) ↦ elim (Option-cases (im.get t.remote (Info.remote_error im ti).dead_remotes)) [
      | inl e' ↦ rw (e, e', still_dead) (write-IsCounted s h t.local _)
      | inr (_, e') ↦ rw (e, e', still_dead) (write-IsCounted _ (with_tasks s h _ _) t.local _)
    ]
  ]

  pub run_check-IsCounted :
      (s : State im dm)
      → IsCounted s
      → (now : ℕ) (t : CheckTask) (connected : Bool) → IsCounted (run_check im dm s now t connected)
  unfolding run_check
  run_check-IsCounted s h now t true =
      recover-IsCounted _ (with_tasks s h (abort t.handle s.tasks) s.next_handle) t.local t.remote
  run_check-IsCounted s h now t false =
      still_dead-IsCounted _ (with_tasks s h (abort t.handle s.tasks) s.next_handle) now t

  pub new_state-IsCounted :
      (create : Args → Result ClientConfig) (o : TunnelOptions) (args : Args) (s : State im dm)
      → new_state im dm create o args ≡ ok s
      → IsCounted s
  unfolding new_state number_of_tunnels total
  new_state-IsCounted create o args s e = ground (arith, dm.entries-empty {V = TunnelInfo im})

  pub add_tunnel-IsCounted :
      (s : State im dm)
      → IsCounted s
      → (t : Tunnel) (c : WatchSender) → IsCounted (add_tunnel im dm s t c).0
  unfolding add_tunnel number_of_tunnels total ◌+ℤ◌
  add_tunnel-IsCounted s h t c = ground (
    arith,
    dm.length-insert t.local (new_tunnel_info im c t.remote (options_or_default im dm s t.options))
        s.tunnels,
  )

  pub remove_tunnel-IsCounted :
      (s : State im dm) → IsCounted s → (l : SocketSpec) → IsCounted (remove_tunnel im dm s l).0
  unfolding remove_tunnel number_of_tunnels total ◌+ℤ◌
  remove_tunnel-IsCounted s h l = elim (Option-cases (dm.get l s.tunnels)) [
    | inl e ↦ rw (e, remove_tunnel) h
    | inr (ti, e) ↦ rw (e, remove_tunnel) (ground (arith, dm.length-remove l ti s.tunnels e))
  ]
