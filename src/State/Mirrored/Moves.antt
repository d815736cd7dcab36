-- ===== src/State/Mirrored/Moves.antt =====
-- The operations of src/state.rs that move or choose remotes, and the tunnels' instruments.
use plexy.Prelude.{
  ℕ, refl, inl, inr, Bool, true, false, List, arith, is_some, Option-cases, Bool-cases,
}
use plexy.Tunnel.{SocketSpec, SocketAddr, Tunnel, TunnelRemoteOptions}
use plexy.Errors.{Result, ok, err}
use plexy.Maps.{KeyedMap, IndexMap}
use plexy.State.Info
use plexy.State.Info.{TunnelInfo, WatchSender, new_tunnel_info}
use plexy.State.Store.{
  State, CheckTask, abort, options_or_default, add_tunnel, remove_tunnel, add_remote_to_tunnel,
  remove_remote_from_tunnel,
}
use plexy.State.Streams.{start_stream, select_remote}
use plexy.State.Dead.{remote_error, bury, check_dead, is_dead, run_check, recover, still_dead}
use plexy.State.Mirrored.{
  Mirrors, AllMirrored, write-AllMirrored, remote_error-Mirrors, select_remote-Mirrors,
}

module _ (im : IndexMap) (dm : KeyedMap) (s : State im dm) (h : AllMirrored im dm s) where
  start_stream-AllMirrored :
      (l : SocketSpec) (ti : TunnelInfo im) (r : Result SocketSpec)
      → Mirrors im ti
      → AllMirrored im dm (start_stream im dm s l (ti, r)).0
  unfolding start_stream
  start_stream-AllMirrored l ti (err x) m = write-AllMirrored im dm s h l ti m
  start_stream-AllMirrored l ti (ok k) m = elim (Option-cases (im.get k ti.remotes)) [
    | inl q ↦ rw (q, start_stream) (write-AllMirrored im dm s h l ti m)
    | inr (_, q) ↦ rw (q, start_stream) (write-AllMirrored im dm s h l _ m)
  ]

  pub select_remote-AllMirrored :
      (gen_range : ℕ → ℕ) (l : SocketSpec) → AllMirrored im dm (select_remote im dm s gen_range l).0
  unfolding select_remote
  select_remote-AllMirrored gen_range l = elim (Option-cases (dm.get l s.tunnels)) [
    | inl e ↦ rw (e, select_remote) h
    | inr (ti, e) ↦
        rw (e, select_remote)
          (start_stream-AllMirrored l (Info.select_remote im gen_range ti).0
            (Info.select_remote im gen_range ti).1
            (select_remote-Mirrors im ti (h.at l ti e) gen_range))
  ]

  pub add_remote-AllMirrored :
      (l r : SocketSpec) → AllMirrored im dm (add_remote_to_tunnel im dm s l r).0
  unfolding add_remote_to_tunnel
  add_remote-AllMirrored l r = elim (Option-cases (dm.get l s.tunnels)) [
    | inl e ↦ rw (e, add_remote_to_tunnel) h
    | inr (ti, e) ↦ elim (Option-cases (im.get r ti.remotes)) [
      | inr (_, q) ↦ rw (e, q, add_remote_to_tunnel) h
      | inl q ↦ elim (Option-cases (im.get r ti.dead_remotes)) [
        | inr (_, p) ↦ rw (e, q, p, add_remote_to_tunnel) h
        | inl p ↦ rw (e, q, p, add_remote_to_tunnel) (write-AllMirrored im dm s h l _ (h.at l ti e))
      ]
    ]
  ]

  pub remove_remote-AllMirrored :
      (l r : SocketSpec) → AllMirrored im dm (remove_remote_from_tunnel im dm s l r).0
  unfolding remove_remote_from_tunnel
  remove_remote-AllMirrored l r = elim (Option-cases (dm.get l s.tunnels)) [
    | inl e ↦ rw (e, remove_remote_from_tunnel) h
    | inr (ti, e) ↦ elim (Option-cases (im.get r ti.remotes)) [
      | inr (_, q) ↦
          rw (e, q, remove_remote_from_tunnel) (write-AllMirrored im dm s h l _ (h.at l ti e))
      | inl q ↦ elim (Option-cases (im.get r ti.dead_remotes)) [
        | inl p ↦ rw (e, q, p, remove_remote_from_tunnel) h
        | inr (_, p) ↦
            rw (e, q, p, remove_remote_from_tunnel) (write-AllMirrored im dm s h l _ (h.at l ti e))
      ]
    ]
  ]

  -- The tasks do not matter.
  with_tasks :
      (ts : List CheckTask) (n : ℕ) → AllMirrored im dm (record s { tasks = ts; next_handle = n })
  with_tasks ts n = record { at = h.at }

  bury-AllMirrored :
      (l r : SocketSpec) (o : TunnelRemoteOptions) (ti : TunnelInfo im)
      → Mirrors im ti
      → AllMirrored im dm (bury im dm s l r o ti)
  unfolding bury check_dead
  bury-AllMirrored l r o ti m = elim (Option-cases (im.get r ti.remotes)) [
    | inl q ↦ rw (q, bury) (write-AllMirrored im dm s h l ti m)
    | inr (_, q) ↦ rw (q, bury) (write-AllMirrored im dm _ (with_tasks _ _) l _ m)
  ]

  pub remote_error-AllMirrored :
      (now : ℕ) (l r : SocketSpec) (a : SocketAddr) (o : TunnelRemoteOptions)
      → AllMirrored im dm (remote_error im dm s now l r a o)
  unfolding remote_error
  remote_error-AllMirrored now l r a o = elim (Option-cases (dm.get l s.tunnels)) [
    | inl e ↦ rw (e, remote_error) h
    | inr (ti, e) ↦
        let m = remote_error-Mirrors im ti (h.at l ti e) in
        elim (Option-cases (im.get r (Info.remote_error im ti).remotes)) [
          | inl q ↦ rw (e, q, remote_error) (write-AllMirrored im dm s h l _ m)
          | inr (x, q) ↦ elim (Bool-cases (is_dead im dm now a o x)) [
            | inl d ↦ rw (e, q, d, remote_error) (bury-AllMirrored l r o _ m)
            | inr d ↦ rw (e, q, d, remote_error) (write-AllMirrored im dm s h l _ m)
          ]
        ]
  ]

  recover-AllMirrored : (l r : SocketSpec) → AllMirrored im dm (recover im dm s l r)
  unfolding recover
  recover-AllMirrored l r = elim (Option-cases (dm.get l s.tunnels)) [
    | inl e ↦ rw (e, recover) h
    | inr (ti, e) ↦ elim (Option-cases (im.get r ti.dead_remotes)) [
      | inl q ↦ rw (e, q, recover) h
      | inr (_, q) ↦ rw (e, q, recover) (write-AllMirrored im dm s h l _ (h.at l ti e))
    ]
  ]

  still_dead-AllMirrored : (now : ℕ) (t : CheckTask) → AllMirrored im dm (still_dead im dm s now t)
  unfolding still_dead check_dead
  still_dead-AllMirrored now t = elim (Option-cases (dm.get t.local s.tunnels)) [
    | inl e ↦ rw (e, still_dead) h
    | inr (ti, e) ↦
        let m = remote_error-Mirrors im ti (h.at t.local ti e) in
        elim (Option-cases (im.get t.remote (Info.remote_error im ti).dead_remotes)) [
          | inl q ↦ rw (e, q, still_dead) (write-AllMirrored im dm s h t.local _ m)
          | inr (_, q) ↦
              rw (e, q, still_dead) (write-AllMirrored im dm _ (with_tasks _ _) t.local _ m)
        ]
  ]

  pub add_tunnel-AllMirrored :
      (t : Tunnel) (c : WatchSender) → AllMirrored im dm (add_tunnel im dm s t c).0
  unfolding add_tunnel new_tunnel_info
  add_tunnel-AllMirrored t c = elim (Bool-cases (is_some (dm.get t.local s.tunnels))) [
    | inl e ↦ rw (e, add_tunnel) h
    | inr e ↦
        let ti = new_tunnel_info im c t.remote (options_or_default im dm s t.options) in
        let fresh : Mirrors im ti = record {
          connections = refl;
          errors = refl;
          both_ways = refl;
          none_received = refl;
        } in
        rw (e, add_tunnel)
          (record {
            at = λ j u p. ground (arith, dm.get-insert t.local j ti s.tunnels, h.at j u, fresh);
          })
  ]

  pub remove_tunnel-AllMirrored : (l : SocketSpec) → AllMirrored im dm (remove_tunnel im dm s l).0
  unfolding remove_tunnel
  remove_tunnel-AllMirrored l = elim (Option-cases (dm.get l s.tunnels)) [
    | inl e ↦ rw (e, remove_tunnel) h
    | inr (ti, e) ↦
        rw (e, remove_tunnel)
          (record { at = λ j u p. ground (arith, dm.get-remove l j s.tunnels, h.at j u) })
  ]

module _ (im : IndexMap) (dm : KeyedMap) (s : State im dm) (h : AllMirrored im dm s) where
  pub run_check-AllMirrored :
      (now : ℕ) (t : CheckTask) (connected : Bool)
      → AllMirrored im dm (run_check im dm s now t connected)
  unfolding run_check
  run_check-AllMirrored now t true =
      recover-AllMirrored im dm _ (with_tasks im dm s h (abort t.handle s.tasks) s.next_handle)
        t.local t.remote
  run_check-AllMirrored now t false =
      still_dead-AllMirrored im dm _ (with_tasks im dm s h (abort t.handle s.tasks) s.next_handle)
        now t
