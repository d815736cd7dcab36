-- ===== src/Proxy/Counts.antt =====
-- src/state.rs: what the calls of the task of a connection do to a tunnel's count of open streams, and
-- that they keep its `connect_timeout`.
use plexy.Prelude.{
  ℕ, ◌≡◌, refl, sym, ap, ◌∙◌, inl, inr, Option, none, some, arith, option_map, add64, sub64,
  Bool-cases, Option-cases,
}
use plexy.Tunnel.{SocketSpec, SocketAddr, F32, TunnelRemoteOptions}
use plexy.Errors.{Result, ok, err, Result-cases}
use plexy.Maps.{KeyedMap, IndexMap}
use plexy.State.Info
use plexy.State.Info.{TunnelInfo, pick_index}
use plexy.State.Store.{State, write}
use plexy.State.Streams.{
  start_stream, select_remote, client_connected, remote_connected, client_disconnected,
}
use plexy.State.Dead.{remote_error, bury, check_dead, is_dead}
use plexy.State.Failures.{get-write}

module _ (im : IndexMap) (dm : KeyedMap) (l : SocketSpec) where
  abbrev pub Watched : Type 0
  Watched = ℕ × F32

  abbrev pub watched : TunnelInfo im → Watched
  watched t = (t.stats.streams_open, t.options.options.connect_timeout)

  -- The count of open streams of the tunnel `l` and its `connect_timeout`, if it is open.
  abbrev pub open_streams : State im dm → Option Watched
  open_streams s = option_map watched (dm.get l s.tunnels)

  write-open :
      (s : State im dm) (ti u : TunnelInfo im)
      → dm.get l s.tunnels ≡ some ti
      → open_streams (write im dm l u s) ≡ some (watched u)
  write-open s ti u e = ground (arith, get-write im dm s l u l)

  same_open :
      (s : State im dm) (ti u : TunnelInfo im)
      → dm.get l s.tunnels ≡ some ti
      → watched u ≡ watched ti
      → open_streams (write im dm l u s) ≡ open_streams s
  same_open s ti u e p = write-open s ti u e ∙ ap some p ∙ sym (ap (option_map watched) e)

  picked-open :
      (gen_range : ℕ → ℕ) (ti : TunnelInfo im)
      → watched (Info.select_remote im gen_range ti).0 ≡ watched ti
  unfolding Info.select_remote
  picked-open gen_range ti = elim (Result-cases (pick_index im gen_range ti)) [
    | inl (i, e) ↦ rw (e, Info.select_remote) refl
    | inr (x, e) ↦ rw (e, Info.select_remote) refl
  ]

  start_stream-open :
      (s : State im dm) (old ti : TunnelInfo im) (r : Result SocketSpec)
      → dm.get l s.tunnels ≡ some old
      → open_streams (start_stream im dm s l (ti, r)).0 ≡ some (watched ti)
  unfolding start_stream
  start_stream-open s old ti (err x) e = write-open s old ti e
  start_stream-open s old ti (ok k) e = elim (Option-cases (im.get k ti.remotes)) [
    | inl q ↦ rw (q, start_stream) (write-open s old _ e)
    | inr (_, q) ↦ rw (q, start_stream) (write-open s old _ e)
  ]

  abbrev count : Option (TunnelInfo im) → Option Watched
  count = option_map watched

  pub select_remote-open :
      (s : State im dm) (gen_range : ℕ → ℕ)
      → open_streams (select_remote im dm s gen_range l).0 ≡ open_streams s
  unfolding select_remote
  select_remote-open s gen_range = elim (Option-cases (dm.get l s.tunnels)) [
    | inl e ↦ rw (e, select_remote) (ap count e)
    | inr (ti, e) ↦
        rw (e, select_remote)
          (start_stream-open s ti (Info.select_remote im gen_range ti).0
              (Info.select_remote im gen_range ti).1 e
            ∙ ap some (picked-open gen_range ti))
  ]

  pub remote_connected-open :
      (s : State im dm) (r : SocketSpec)
      → open_streams (remote_connected im dm s l r) ≡ open_streams s
  unfolding remote_connected
  remote_connected-open s r = elim (Option-cases (dm.get l s.tunnels)) [
    | inl e ↦ rw (e, remote_connected) (ap count e)
    | inr (ti, e) ↦ elim (Option-cases (im.get r ti.remotes)) [
      | inl q ↦ rw (e, q, remote_connected) (ap count e)
      | inr (_, q) ↦ rw (e, q, remote_connected) (write-open s ti _ e)
    ]
  ]

  bury-open :
      (s : State im dm) (r : SocketSpec) (o : TunnelRemoteOptions) (old ti : TunnelInfo im)
      → dm.get l s.tunnels ≡ some old
      → open_streams (bury im dm s l r o ti) ≡ some (watched ti)
  unfolding bury check_dead
  bury-open s r o old ti e = elim (Option-cases (im.get r ti.remotes)) [
    | inl q ↦ rw (q, bury) (write-open s old ti e)
    | inr (_, q) ↦ rw (q, bury) (write-open _ old _ e)
  ]

  pub remote_error-open :
      (s : State im dm) (now : ℕ) (r : SocketSpec) (a : SocketAddr) (o : TunnelRemoteOptions)
      → open_streams (remote_error im dm s now l r a o) ≡ open_streams s
  unfolding remote_error Info.remote_error
  remote_error-open s now r a o = elim (Option-cases (dm.get l s.tunnels)) [
    | inl e ↦ rw (e, remote_error) (ap count e)
    | inr (ti, e) ↦ elim (Option-cases (im.get r ti.remotes)) [
      | inl q ↦ rw (e, q, remote_error) (write-open s ti _ e)
      | inr (x, q) ↦ elim (Bool-cases (is_dead im dm now a o x)) [
        | inl d ↦ rw (e, q, d, remote_error) (bury-open s r o ti _ e)
        | inr d ↦ rw (e, q, d, remote_error) (write-open s ti _ e)
      ]
    ]
  ]

  client_disconnected-open :
      (s : State im dm) (last_remote : Option SocketSpec) (ti : TunnelInfo im)
      → dm.get l s.tunnels ≡ some ti
      → open_streams (client_disconnected im dm s l last_remote)
        ≡ some (sub64 ti.stats.streams_open 1, (watched ti).1)
  unfolding client_disconnected Info.client_disconnected
  client_disconnected-open s none ti e = rw (e, client_disconnected) (write-open s ti _ e)
  client_disconnected-open s (some r) ti e = elim (Option-cases (im.get r ti.remotes)) [
    | inl q ↦ rw (e, q, client_disconnected) (write-open s ti _ e)
    | inr (_, q) ↦ rw (e, q, client_disconnected) (write-open s ti _ e)
  ]

  pub open-tunnel :
      (s : State im dm) (w : Watched)
      → open_streams s ≡ some w
      → (ti : TunnelInfo im) × (dm.get l s.tunnels ≡ some ti) × (watched ti ≡ w)
  open-tunnel s w h = elim (Option-cases (dm.get l s.tunnels)) [
    | inl e ↦ absurd (ground arith)
    | inr (ti, e) ↦ (ti, e, ground arith)
  ]

  pub disconnected :
      (s : State im dm) (last_remote : Option SocketSpec) (w : Watched)
      → open_streams s ≡ some w
      → open_streams (client_disconnected im dm s l last_remote) ≡ some (sub64 w.0 1, w.1)
  disconnected s last_remote w h =
      let (ti, e, p) = open-tunnel s w h in
      client_disconnected-open s last_remote ti e ∙ ap (λ (v : Watched). some (sub64 v.0 1, v.1)) p

  pub connected :
      (s : State im dm) (ti : TunnelInfo im)
      → dm.get l s.tunnels ≡ some ti
      → open_streams (client_connected im dm s l)
        ≡ some (add64 ti.stats.streams_open 1, (watched ti).1)
  unfolding client_connected Info.client_connected
  connected s ti e = rw (e, client_connected) (write-open s ti _ e)

  start_stream-options :
      (s : State im dm) (ti : TunnelInfo im) (r : Result SocketSpec) (k : SocketSpec)
      (o : TunnelRemoteOptions)
      → (start_stream im dm s l (ti, r)).1 ≡ ok (k, o)
      → ti.options.options ≡ o
  unfolding start_stream
  start_stream-options s ti (err x) k o e = cc
  start_stream-options s ti (ok i) k o e = elim (Option-cases (im.get i ti.remotes)) [
    | inl q ↦ absurd (let e' = rw (q, start_stream) at e in cc)
    | inr (_, q) ↦ let e' = rw (q, start_stream) at e in cc
  ]

  -- A selection answers with the options of the tunnel.
  pub select_remote-timeout :
      (s : State im dm) (gen_range : ℕ → ℕ) (w : Watched) (k : SocketSpec) (o : TunnelRemoteOptions)
      → open_streams s ≡ some w
      → (select_remote im dm s gen_range l).1 ≡ ok (k, o)
      → o.connect_timeout ≡ w.1
  unfolding select_remote
  select_remote-timeout s gen_range w k o h e =
      let (ti, f, p) = open-tunnel s w h in
      let q =
        start_stream-options s (Info.select_remote im gen_range ti).0
          (Info.select_remote im gen_range ti).1 k o (rw (f, select_remote) at e) in
      sym (ap (λ (x : TunnelRemoteOptions). x.connect_timeout) q)
      ∙ ap (λ (v : Watched). v.1) (picked-open gen_range ti)
      ∙ ap (λ (v : Watched). v.1) p
