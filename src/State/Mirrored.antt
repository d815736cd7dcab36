-- ===== src/State/Mirrored.antt =====
-- src/state/info.rs: a tunnel's metric instruments beside its statistics.
pub mod Moves
pub mod Always
use plexy.Prelude.{
  ℕ, ◌+◌, ◌%◌, ◌≡◌, refl, inl, inr, Bool, true, false, List, [], ◌∷◌, Option, none, some, ite,
  arith, option_map, u64_mod, add64, Option-cases, Bool-cases,
}
use plexy.Tunnel.{SocketSpec, SocketSpec-discrete, SocketAddr, TunnelRemoteOptions}
use plexy.Errors.{Result, ok, err, Result-cases}
use plexy.Maps.{KeyedMap, IndexMap}
use plexy.State.Stats.{TunnelStats, TunnelMetrics, Counter}
use plexy.State.Info
use plexy.State.Info.{TunnelInfo, pick_index}
use plexy.State.Store.{
  State, CheckTask, write, add_remote_to_tunnel, remove_remote_from_tunnel, abort,
}
use plexy.State.Streams.{
  start_stream, select_remote, client_connected, remote_connected, update_transferred,
  client_disconnected,
}
use plexy.State.Dead.{remote_error, bury, check_dead, is_dead, run_check, recover, still_dead}
use plexy.State.Failures.{get-write}

-- What was added to a counter.
abbrev pub added : Counter → ℕ
added [] = 0
added (n ∷ ns) = n + added ns

-- The counters of connections and errors total the statistics modulo 2^64; that of the bytes sent
-- totals the bytes of both directions, and nothing was added to that of the bytes received.
pub record IsMirrored (st : TunnelStats) (me : TunnelMetrics) : Type 0 where
  pub connections : st.total_connections ≡ added me.total_connections % u64_mod
  pub errors : st.errors ≡ added me.errors % u64_mod
  pub both_ways : (st.bytes_sent + st.bytes_received) % u64_mod ≡ added me.bytes_sent % u64_mod
  pub none_received : me.bytes_received ≡ []

module _ (im : IndexMap) where
  abbrev pub Mirrors : TunnelInfo im → Type 0
  Mirrors t = IsMirrored t.stats t.metrics

  module _ (t : TunnelInfo im) (h : Mirrors t) where
    client_connected-Mirrors : Mirrors (Info.client_connected im t)
    unfolding Info.client_connected add64
    client_connected-Mirrors = record {
      connections = omega (arith, h.connections);
      errors = h.errors;
      both_ways = h.both_ways;
      none_received = h.none_received;
    }

    client_disconnected-Mirrors : Mirrors (Info.client_disconnected im t)
    unfolding Info.client_disconnected
    client_disconnected-Mirrors = record {
      connections = h.connections;
      errors = h.errors;
      both_ways = h.both_ways;
      none_received = h.none_received;
    }

    pub remote_error-Mirrors : Mirrors (Info.remote_error im t)
    unfolding Info.remote_error add64
    remote_error-Mirrors = record {
      connections = h.connections;
      errors = omega (arith, h.errors);
      both_ways = h.both_ways;
      none_received = h.none_received;
    }

    moved_bytes-Mirrors : (sent : Bool) (n : ℕ) → Mirrors (Info.update_moved_bytes im sent n t)
    unfolding Info.update_moved_bytes add64
    moved_bytes-Mirrors true n = record {
      connections = h.connections;
      errors = h.errors;
      both_ways = omega (arith, h.both_ways);
      none_received = h.none_received;
    }
    moved_bytes-Mirrors false n = record {
      connections = h.connections;
      errors = h.errors;
      both_ways = omega (arith, h.both_ways);
      none_received = h.none_received;
    }

    pub select_remote-Mirrors : (gen_range : ℕ → ℕ) → Mirrors (Info.select_remote im gen_range t).0
    unfolding Info.select_remote
    select_remote-Mirrors gen_range = elim (Result-cases (pick_index im gen_range t)) [
      | inl (i, e) ↦ rw (e, Info.select_remote) h
      | inr (x, e) ↦ rw (e, Info.select_remote) h
    ]

module _ (im : IndexMap) (dm : KeyedMap) where
  pub record AllMirrored (s : State im dm) : Type 0 where
    pub at : (l : SocketSpec) (ti : TunnelInfo im) → dm.get l s.tunnels ≡ some ti → Mirrors im ti

  pub write-AllMirrored :
      (s : State im dm)
      → AllMirrored s
      → (l : SocketSpec) (ti : TunnelInfo im) → Mirrors im ti
      → AllMirrored (write im dm l ti s)
  write-AllMirrored s h l ti p = record {
    at = λ j u e. ground (arith, get-write im dm s l ti j, h.at j u, p);
  }

  pub client_connected-AllMirrored :
      (s : State im dm)
      → AllMirrored s
      → (l : SocketSpec) → AllMirrored (client_connected im dm s l)
  unfolding client_connected
  client_connected-AllMirrored s h l = elim (Option-cases (dm.get l s.tunnels)) [
    | inl e ↦ rw (e, client_connected) h
    | inr (ti, e) ↦
        rw (e, client_connected)
          (write-AllMirrored s h l _ (client_connected-Mirrors im ti (h.at l ti e)))
  ]

  pub remote_connected-AllMirrored :
      (s : State im dm)
      → AllMirrored s
      → (l r : SocketSpec) → AllMirrored (remote_connected im dm s l r)
  unfolding remote_connected
  remote_connected-AllMirrored s h l r = elim (Option-cases (dm.get l s.tunnels)) [
    | inl e ↦ rw (e, remote_connected) h
    | inr (ti, e) ↦ elim (Option-cases (im.get r ti.remotes)) [
      | inl q ↦ rw (e, q, remote_connected) h
      | inr (_, q) ↦ rw (e, q, remote_connected) (write-AllMirrored s h l _ (h.at l ti e))
    ]
  ]

  pub update_transferred-AllMirrored :
      (s : State im dm)
      → AllMirrored s
      → (l r : SocketSpec) (sent : Bool) (n : ℕ)
      → AllMirrored (update_transferred im dm s l r sent n)
  unfolding update_transferred
  update_transferred-AllMirrored s h l r sent n = elim (Option-cases (dm.get l s.tunnels)) [
    | inl e ↦ rw (e, update_transferred) h
    | inr (ti, e) ↦
        let m = moved_bytes-Mirrors im ti (h.at l ti e) sent n in
        elim (Option-cases (im.get r (Info.update_moved_bytes im sent n ti).remotes)) [
          | inl q ↦ rw (e, q, update_transferred) (write-AllMirrored s h l _ m)
          | inr (_, q) ↦ rw (e, q, update_transferred) (write-AllMirrored s h l _ m)
        ]
  ]

  pub client_disconnected-AllMirrored :
      (s : State im dm)
      → AllMirrored s
      → (l : SocketSpec) (r : Option SocketSpec) → AllMirrored (client_disconnected im dm s l r)
  unfolding client_disconnected
  client_disconnected-AllMirrored s h l none = elim (Option-cases (dm.get l s.tunnels)) [
    | inl e ↦ rw (e, client_disconnected) h
    | inr (ti, e) ↦
        rw (e, client_disconnected)
          (write-AllMirrored s h l _ (client_disconnected-Mirrors im ti (h.at l ti e)))
  ]
  client_disconnected-AllMirrored s h l (some r) = elim (Option-cases (dm.get l s.tunnels)) [
    | inl e ↦ rw (e, client_disconnected) h
    | inr (ti, e) ↦
        let m = client_disconnected-Mirrors im ti (h.at l ti e) in
        elim (Option-cases (im.get r (Info.client_disconnected im ti).remotes)) [
          | inl q ↦ rw (e, q, client_disconnected) (write-AllMirrored s h l _ m)
          | inr (_, q) ↦ rw (e, q, client_disconnected) (write-AllMirrored s h l _ m)
        ]
  ]
