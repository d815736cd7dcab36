-- ===== src/State/Info.antt =====
-- src/state/info.rs, `TunnelInfo`, and the selection by src/state/strategy.rs.
use plexy.Prelude.{
  ℕ, ◌+◌, ◌-◌, ◌%◌, Bool, List, [], ◌∷◌, Option, none, some, add64, sub64, u64_mod, pos, negsuc,
  ltb, ◌==◌, length, if◌then◌else◌,
}
use plexy.Strategy.{TunnelLbStrategy, random, round_robin, minimum_open_connections}
use plexy.Tunnel.{SocketSpec, TunnelOptions}
use plexy.Errors.{Result, ok, err, no_remote}
use plexy.Maps.{IndexMap}
use plexy.State.Stats.{TunnelStats, TunnelMetrics, default_tunnel_stats, new_tunnel_metrics}
use plexy.State.Remote.{RemoteInfo, new_remote_info}

-- A spawned task, known by its handle.
abbrev pub JoinHandle : Type 0
JoinHandle = ℕ

-- The sending half of a watch channel, known by its channel.
abbrev pub WatchSender : Type 0
WatchSender = ℕ

pub record DeadRemote : Type 0 where
  pub remote : RemoteInfo
  pub join_handle : Option JoinHandle

-- The implementations of the trait `LBStrategy`.
pub data LbStrategy : Type 0 where
  random_strategy round_robin_strategy minimum_open_connections_strategy : LbStrategy

-- `TunnelLBStrategy::create`
abbrev pub create_strategy : TunnelLbStrategy → LbStrategy
create_strategy random = random_strategy
create_strategy round_robin = round_robin_strategy
create_strategy minimum_open_connections = minimum_open_connections_strategy

pub record TunnelInfo (im : IndexMap) : Type 0 where
  pub stats : TunnelStats
  pub metrics : TunnelMetrics
  pub close_channel : WatchSender
  pub remotes : im.Map RemoteInfo
  pub dead_remotes : im.Map DeadRemote
  pub options : TunnelOptions
  pub lb_strategy : LbStrategy
  pub last_selected_index : Option ℕ

-- `r.stats.streams_open + r.stats.streams_pending`, in usize
unfoldable pub open_connections : RemoteInfo → ℕ
open_connections r = add64 r.stats.streams_open r.stats.streams_pending

-- The loop of `MinimumOpenConnections::select_remote`, from index `idx` on.
unfoldable pub min_loop : List (SocketSpec × RemoteInfo) → ℕ → ℕ → ℕ → ℕ
min_loop [] idx min_idx min_val = min_idx
min_loop ((_, r) ∷ rest) idx min_idx min_val =
    let open_conns = open_connections r in
    let less = ltb open_conns min_val in
    let go =
      min_loop rest (idx + 1) (if less then idx else min_idx)
        (if less then open_conns else min_val) in
    if open_conns == 0 then idx else go

module _ (im : IndexMap) where
  open im use {Map, empty, get, insert, get_index, entries}

  -- `remotes.into_iter().map(|k| (k, RemoteInfo::new(state))).collect()`
  unfoldable pub collect_remotes : List SocketSpec → Map RemoteInfo → Map RemoteInfo
  collect_remotes [] m = m
  collect_remotes (k ∷ ks) m = collect_remotes ks (insert k new_remote_info m)

  -- `TunnelInfo::new`
  unfoldable pub new_tunnel_info : WatchSender → List SocketSpec → TunnelOptions → TunnelInfo im
  new_tunnel_info close_channel remotes options = record {
    stats = default_tunnel_stats;
    metrics = new_tunnel_metrics;
    close_channel = close_channel;
    remotes = collect_remotes remotes empty;
    dead_remotes = empty;
    options = options;
    lb_strategy = create_strategy options.lb_strategy;
    last_selected_index = none;
  }

  abbrev pub size : TunnelInfo im → ℕ
  size t = length (entries t.remotes)

  -- `last_selected_index.unwrap_or_else(|| tunnel.remotes.len().saturating_sub(1))`
  unfoldable pub last_index : TunnelInfo im → ℕ
  last_index t = elim t.last_selected_index [ none ↦ size t - 1 | some i ↦ i ]

  -- `LBStrategy::select_remote` of the three strategies. `gen_range n` is the number drawn by
  -- `rand::thread_rng().gen_range(0..n)`.
  unfoldable pub strategy_select : LbStrategy → (ℕ → ℕ) → TunnelInfo im → Result ℕ
  strategy_select random_strategy gen_range t = ok (gen_range (size t))
  strategy_select round_robin_strategy gen_range t = ok (add64 (last_index t) 1 % size t)
  strategy_select minimum_open_connections_strategy gen_range t =
      ok (min_loop (entries t.remotes) 0 0 (u64_mod - 1))

  -- `remotes.get_index(idx).map(|(k, _)| k).ok_or(Error::NoRemote).cloned()`
  unfoldable pub key_at : ℕ → TunnelInfo im → Result SocketSpec
  key_at idx t = elim (get_index idx t.remotes) [ none ↦ err no_remote | some e ↦ ok e.0 ]

  -- The index that `TunnelInfo::select_remote` picks.
  unfoldable pub pick_index : (ℕ → ℕ) → TunnelInfo im → Result ℕ
  unfolding strategy_select
  pick_index gen_range t =
      if size t == 0
      then err no_remote
      else if size t == 1
      then ok 0
      else strategy_select t.lb_strategy gen_range t

  -- `TunnelInfo::select_remote`: the tunnel afterwards, and the result.
  unfoldable pub select_remote : (ℕ → ℕ) → TunnelInfo im → TunnelInfo im × Result SocketSpec
  unfolding pick_index key_at
  select_remote gen_range t = elim (pick_index gen_range t) [
    | err e ↦ (t, err e)
    | ok idx ↦ (record t { last_selected_index = some idx }, key_at idx t)
  ]

  unfoldable pub client_connected : TunnelInfo im → TunnelInfo im
  client_connected t = record t {
    stats = record t.stats {
      total_connections = add64 t.stats.total_connections 1;
      streams_open = add64 t.stats.streams_open 1;
    };
    metrics = record t.metrics {
      total_connections = 1 ∷ t.metrics.total_connections;
      streams_open = pos 1 ∷ t.metrics.streams_open;
    };
  }

  unfoldable pub client_disconnected : TunnelInfo im → TunnelInfo im
  client_disconnected t = record t {
    stats = record t.stats { streams_open = sub64 t.stats.streams_open 1 };
    metrics = record t.metrics { streams_open = negsuc 0 ∷ t.metrics.streams_open };
  }

  unfoldable pub remote_error : TunnelInfo im → TunnelInfo im
  remote_error t = record t {
    stats = record t.stats { errors = add64 t.stats.errors 1 };
    metrics = record t.metrics { errors = 1 ∷ t.metrics.errors };
  }

  -- Both branches add to the instrument `bytes_sent`.
  unfoldable pub update_moved_bytes : Bool → ℕ → TunnelInfo im → TunnelInfo im
  update_moved_bytes sent bytes t =
      if sent
      then record t {
        stats = record t.stats { bytes_sent = add64 t.stats.bytes_sent bytes };
        metrics = record t.metrics { bytes_sent = bytes ∷ t.metrics.bytes_sent };
      }
      else record t {
        stats = record t.stats { bytes_received = add64 t.stats.bytes_received bytes };
        metrics = record t.metrics { bytes_sent = bytes ∷ t.metrics.bytes_sent };
      }
