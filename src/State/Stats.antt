-- ===== src/State/Stats.antt =====
-- src/state/stats.rs: the statistics and the metric instruments of tunnels and remotes.
use plexy.Prelude.{ℕ, List, [], Option, none, ℤ}

pub record TunnelStats : Type 0 where
  pub bytes_sent : ℕ
  pub streams_open : ℕ
  pub bytes_received : ℕ
  pub total_connections : ℕ
  pub errors : ℕ

-- An instrument is known by the amounts that were added to it, newest first.
abbrev pub Counter : Type 0
Counter = List ℕ

abbrev pub UpDownCounter : Type 0
UpDownCounter = List ℤ

pub record TunnelMetrics : Type 0 where
  pub bytes_sent : Counter
  pub streams_open : UpDownCounter
  pub bytes_received : Counter
  pub total_connections : Counter
  pub errors : Counter

pub record RemoteStats : Type 0 where
  pub bytes_sent : ℕ
  pub streams_open : ℕ
  pub streams_pending : ℕ
  pub bytes_received : ℕ
  pub total_connections : ℕ
  -- a `SystemTime`, in milliseconds from the epoch
  pub last_error_time : Option ℕ
  pub num_errors : ℕ
  pub total_errors : ℕ

pub record RemoteMetrics : Type 0 where
  pub bytes_sent : Counter
  pub streams_open : UpDownCounter
  pub streams_pending : UpDownCounter
  pub bytes_received : Counter
  pub total_connections : Counter
  pub num_errors : UpDownCounter
  pub total_errors : Counter

-- `TunnelStats::default`
abbrev pub default_tunnel_stats : TunnelStats
default_tunnel_stats = record {
  bytes_sent = 0;
  streams_open = 0;
  bytes_received = 0;
  total_connections = 0;
  errors = 0;
}

-- `TunnelMetrics::new`
abbrev pub new_tunnel_metrics : TunnelMetrics
new_tunnel_metrics = record {
  bytes_sent = [];
  streams_open = [];
  bytes_received = [];
  total_connections = [];
  errors = [];
}

-- `RemoteStats::default`
abbrev pub default_remote_stats : RemoteStats
default_remote_stats = record {
  bytes_sent = 0;
  streams_open = 0;
  streams_pending = 0;
  bytes_received = 0;
  total_connections = 0;
  last_error_time = none;
  num_errors = 0;
  total_errors = 0;
}

-- `RemoteMetrics::new`
abbrev pub new_remote_metrics : RemoteMetrics
new_remote_metrics = record {
  bytes_sent = [];
  streams_open = [];
  streams_pending = [];
  bytes_received = [];
  total_connections = [];
  num_errors = [];
  total_errors = [];
}
