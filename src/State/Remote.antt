-- ===== src/State/Remote.antt =====
-- src/state/info.rs, `RemoteInfo`: the statistics of a remote end and their updates.
use plexy.Prelude.{
  ℕ, ◌-◌, ◌^◌, Bool, ◌∷◌, Option, some, add64, sub64, ℤ, pos, negsuc, is_some, leb, sub_ℕ,
  if◌then◌else◌,
}
use plexy.Tunnel.{SocketAddr}
use plexy.State.Stats.{RemoteStats, RemoteMetrics, default_remote_stats, new_remote_metrics}

pub record RemoteInfo : Type 0 where
  pub stats : RemoteStats
  pub metrics : RemoteMetrics

-- `RemoteInfo::new`
abbrev pub new_remote_info : RemoteInfo
new_remote_info = record { stats = default_remote_stats; metrics = new_remote_metrics }

-- - (n as i64), where the cast wraps from 2^63 and so does the negation at 2^63
unfoldable pub neg_as_i64 : ℕ → ℤ
neg_as_i64 n = if leb n (2 ^ 63) then sub_ℕ 0 n else pos (2 ^ 64 - n)

unfoldable pub new_pending_stream : RemoteInfo → RemoteInfo
new_pending_stream r = record {
  stats = record r.stats { streams_pending = add64 r.stats.streams_pending 1 };
  metrics = record r.metrics { streams_pending = pos 1 ∷ r.metrics.streams_pending };
}

unfoldable pub remote_connected : RemoteInfo → RemoteInfo
remote_connected r = record {
  stats = record r.stats {
    streams_open = add64 r.stats.streams_open 1;
    total_connections = add64 r.stats.total_connections 1;
    streams_pending = sub64 r.stats.streams_pending 1;
    num_errors = 0;
  };
  metrics = record r.metrics {
    streams_open = pos 1 ∷ r.metrics.streams_open;
    total_connections = 1 ∷ r.metrics.total_connections;
    streams_pending = negsuc 0 ∷ r.metrics.streams_pending;
    num_errors = neg_as_i64 r.stats.num_errors ∷ r.metrics.num_errors;
  };
}

-- `RemoteInfo::error`; `now` is `SystemTime::now()`.
unfoldable pub error : ℕ → Option SocketAddr → RemoteInfo → RemoteInfo
error now client_addr r = record {
  stats = record r.stats {
    total_errors = add64 r.stats.total_errors 1;
    num_errors = add64 r.stats.num_errors 1;
    last_error_time = some now;
    streams_pending =
        if is_some client_addr then sub64 r.stats.streams_pending 1 else r.stats.streams_pending;
  };
  metrics = record r.metrics {
    total_errors = 1 ∷ r.metrics.total_errors;
    num_errors = pos 1 ∷ r.metrics.num_errors;
    streams_pending =
        if is_some client_addr
        then negsuc 0 ∷ r.metrics.streams_pending
        else r.metrics.streams_pending;
  };
}

unfoldable pub remote_recovered : RemoteInfo → RemoteInfo
remote_recovered r = record {
  stats = record r.stats { num_errors = 0 };
  metrics = record r.metrics { num_errors = neg_as_i64 r.stats.num_errors ∷ r.metrics.num_errors };
}

unfoldable pub update_moved_bytes : Bool → ℕ → RemoteInfo → RemoteInfo
update_moved_bytes sent bytes r =
    if sent
    then record {
      stats = record r.stats { bytes_sent = add64 r.stats.bytes_sent bytes };
      metrics = record r.metrics { bytes_sent = bytes ∷ r.metrics.bytes_sent };
    }
    else record {
      stats = record r.stats { bytes_received = add64 r.stats.bytes_received bytes };
      metrics = record r.metrics { bytes_received = bytes ∷ r.metrics.bytes_received };
    }

unfoldable pub client_disconnected : RemoteInfo → RemoteInfo
client_disconnected r = record {
  stats = record r.stats { streams_open = sub64 r.stats.streams_open 1 };
  metrics = record r.metrics { streams_open = negsuc 0 ∷ r.metrics.streams_open };
}
