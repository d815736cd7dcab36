-- ===== src/Config.antt =====
-- src/config.rs: the command line arguments.
use plexy.Prelude.{ℕ, Text, Bool, false, List, Option, none}
use plexy.Tunnel.{F32, f32_ten}

-- Socket addresses and paths are kept as text.
pub record Args : Type 0 where
  pub control_socket : Option Text
  pub rpc_socket : Option Text
  pub tunnels : Option (List Text)
  pub copy_buffer_size : ℕ
  pub remote_timeout : F32
  pub remote_retries : ℕ
  pub remote_errors : ℕ
  pub remote_dead_check_interval : F32
  pub help_tunnel : Bool
  pub ca_bundle : Option Text
  pub prometheus_socket : Option Text

-- `Args::default`
abbrev pub default_args : Args
default_args = record {
  control_socket = none;
  rpc_socket = none;
  tunnels = none;
  copy_buffer_size = 8192;
  remote_timeout = f32_ten;
  remote_retries = 3;
  remote_errors = 1;
  remote_dead_check_interval = f32_ten;
  help_tunnel = false;
  ca_bundle = none;
  prometheus_socket = none;
}
