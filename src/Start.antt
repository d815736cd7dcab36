-- ===== src/Start.antt =====
-- src/main.rs and src/config.rs: the start of the program, from its arguments to its tunnels.
pub mod Runs
pub mod Examples
use plexy.Prelude.{ℕ, suc, Bool, false, List, [], ◌∷◌, Option, none, some, Text, if◌then◌else◌}
use plexy.Strategy.{default_strategy}
use plexy.Tunnel.{SocketSpec, F32, Tunnel, TunnelOptions}
use plexy.Tunnel.Specs.{tunnel_from_str}
use plexy.Errors.{Result, ok, err, ◌>>=◌}
use plexy.Config.{Args}
use plexy.Maps.{KeyedMap, IndexMap}
use plexy.Nom.{Nom}
use plexy.State.Info.{WatchSender}
use plexy.State.Store.{State, ClientConfig, new_state}
use plexy.Proxy.{create_tunnel}

-- The argument of `set_default_tunnel_options`.
abbrev pub cli_options : Args → TunnelOptions
cli_options args = record {
  lb_strategy = default_strategy;
  remote_connect_retries = args.remote_retries;
  options = record {
    connect_timeout = args.remote_timeout;
    errors_till_dead = args.remote_errors;
    dead_retry = args.remote_dead_check_interval;
    tls = false;
  };
}

module _ (nom : Nom) (parse_f32 : Text → Option F32) (default : TunnelOptions) where
  -- `tunnels.into_iter().map(|s| s.parse()).collect()`
  unfoldable pub parse_tunnels : List Text → Result (List Tunnel)
  parse_tunnels [] = ok []
  parse_tunnels (x ∷ xs) =
      let rest = parse_tunnels xs in
      tunnel_from_str nom parse_f32 default x >>= λ t. rest >>= λ ts. ok (t ∷ ts)

  -- `Args::take_tunnels`: the arguments afterwards, and the tunnels.
  unfoldable pub take_tunnels : Args → Args × Result (List Tunnel)
  unfolding parse_tunnels
  take_tunnels args = (
    record args { tunnels = none },
    elim args.tunnels [ none ↦ ok [] | some tunnels ↦ parse_tunnels tunnels ],
  )

module _ (im : IndexMap) (dm : KeyedMap) where
  -- What the start of one tunnel meets: the other tasks before it and while its listener is bound, the
  -- outcome, and the channel of the tunnel.
  pub record Launch : Type 0 where
    pub waiting : State im dm → State im dm
    pub binding : State im dm → State im dm
    pub bound : Result (Unit {0})
    pub sender : WatchSender

  -- `for tunnel in tunnels`; the errors are logged.
  unfoldable pub launch : (ℕ → Launch) → List Tunnel → State im dm → State im dm
  launch o [] s = s
  launch o (t ∷ ts) s =
      launch (λ n. o (suc n)) ts
        (create_tunnel im dm (o 0).binding (o 0).bound (o 0).sender ((o 0).waiting s) t).0

  -- `main`, up to its last wait: nothing if only help was wanted, else the state that the servers and
  -- the tunnels share. The servers are among the other tasks.
  unfoldable pub run_main :
      Nom
      → (Text → Option F32)
      → (Args → Result ClientConfig)
      → (ℕ → Launch)
      → Args
      → Result (Option (State im dm))
  unfolding take_tunnels
  run_main nom parse_f32 create_client_config o args =
      let (args', tunnels) = take_tunnels nom parse_f32 (cli_options args) args in
      if args.help_tunnel
      then ok none
      else (tunnels >>= λ ts. new_state im dm create_client_config (cli_options args) args' >>= λ s.
          ok (some (launch o ts s)))
