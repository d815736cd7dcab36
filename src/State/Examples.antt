-- ===== src/State/Examples.antt =====
-- A run of the state of src/state.rs with two remotes, one of which dies and is checked.
mod Changes
use plexy.Prelude.{
  ℕ, suc, ◌<◌, ◌-◌, ◌≡◌, refl, Bool, true, false, add64, ℕ_discrete, List, [], ◌∷◌, Option, none,
  some, arith, codes, length, u64_mod, ltb, leb,
}
use plexy.Strategy.{
  TunnelLbStrategy, round_robin, strategy_from_str, strategy_to_string, strategy_from_str-to_string,
}
use plexy.Tunnel.{
  SocketSpec, SocketSpec-discrete, SocketAddr, Tunnel, TunnelOptions, TunnelRemoteOptions,
  default_tunnel_options, f32_ten,
}
use plexy.Errors.{Result, ok, err, no_remote}
use plexy.Config.{Args, default_args}
use plexy.Maps.Assoc.{Assoc, assoc_map, assoc_index_map}
use plexy.State.Info
use plexy.State.Info.{
  TunnelInfo, round_robin_strategy, new_tunnel_info, collect_remotes, size, last_index, min_loop,
  open_connections,
}
use plexy.State.Remote
use plexy.State.Remote.{RemoteInfo, new_remote_info}
use plexy.State.Store.{
  State, CheckTask, ClientConfig, new_state, add_tunnel, write, options_or_default, abort,
  find_task,
}
use plexy.State.Streams.{select_remote, client_connected}
use plexy.State.Dead.{remote_error, run_check, tls_config, is_dead, bury}
use plexy.State.Steps.{
  Step, Reach, Runs, adds_tunnel, selects, connects_client, fails_remote, checks, here, next, runs,
}
use plexy.State.Separate.{AllSeparate}
use plexy.State.Separate.Always.{Runs-AllSeparate}
use plexy.State.Watched.{AllWatched}
use plexy.State.Watched.Always.{Runs-AllWatched}
use plexy.State.Select.Strategies.{IsGenRange, IsFirstMin, min_loop-IsFirstMin}
use plexy.State.Select.Streams.{IsSelected, select_remote-IsSelected, select_remote_no_remote}
use plexy.State.Select.Cycle.{selected_times, round_robin_visits}

abbrev pub spec : ℕ → SocketSpec
spec n = record { inner = n ∷ [] }

abbrev pub options : TunnelOptions
options = record default_tunnel_options { lb_strategy = round_robin }

abbrev pub two_remotes : Tunnel
two_remotes = record { local = spec 1; remote = spec 2 ∷ spec 3 ∷ []; options = some options }

abbrev pub create : Args → Result ClientConfig
create _ = ok 5

abbrev pub Demo : Type 0
Demo = State assoc_index_map assoc_map

abbrev pub started : Demo
started = record {
  tunnels = record { items = []; distinct = tt };
  config = default_args;
  client_ssl_config = 5;
  tunnels_counter = [];
  default_options = default_tunnel_options;
  tasks = [];
  next_handle = 0;
}

abbrev pub opened : Demo
opened = (add_tunnel assoc_index_map assoc_map started two_remotes 7).0

abbrev selected : Demo
selected = (select_remote assoc_index_map assoc_map opened (λ _. 0) (spec 1)).0

abbrev failed : Demo
failed =
    remote_error assoc_index_map assoc_map selected 100 (spec 1) (spec 2) (codes "c")
      options.options

-- The remote that failed is dead: its task runs.
abbrev pub check : CheckTask
check = record {
  handle = 0;
  local = spec 1;
  remote = spec 2;
  timeout = f32_ten;
  after = f32_ten;
  tls_config = none;
}

abbrev pub checked : Demo
checked = run_check assoc_index_map assoc_map failed 200 check false

pub started_new :
    new_state assoc_index_map assoc_map create default_tunnel_options default_args ≡ ok started
unfolding new_state
started_new = refl

check_runs : find_task 0 failed.tasks ≡ some check
unfolding find_task remote_error select_remote add_tunnel SocketSpec-discrete ℕ_discrete
    Info.select_remote new_tunnel_info collect_remotes options_or_default add64 last_index write
    Info.remote_error Remote.error Remote.new_pending_stream
check_runs = refl

pub demo_steps : Reach assoc_index_map assoc_map started checked
demo_steps =
    next
      (next (next (next here (adds_tunnel two_remotes 7)) (selects (λ _. 0) (spec 1)))
        (fails_remote 100 (spec 1) (spec 2) (codes "c") options.options))
      (checks 200 0 check false check_runs)

pub demo_run : Runs assoc_index_map assoc_map checked
demo_run = runs create default_tunnel_options default_args started started_new demo_steps

Runs-AllSeparate_example : AllSeparate assoc_index_map assoc_map checked
Runs-AllSeparate_example = Runs-AllSeparate assoc_index_map assoc_map demo_run

Runs-AllWatched_example : AllWatched assoc_index_map assoc_map checked
Runs-AllWatched_example = Runs-AllWatched assoc_index_map assoc_map demo_run

abbrev pub tunnel_info : TunnelInfo assoc_index_map
tunnel_info = new_tunnel_info assoc_index_map 7 two_remotes.remote options

abbrev no_remotes : TunnelInfo assoc_index_map
no_remotes = new_tunnel_info assoc_index_map 7 [] options

abbrev empty_tunnel : Tunnel
empty_tunnel = record { local = spec 1; remote = []; options = some options }

-- `opened` again, with a tunnel that has no remote.
abbrev opened_empty : Demo
opened_empty = (add_tunnel assoc_index_map assoc_map started empty_tunnel 7).0

pub opened_tunnel : assoc_map.get (spec 1) opened.tunnels ≡ some tunnel_info
unfolding add_tunnel SocketSpec-discrete new_tunnel_info collect_remotes ℕ_discrete
    options_or_default
opened_tunnel = refl

opened_empty_tunnel : assoc_map.get (spec 1) opened_empty.tunnels ≡ some no_remotes
unfolding add_tunnel SocketSpec-discrete new_tunnel_info collect_remotes ℕ_discrete
    options_or_default
opened_empty_tunnel = refl

pub two_in_size : size assoc_index_map tunnel_info ≡ 2
unfolding new_tunnel_info collect_remotes SocketSpec-discrete ℕ_discrete
two_in_size = refl

pub first_in_range : IsGenRange (λ _. 0)
first_in_range n h = h

select_remote-IsSelected_example :
    IsSelected assoc_index_map assoc_map opened (λ _. 0) (spec 1) tunnel_info
select_remote-IsSelected_example =
    select_remote-IsSelected assoc_index_map assoc_map opened (λ _. 0) (spec 1) tunnel_info
      opened_tunnel first_in_range (omega (arith, two_in_size))

abbrev Refused : Type 0
Refused =
    ((select_remote assoc_index_map assoc_map opened_empty (λ _. 0) (spec 1)).1 ≡ err no_remote)
    × ((m : SocketSpec)
        → assoc_map.get m
            (select_remote assoc_index_map assoc_map opened_empty (λ _. 0) (spec 1)).0.tunnels
          ≡ assoc_map.get m opened_empty.tunnels)

no_size : size assoc_index_map no_remotes ≡ 0
unfolding new_tunnel_info collect_remotes
no_size = refl

select_remote_no_remote_example : Refused
select_remote_no_remote_example =
    select_remote_no_remote assoc_index_map assoc_map opened_empty (λ _. 0) (spec 1) no_remotes
      opened_empty_tunnel no_size

last_is_one : last_index assoc_index_map tunnel_info ≡ 1
unfolding last_index new_tunnel_info collect_remotes SocketSpec-discrete ℕ_discrete
last_is_one = refl

round_robin_tunnel : tunnel_info.lb_strategy ≡ round_robin_strategy
unfolding new_tunnel_info
round_robin_tunnel = refl

round_robin_visits_example :
    (k : ℕ) × (k < size assoc_index_map tunnel_info)
    × ((selected_times assoc_index_map (λ _. 0) (suc k) tunnel_info).last_selected_index ≡ some 1)
round_robin_visits_example =
    round_robin_visits assoc_index_map (λ _. 0) tunnel_info round_robin_tunnel
      (omega (arith, two_in_size)) (omega (arith, two_in_size)) (omega (arith, last_is_one)) 1
      (omega (arith, two_in_size))

abbrev busy : ℕ → RemoteInfo
busy n = record new_remote_info { stats = record new_remote_info.stats { streams_open = n } }

abbrev three_entries : List (SocketSpec × RemoteInfo)
three_entries = (spec 1, busy 4) ∷ (spec 2, busy 2) ∷ (spec 3, busy 2) ∷ []

min_loop-IsFirstMin_example : IsFirstMin three_entries (min_loop three_entries 0 0 (u64_mod - 1))
min_loop-IsFirstMin_example = min_loop-IsFirstMin three_entries (omega arith)

strategy_from_str-to_string_example :
    strategy_from_str (strategy_to_string round_robin) ≡ ok round_robin
strategy_from_str-to_string_example = strategy_from_str-to_string round_robin
