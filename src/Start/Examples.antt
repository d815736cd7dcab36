-- ===== src/Start/Examples.antt =====
-- The start of the program with one tunnel on the command line.
use plexy.Prelude.{ℕ, ◌≡◌, refl, true, List, [], ◌∷◌, none, some, codes}
use plexy.Errors.{ok}
use plexy.Config.{Args, default_args}
use plexy.Maps.Assoc.{assoc_map, assoc_index_map}
use plexy.Nom.Plain.{plain_nom}
use plexy.Nom.Listed.{Every}
use plexy.Tunnel.{Tunnel}
use plexy.Tunnel.Examples.{no_f32, two_ports, two_ports_read}
use plexy.State.Store.{tunnel_exists, new_state}
use plexy.State.Examples.{Demo, create}
use plexy.Start.{cli_options, parse_tunnels, take_tunnels, Launch, launch, run_main}
use plexy.Start.Runs.{run_main-exists}

abbrev cli_args : Args
cli_args = record default_args { tunnels = some (codes "3000=host1.net:3001,3002" ∷ []) }

abbrev bound_all : ℕ → Launch assoc_index_map assoc_map
bound_all n = record { waiting = λ s. s; binding = λ s. s; bound = ok tt; sender = n }

abbrev new_demo : Demo
new_demo = record {
  tunnels = assoc_map.empty;
  config = record cli_args { tunnels = none };
  client_ssl_config = 5;
  tunnels_counter = [];
  default_options = cli_options cli_args;
  tasks = [];
  next_handle = 0;
}

abbrev launched : Demo
launched = launch assoc_index_map assoc_map bound_all (two_ports ∷ []) new_demo

cli_launched :
    run_main assoc_index_map assoc_map plain_nom no_f32 create bound_all cli_args
    ≡ ok (some launched)
unfolding run_main take_tunnels parse_tunnels new_state
cli_launched = rw two_ports_read refl

run_main-exists_example :
    (ts : List Tunnel) × ((take_tunnels plain_nom no_f32 (cli_options cli_args) cli_args).1 ≡ ok ts)
    × Every (λ t. tunnel_exists assoc_index_map assoc_map launched t.local ≡ true) ts
run_main-exists_example =
    run_main-exists assoc_index_map assoc_map plain_nom no_f32 create bound_all cli_args launched
      (λ n. record { waiting = λ s. refl; binding = λ s. refl }) (λ n. refl) cli_launched
