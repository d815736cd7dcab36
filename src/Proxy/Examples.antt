-- ===== src/Proxy/Examples.antt =====
-- Connections to a tunnel with two remotes, of which the first one cannot be reached.
use plexy.Prelude.{ℕ, zero, suc, ◌≡◌, refl, true, false, some, arith, codes, add64, ℕ_discrete}
use plexy.Tunnel.{SocketSpec, F32, f32_ten, TunnelOptions, SocketSpec-discrete}
use plexy.Errors.{Result, ok}
use plexy.Maps.Assoc.{assoc_map, assoc_index_map}
use plexy.State.Info.{TunnelInfo, size, new_tunnel_info, collect_remotes}
use plexy.State.Store.{tunnel_exists, options_or_default, add_tunnel}
use plexy.State.Examples.{spec, options, Demo, started, opened, first_in_range, two_remotes}
use plexy.Proxy.{Attempt, Ended, returned, panicked, process_socket}
use plexy.Proxy.Counts.{open_streams}
use plexy.Proxy.Balance.{process_socket-IsNeutral}
use plexy.Proxy.Panics.{process_socket-panicked}
use plexy.Proxy.Tunnels.{created, stopped, create_tunnel-stop_tunnel}

-- The first of three attempts fails.
abbrev attempts : ℕ → Attempt assoc_index_map assoc_map
attempts n = record {
  gen_range = λ _. 0;
  waiting = λ s. s;
  connected = elim n [ zero ↦ true | suc zero ↦ true | suc (suc _) ↦ false ];
  now = 300;
}

abbrev served : Demo → Demo × Ended (Result (Unit {0}))
served = process_socket assoc_index_map assoc_map attempts (λ s. s) (spec 1) (codes "c")

opened_streams : open_streams assoc_index_map assoc_map (spec 1) opened ≡ some (0, f32_ten)
unfolding add_tunnel new_tunnel_info collect_remotes SocketSpec-discrete ℕ_discrete
    options_or_default
opened_streams = refl

process_socket-IsNeutral_example :
    (open_streams assoc_index_map assoc_map (spec 1) (served opened).0 ≡ some (0, f32_ten))
    × ((served opened).1 ≡ returned (ok tt))
process_socket-IsNeutral_example =
    process_socket-IsNeutral assoc_index_map assoc_map (spec 1) attempts (λ s. s) (codes "c")
      (λ n s. refl) (λ s. refl) opened 0 f32_ten opened_streams (omega arith) refl

-- -1.0
abbrev minus_one : F32
minus_one = 0xBF800000

abbrev negative_options : TunnelOptions
negative_options = record options {
  options = record options.options { connect_timeout = minus_one };
}

abbrev negative : Demo
negative =
    (add_tunnel assoc_index_map assoc_map started
      (record two_remotes { options = some negative_options }) 7).0

abbrev negative_info : TunnelInfo assoc_index_map
negative_info = new_tunnel_info assoc_index_map 7 two_remotes.remote negative_options

negative_tunnel : assoc_map.get (spec 1) negative.tunnels ≡ some negative_info
unfolding add_tunnel SocketSpec-discrete new_tunnel_info collect_remotes ℕ_discrete
    options_or_default
negative_tunnel = refl

negative_size : size assoc_index_map negative_info ≡ 2
unfolding new_tunnel_info collect_remotes SocketSpec-discrete ℕ_discrete
negative_size = refl

process_socket-panicked_example :
    ((served negative).1 ≡ panicked)
    × (open_streams assoc_index_map assoc_map (spec 1) (served negative).0 ≡ some (1, minus_one))
unfolding add64 new_tunnel_info
process_socket-panicked_example =
    process_socket-panicked assoc_index_map assoc_map (spec 1) attempts (λ s. s) (codes "c")
      negative negative_info 2 negative_tunnel (omega (arith, negative_size)) refl first_in_range
      refl

abbrev new_tunnel : Demo × Result (Unit {0})
new_tunnel = created assoc_index_map assoc_map (λ s. s) 8 started two_remotes

abbrev old_tunnel : Demo × Result ℕ
old_tunnel = stopped assoc_index_map assoc_map (λ s. s) 8 started two_remotes

create_tunnel-stop_tunnel_example :
    (new_tunnel.1 ≡ ok tt)
    × (tunnel_exists assoc_index_map assoc_map new_tunnel.0 (spec 1) ≡ true)
    × (old_tunnel.1 ≡ ok 8)
    × ((m : SocketSpec) → assoc_map.get m old_tunnel.0.tunnels ≡ assoc_map.get m started.tunnels)
create_tunnel-stop_tunnel_example =
    create_tunnel-stop_tunnel assoc_index_map assoc_map (λ s. s) 8 started two_remotes refl refl
