-- ===== src/Rpc/Examples.antt =====
-- Methods of src/rpc.rs and lines of the control protocol with the same texts.
use plexy.Prelude.{
  ◌≡◌, not, ◌==◌, refl, Text, codes, map, none, some, decimal, option_map, ℕ_discrete,
  text_discrete, every_char-AllOf,
}
use plexy.Maps.Assoc.{assoc_map, assoc_index_map}
use plexy.Nom.Plain.{plain_nom, plain_list1, elements}
use plexy.Tunnel.{SocketSpec, SocketSpec-discrete, default_tunnel_options}
use plexy.Tunnel.Specs.{is_blank, whole_spec, socket_spec_from_str, socket_spec_to_string}
use plexy.Tunnel.Parser.{
  port, host_name, ipv6_segment, ipv6, ipv4, socket_spec1, socket_spec2, socket_spec3, socket_spec,
}
use plexy.Errors.{Result, ok}
use plexy.State.Stats.{RemoteStats}
use plexy.State.Remote.{RemoteInfo, new_remote_info}
use plexy.State.View.{live_remote}
use plexy.State.Info.{new_tunnel_info, collect_remotes}
use plexy.State.Store.{options_or_default, add_tunnel, info_to}
use plexy.Tunnel.Examples.{no_f32, two_ports, two_ports_read}
use plexy.State.Examples.{Demo, two_remotes, started, checked, tunnel_info}
use plexy.Control.Response.{CommandResponse}
use plexy.Control.Words.{IsWord}
use plexy.Control.Exec.{start_tunnel}
use plexy.Control.Examples.{ten, quiet}
use plexy.Rpc.{
  close_tunnel, add_remote, remove_remote, open_tunnel, RpcTunnelInfo, rpc_tunnel_info, HashMap,
  hash_get, remotes,
}
use plexy.Rpc.Same.{answered, exec_line, close_tunnel-exec, add_remote-exec, remove_remote-exec}
use plexy.Rpc.Changed.{tunnel_info-add_remote}
use plexy.Rpc.Views.{hash_get-remotes}
use plexy.Rpc.Opened.{open_tunnel-exec}

abbrev line : Demo → Text → Demo × CommandResponse
line s text =
    exec_line plain_nom no_f32 default_tunnel_options ten assoc_index_map assoc_map quiet s text

local-IsWord : IsWord (codes "host:1")
local-IsWord = every_char-AllOf (λ c. not (c == b' ')) (codes "host:1") refl

close_tunnel-exec_example :
    line checked (codes "CLOSE host:1")
    ≡ answered (close_tunnel plain_nom assoc_index_map assoc_map checked (codes "host:1"))
close_tunnel-exec_example =
    close_tunnel-exec plain_nom no_f32 default_tunnel_options ten assoc_index_map assoc_map quiet
      checked (codes "host:1")

add_remote-exec_example :
    line checked (codes "ADD host:1 host:2")
    ≡ answered
        (add_remote plain_nom assoc_index_map assoc_map checked (codes "host:1") (codes "host:2"))
add_remote-exec_example =
    add_remote-exec plain_nom no_f32 default_tunnel_options ten assoc_index_map assoc_map quiet
      checked (codes "host:1") (codes "host:2") local-IsWord

remove_remote-exec_example :
    line checked (codes "REMOVE host:1 host:2")
    ≡ answered (
        remove_remote plain_nom assoc_index_map assoc_map checked (codes "host:1") (codes "host:2"))
remove_remote-exec_example =
    remove_remote-exec plain_nom no_f32 default_tunnel_options ten assoc_index_map assoc_map quiet
      checked (codes "host:1") (codes "host:2") local-IsWord

open_tunnel-exec_example :
    line started (codes "OPEN 3000=host1.net:3001,3002")
    ≡ answered (
        open_tunnel plain_nom assoc_index_map assoc_map
          (start_tunnel ten assoc_index_map assoc_map quiet)
          started
          (socket_spec_to_string two_ports.local)
          (map socket_spec_to_string two_ports.remote)
          two_ports.options)
open_tunnel-exec_example =
    open_tunnel-exec plain_nom no_f32 default_tunnel_options ten assoc_index_map assoc_map quiet
      started (codes "3000=host1.net:3001,3002") two_ports two_ports_read

abbrev host_one : SocketSpec
host_one = record { inner = codes "host:1" }

abbrev opened_host : Demo
opened_host =
    (add_tunnel assoc_index_map assoc_map started (record two_remotes { local = host_one }) 7).0

opened_host_tunnel : assoc_map.get host_one opened_host.tunnels ≡ some tunnel_info
unfolding add_tunnel SocketSpec-discrete new_tunnel_info collect_remotes ℕ_discrete
    options_or_default text_discrete
opened_host_tunnel = refl

local_read : socket_spec_from_str plain_nom (codes "host:1") ≡ ok host_one
unfolding plain_list1 elements port host_name ipv6_segment ipv6 ipv4 socket_spec1 socket_spec2
    socket_spec3 socket_spec is_blank whole_spec socket_spec_from_str decimal
local_read = refl

hash_get-remotes_example :
    (m : HashMap RemoteStats) × (remotes plain_nom assoc_index_map assoc_map opened_host
        (codes "host:1")
      ≡ ok m)
    × ((r : SocketSpec)
        → hash_get (socket_spec_to_string r) m
          ≡ option_map
              (λ (x : RemoteInfo). x.stats)
              (live_remote assoc_index_map assoc_map opened_host host_one r))
hash_get-remotes_example =
    hash_get-remotes plain_nom assoc_index_map assoc_map opened_host (codes "host:1") host_one
      tunnel_info local_read opened_host_tunnel

abbrev host_nine : SocketSpec
host_nine = record { inner = codes "host:9" }

nine_read : socket_spec_from_str plain_nom (codes "host:9") ≡ ok host_nine
unfolding plain_list1 elements port host_name ipv6_segment ipv6 ipv4 socket_spec1 socket_spec2
    socket_spec3 socket_spec is_blank whole_spec socket_spec_from_str decimal
nine_read = refl

nine_not_live : assoc_map.get host_nine tunnel_info.remotes ≡ none
unfolding new_tunnel_info collect_remotes SocketSpec-discrete ℕ_discrete text_discrete
nine_not_live = refl

nine_not_dead : assoc_map.get host_nine tunnel_info.dead_remotes ≡ none
unfolding new_tunnel_info
nine_not_dead = refl

abbrev host_info : RpcTunnelInfo
host_info = rpc_tunnel_info plain_nom assoc_index_map assoc_map tunnel_info

host_info_read :
    plexy.Rpc.tunnel_info plain_nom assoc_index_map assoc_map opened_host (codes "host:1")
    ≡ ok host_info
unfolding plexy.Rpc.tunnel_info info_to
host_info_read = rw (local_read, opened_host_tunnel, info_to) refl

abbrev with_nine : Demo
with_nine =
    (add_remote plain_nom assoc_index_map assoc_map opened_host (codes "host:1") (codes "host:9")).0

abbrev without_nine : Demo × Result RemoteStats
without_nine =
    remove_remote plain_nom assoc_index_map assoc_map with_nine (codes "host:1") (codes "host:9")

tunnel_info-add_remote_example :
    ((add_remote plain_nom assoc_index_map assoc_map opened_host
        (codes "host:1")
        (codes "host:9")).1
      ≡ ok tt)
    × (plexy.Rpc.tunnel_info plain_nom assoc_index_map assoc_map with_nine (codes "host:1")
        ≡ ok (record host_info { num_remotes = 3 }))
    × (without_nine.1 ≡ ok new_remote_info.stats)
    × (plexy.Rpc.tunnel_info plain_nom assoc_index_map assoc_map without_nine.0 (codes "host:1")
        ≡ ok host_info)
unfolding new_tunnel_info collect_remotes SocketSpec-discrete ℕ_discrete
tunnel_info-add_remote_example =
    tunnel_info-add_remote plain_nom assoc_index_map assoc_map opened_host (codes "host:1")
      (codes "host:9") host_one host_nine tunnel_info local_read nine_read opened_host_tunnel
      nine_not_live nine_not_dead host_info host_info_read
