-- ===== src/Tunnel/Examples.antt =====
-- Socket specs and tunnels read by the parser with a plain instance of the combinators.
use plexy.Prelude.{
  List, ℕ, ◌^◌, ◌<◌, ◌≡◌, ◌++◌, refl, ◌⊎◌, true, false, [], ◌∷◌, Option, none, some, Text, codes,
  decimal, parse_unsigned, text_eq, to_ascii_lowercase, to_lower,
}
use plexy.Errors.{ok, err, tunnel_parse_error}
use plexy.Nom.Plain.{plain_nom, plain_list1, elements}
use plexy.Strategy.{round_robin, strategy_from_str}
use plexy.Tunnel.{TunnelOptions, SocketSpec, F32, Tunnel, default_tunnel_options}
use plexy.Tunnel.Parser.{
  applied, port, host_name, ipv6_segment, ipv6, ipv4, socket_spec1, socket_spec2, socket_spec3,
  socket_spec, option_items, with_items, options, tunnel, set_option, set_options,
}
use plexy.Tunnel.Specs.{
  as_tuple, spec_host, spec_port, is_blank, whole_spec, socket_spec_from_str, socket_spec_to_string,
  whole_tunnel, tunnel_from_str, tunnel_to_string,
}
use plexy.Tunnel.RoundTrip.{Printed, as_tuple-from_str, from_str-to_string}
use plexy.Tunnel.Whole.{tunnel_from_str-to_string}
use plexy.Tunnel.Settings.{HasFields, last_setting, set_options-last}
use plexy.Tunnel.Accepted.{is_accepted, all_accepted}
use plexy.Tunnel.Options.{IsItem, tested_IsItem, options_text, tunnel_from_str-options}

abbrev loopback : SocketSpec
loopback = record { inner = codes "[::1]:8080" }

loopback_read : socket_spec_from_str plain_nom (codes "[::1]:8080 ") ≡ ok loopback
unfolding plain_list1 elements port host_name ipv6_segment ipv6 ipv4 socket_spec1 socket_spec2
    socket_spec3 socket_spec is_blank whole_spec socket_spec_from_str decimal
loopback_read = refl

as_tuple-from_str_example :
    (host : Text) × (port : ℕ) × (as_tuple loopback ≡ some (host, port))
    × (spec_host loopback ≡ some host)
    × (spec_port loopback ≡ some port)
    × (port < 2 ^ 16)
    × Printed loopback host port
as_tuple-from_str_example = as_tuple-from_str plain_nom (codes "[::1]:8080 ") loopback loopback_read

from_str-to_string_example :
    socket_spec_from_str plain_nom (socket_spec_to_string loopback) ≡ ok loopback
from_str-to_string_example =
    from_str-to_string plain_nom (codes "[::1]:8080 ") loopback loopback_read

-- No `f32` is read here.
abbrev pub no_f32 : Text → Option F32
no_f32 s = none

abbrev pub two_ports : Tunnel
two_ports = record {
  local = record { inner = codes "127.0.0.1:3000" };
  remote =
      record { inner = codes "host1.net:3001" } ∷ record { inner = codes "127.0.0.1:3002" } ∷ [];
  options = none;
}

pub two_ports_read :
    tunnel_from_str plain_nom no_f32 default_tunnel_options (codes "3000=host1.net:3001,3002")
    ≡ ok two_ports
unfolding plain_list1 elements port host_name ipv6_segment ipv6 ipv4 socket_spec1 socket_spec2
    socket_spec3 socket_spec option_items with_items options tunnel whole_tunnel tunnel_from_str
    decimal
two_ports_read = refl

tunnel_from_str-to_string_example :
    tunnel_from_str plain_nom no_f32 default_tunnel_options (tunnel_to_string two_ports)
    ≡ ok two_ports
tunnel_from_str-to_string_example =
    tunnel_from_str-to_string plain_nom no_f32 default_tunnel_options
      (codes "3000=host1.net:3001,3002") two_ports two_ports_read

abbrev strategy_item : Text × Text
strategy_item = (codes "strategy", codes "round-robin")

abbrev retries_item : Text × Text
retries_item = (codes "Retries", codes "65535")

strategy_IsItem : IsItem strategy_item
strategy_IsItem = tested_IsItem (codes "strategy") (codes "round-robin") refl refl

retries_IsItem : IsItem retries_item
retries_IsItem = tested_IsItem (codes "Retries") (codes "65535") refl refl

abbrev with_both : Text
with_both =
    options_text plain_nom no_f32 default_tunnel_options strategy_item (retries_item ∷ [])
      strategy_IsItem (retries_IsItem, tt)

abbrev both_items : List (Text × Text)
both_items = strategy_item ∷ retries_item ∷ []

tunnel_from_str-options_example :
    ((all_accepted no_f32 both_items ≡ true)
      × ((o : TunnelOptions) × (tunnel_from_str plain_nom no_f32 default_tunnel_options
              (tunnel_to_string two_ports ++ with_both)
            ≡ ok (record two_ports { options = some o }))
          × HasFields no_f32
              (λ A name parse old. last_setting name parse both_items old)
              default_tunnel_options
              o))
    ⊎ ((all_accepted no_f32 both_items ≡ false)
        × ((m : Text) × (tunnel_from_str plain_nom no_f32 default_tunnel_options
                (tunnel_to_string two_ports ++ with_both)
              ≡ err (tunnel_parse_error m))))
tunnel_from_str-options_example =
    tunnel_from_str-options plain_nom no_f32 default_tunnel_options strategy_item
      (retries_item ∷ []) strategy_IsItem (retries_IsItem, tt) (codes "3000=host1.net:3001,3002")
      two_ports two_ports_read

both_accepted : all_accepted no_f32 both_items ≡ true
unfolding is_accepted all_accepted text_eq to_ascii_lowercase to_lower strategy_from_str
    parse_unsigned
both_accepted = refl

-- An unknown key is not accepted.
unknown_refused : all_accepted no_f32 ((codes "retry", codes "7") ∷ []) ≡ false
unfolding is_accepted all_accepted text_eq to_ascii_lowercase to_lower
unknown_refused = refl

abbrev repeated_items : List (Text × Text)
repeated_items = retries_item ∷ strategy_item ∷ (codes "retries", codes "7") ∷ []

abbrev repeated_options : TunnelOptions
repeated_options = record default_tunnel_options {
  lb_strategy = round_robin;
  remote_connect_retries = 7;
}

repeated_applied :
    set_options no_f32 default_tunnel_options repeated_items ≡ applied repeated_options
unfolding set_option set_options text_eq to_ascii_lowercase to_lower strategy_from_str
    parse_unsigned
repeated_applied = refl

set_options-last_example :
    HasFields no_f32
      (λ A name parse old. last_setting name parse repeated_items old)
      default_tunnel_options
      repeated_options
set_options-last_example =
    set_options-last no_f32 default_tunnel_options repeated_options repeated_items repeated_applied
