-- ===== src/Control/Examples.antt =====
-- Commands on lines, and connections that carry them, with a plain instance of the parser library.
use plexy.Prelude.{
  ◌≡◌, ◌++◌, refl, true, not, ◌==◌, List, [], ◌∷◌, some, Text, codes, every_char, every_char-AllOf,
  length, to_ascii_uppercase, to_upper,
}
use plexy.Errors.{ok, err, tunnel_does_not_exist, control_protocol_error}
use plexy.Maps.Assoc.{assoc_map, assoc_index_map}
use plexy.Nom.Plain.{plain_nom}
use plexy.Tunnel.{SocketSpec, F32, default_tunnel_options}
use plexy.Tunnel.Examples.{no_f32, two_ports, two_ports_read}
use plexy.State.Store.{remove_tunnel}
use plexy.State.Examples.{spec, Demo, started, checked}
use plexy.Proxy.{stop_tunnel}
use plexy.Control.Request.{request_from_str, closes, status, help, exit}
use plexy.Control.Response.{
  CommandResponse, response_ok, problem, info, newline, tab, response_to_string,
}
use plexy.Control.Words.{IsWord, request_from_str-case}
use plexy.Control.Exec.{Outside, exec, control_loop}
use plexy.Control.Effects.{IsQuiet, exec-problem}
use plexy.Control.Session.{Item, length-control_loop}
use plexy.Control.Printed.{IsOneLine, split_lines, split_lines-response_to_string}
use plexy.Control.OpenClose.{session, control_loop-OpenClose}

abbrev pub ten : F32 → Text
ten _ = codes "10"

abbrev pub quiet : Outside ten assoc_index_map assoc_map
quiet = record {
  waiting = λ s. s;
  binding = λ s. s;
  bound = ok tt;
  sender = 8;
  between = λ s. s;
  between_again = λ s. s;
}

quiet-IsQuiet : IsQuiet assoc_index_map assoc_map ten quiet
quiet-IsQuiet = record { binding = λ s. refl; between = λ s. refl; between_again = λ s. refl }

abbrev some_commands : List (Item ten assoc_index_map assoc_map)
some_commands =
    (quiet, ok (status true))
    ∷ (quiet, ok (closes (spec 1)))
    ∷ (quiet, err (control_protocol_error []))
    ∷ (quiet, ok exit)
    ∷ (quiet, ok help)
    ∷ []

length-control_loop_example :
    length (control_loop ten assoc_index_map assoc_map some_commands checked).1 ≡ 3
length-control_loop_example =
    length-control_loop ten assoc_index_map assoc_map some_commands checked

absent_problem :
    (exec ten assoc_index_map assoc_map quiet (closes (spec 9)) started).1
    ≡ problem (some tunnel_does_not_exist)
unfolding exec stop_tunnel remove_tunnel
absent_problem = refl

exec-problem_example :
    (exec ten assoc_index_map assoc_map quiet (closes (spec 9)) started).0 ≡ started
exec-problem_example =
    exec-problem assoc_index_map assoc_map ten quiet (closes (spec 9)) started
      (some tunnel_does_not_exist) quiet-IsQuiet absent_problem

upper-IsWord : IsWord (codes "CLOSE")
upper-IsWord = every_char-AllOf (λ c. not (c == b' ')) (codes "CLOSE") refl

mixed-IsWord : IsWord (codes "cLose")
mixed-IsWord = every_char-AllOf (λ c. not (c == b' ')) (codes "cLose") refl

request_from_str-case_example :
    ((s : Text)
      → request_from_str plain_nom no_f32 default_tunnel_options (codes "CLOSE" ++ b' ' ∷ s)
        ≡ request_from_str plain_nom no_f32 default_tunnel_options (codes "cLose" ++ b' ' ∷ s))
    × (request_from_str plain_nom no_f32 default_tunnel_options (codes "CLOSE")
        ≡ request_from_str plain_nom no_f32 default_tunnel_options (codes "cLose"))
unfolding to_ascii_uppercase to_upper
request_from_str-case_example =
    request_from_str-case plain_nom no_f32 default_tunnel_options (codes "CLOSE") (codes "cLose")
      upper-IsWord mixed-IsWord refl

abbrev opened_and_closed : Demo × List CommandResponse
opened_and_closed =
    session plain_nom no_f32 default_tunnel_options ten assoc_index_map assoc_map quiet quiet
      started (codes "3000=host1.net:3001,3002") two_ports

control_loop-OpenClose_example :
    (opened_and_closed.1 ≡ response_ok ∷ response_ok ∷ [])
    × ((m : SocketSpec)
        → assoc_map.get m opened_and_closed.0.tunnels ≡ assoc_map.get m started.tunnels)
control_loop-OpenClose_example =
    control_loop-OpenClose plain_nom no_f32 default_tunnel_options ten assoc_index_map assoc_map
      quiet quiet started (codes "3000=host1.net:3001,3002") two_ports two_ports_read refl refl refl
      refl (λ u. refl)

one_line : (s : Text) → every_char (λ c. not (c == newline)) s ≡ true → IsOneLine s
one_line s e = every_char-AllOf (λ c. not (c == newline)) s e

abbrev two_details : CommandResponse
two_details = info (codes "1") (some (codes "host:1" ∷ codes "host:2" ∷ []))

split_lines-response_to_string_example :
    split_lines (response_to_string two_details)
    ≡ codes "OK: 1" ∷ (tab ∷ codes "host:1") ∷ (tab ∷ codes "host:2") ∷ []
split_lines-response_to_string_example =
    split_lines-response_to_string (codes "1") (codes "host:1") (codes "host:2" ∷ [])
      (one_line (codes "1") refl) (one_line (codes "host:1") refl)
      (one_line (codes "host:2") refl, tt)
