-- ===== src/Control/Exec.antt =====
-- src/controller/protocol.rs and src/controller.rs: the execution of commands on the state, and the
-- loop of a control connection. The other tasks of the program run beside it, and where a command
-- looks at the state twice also between: what they do then is a parameter.
use plexy.Prelude.{
  ℕ, Bool, List, [], ◌∷◌, ◌++◌, map, Option, none, some, Text, codes, decimal, length, ◌==◌,
  if◌then◌else◌,
}
use plexy.Strategy.{strategy_to_string}
use plexy.Tunnel.{SocketSpec, F32, Tunnel, TunnelOptions}
use plexy.Tunnel.Specs.{socket_spec_to_string}
use plexy.Errors.{Result, ok, err}
use plexy.Maps.{KeyedMap, IndexMap}
use plexy.State.Stats.{TunnelStats, RemoteStats}
use plexy.State.Info.{WatchSender}
use plexy.State.Store.{
  State, number_of_tunnels, tunnel_stats, remote_stats, tunnel_options, add_remote_to_tunnel,
  remove_remote_from_tunnel,
}
use plexy.Proxy.{create_tunnel, stop_tunnel}
use plexy.Control.Request.{
  CommandRequest, opens, closes, status, detail, help, exit, invalid, adds, removes,
}
use plexy.Control.Response.{CommandResponse, problem, info, response_done, from_result}

-- The line of a tunnel in the answer to STATUS.
unfoldable pub status_line : SocketSpec × TunnelStats → Text
status_line (local, stats) =
    socket_spec_to_string local
    ++ (codes " = open conns "
        ++ (decimal stats.streams_open
            ++ (codes ", total conns "
                ++ (decimal stats.total_connections
                    ++ (codes ", bytes sent "
                        ++ (decimal stats.bytes_sent
                            ++ (codes ", received "
                                ++ (decimal stats.bytes_received
                                    ++ (codes ", total errors " ++ decimal stats.errors)))))))))

-- The line of a remote in the answer to DETAIL.
unfoldable pub detail_line : SocketSpec × RemoteStats → Text
detail_line (remote, stats) =
    socket_spec_to_string remote
    ++ (codes " = open conns "
        ++ (decimal stats.streams_open
            ++ (codes ", total conns "
                ++ (decimal stats.total_connections
                    ++ (codes ", bytes sent "
                        ++ (decimal stats.bytes_sent
                            ++ (codes ", received "
                                ++ (decimal stats.bytes_received
                                    ++ (codes ", recent errors "
                                        ++ (decimal stats.num_errors
                                            ++ (codes ", total errors "
                                                ++ decimal stats.total_errors)))))))))))

abbrev pub help_lines : List Text
help_lines =
    codes "OPEN tunnel"
    ∷ codes "CLOSE tunnel"
    ∷ codes "ADD socket_address"
    ∷ codes "REMOVE socket_address"
    ∷ codes "STATUS [full|long]"
    ∷ codes "DETAIL tunnel"
    ∷ codes "EXIT"
    ∷ codes "HELP"
    ∷ []

-- `f32_to_string` is `{}` of an `f32`.
module _ (f32_to_string : F32 → Text) where
  -- `TunnelOptions::fmt`
  unfoldable pub options_to_string : TunnelOptions → Text
  options_to_string o =
      codes "strategy="
      ++ (strategy_to_string o.lb_strategy
          ++ (codes ",retries="
              ++ (decimal o.remote_connect_retries
                  ++ (codes ",timeout="
                      ++ (f32_to_string o.options.connect_timeout
                          ++ (codes ", errors=" ++ decimal o.options.errors_till_dead))))))

  module _ (im : IndexMap) (dm : KeyedMap) where
    -- What the execution of one command meets outside of it.
    pub record Outside : Type 0 where
      -- the other tasks, before the command came
      pub waiting : State im dm → State im dm
      -- the other tasks while the listener is bound, the outcome, and the channel of the tunnel
      pub binding : State im dm → State im dm
      pub bound : Result (Unit {0})
      pub sender : WatchSender
      -- the other tasks between two looks at the state
      pub between : State im dm → State im dm
      pub between_again : State im dm → State im dm

    -- `start_tunnel`, up to the spawn of `run_tunnel`.
    unfoldable pub start_tunnel : Outside → State im dm → Tunnel → State im dm × Result (Unit {0})
    start_tunnel o s tunnel = create_tunnel im dm o.binding o.bound o.sender s tunnel

    abbrev pub status_details : Bool → State im dm → Option (List Text)
    status_details long s = if long then some (map status_line (tunnel_stats im dm s)) else none

    unfoldable pub exec_status : Outside → Bool → State im dm → State im dm × CommandResponse
    unfolding status_line
    exec_status o long s =
        let s1 = o.between s in
        let s2 = if long then o.between_again s1 else s1 in
        if number_of_tunnels im dm s == 0 then (s, info (codes "No tunnels") none) else (
          s2,
          info (codes "Tunnels: " ++ decimal (number_of_tunnels im dm s1)) (status_details long s2),
        )

    -- The answer to DETAIL after both looks.
    abbrev pub detail_response :
        List (SocketSpec × RemoteStats) × ℕ → Result TunnelOptions → CommandResponse
    detail_response remotes (err e) = problem (some e)
    detail_response (remotes, dead_remotes) (ok options) =
        info
          (codes "Remotes: "
            ++ (decimal (length remotes)
                ++ (codes ", Dead Remotes: "
                    ++ (decimal dead_remotes
                        ++ (codes ", Options: " ++ options_to_string options)))))
          (some (map detail_line remotes))

    unfoldable pub exec_detail : Outside → SocketSpec → State im dm → State im dm × CommandResponse
    unfolding detail_line options_to_string
    exec_detail o local s = elim (remote_stats im dm s local) [
      | err e ↦ (s, problem (some e))
      | ok remotes ↦
          let s' = o.between s in (s', detail_response remotes (tunnel_options im dm s' local))
    ]

    -- `CommandRequest::exec`
    unfoldable pub exec : Outside → CommandRequest → State im dm → State im dm × CommandResponse
    unfolding start_tunnel exec_status exec_detail
    exec o (opens tunnel) s = let (s', r) = start_tunnel o s tunnel in (s', from_result r)
    exec o (closes local) s = let (s', r) = stop_tunnel im dm s local in (s', from_result r)
    exec o (invalid e) s = (s, problem (some e))
    exec o exit s = (s, response_done)
    exec o (status long) s = exec_status o long s
    exec o (detail local) s = exec_detail o local s
    exec o help s = (s, info (codes "commands") (some help_lines))
    exec o (adds tunnel remote) s =
        let (s', r) = add_remote_to_tunnel im dm s tunnel remote in (s', from_result r)
    exec o (removes tunnel remote) s =
        let (s', r) = remove_remote_from_tunnel im dm s tunnel remote in (s', from_result r)

    -- The response to what the codec decoded.
    unfoldable pub respond :
        Outside → Result CommandRequest → State im dm → State im dm × CommandResponse
    unfolding exec
    respond o (ok cmd) s = exec o cmd s
    respond o (err e) s = (s, problem (some e))

    -- `matches!(resp, CommandResponse::Done)`, and what is done with the response.
    abbrev pub answer :
        State im dm × CommandResponse
        → (State im dm → State im dm × List CommandResponse)
        → State im dm × List CommandResponse
    answer (s, response_done) rest = (s, [])
    answer (s, resp) rest = let (s', sent) = rest s in (s', resp ∷ sent)

    -- `control_loop`: the state in the end and the responses handed to the writer, whose errors are
    -- logged only. The items are what the reader yields before its end.
    unfoldable pub control_loop :
        List (Outside × Result CommandRequest) → State im dm → State im dm × List CommandResponse
    unfolding respond
    control_loop [] s = (s, [])
    control_loop ((o, cmd) ∷ cmds) s = answer (respond o cmd (o.waiting s)) (control_loop cmds)
