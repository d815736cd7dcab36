-- ===== src/State/Examples/Changes.antt =====
-- What errors, checks, streams and additions do to the two remotes of a run.
use plexy.Prelude.{
  false, ◌≤◌, ◌<◌, ◌-◌, ◌≡◌, refl, ◌⊎◌, true, [], ◌∷◌, none, some, arith, codes, u64_mod, add64,
  ℕ_discrete,
}
use plexy.Tunnel.{default_tunnel_options, SocketSpec, SocketSpec-discrete}
use plexy.Errors.{Result, ok}
use plexy.Maps.Assoc.{assoc_map, assoc_index_map}
use plexy.State.Remote
use plexy.State.Remote.{RemoteInfo, new_remote_info}
use plexy.State.Info.{TunnelInfo, DeadRemote, new_tunnel_info, collect_remotes}
use plexy.State.Store.{CheckTask, add_remote_to_tunnel}
use plexy.State.Streams.{update_transferred, select_remote, remote_connected}
use plexy.State.View.{live_remote, dead_remote}
use plexy.State.Dead.{remote_error, run_check}
use plexy.Config.{default_args}
use plexy.State.Steps.{Runs, runs, next, transfers}
use plexy.State.Counted.{IsCounted}
use plexy.State.Counted.Always.{Runs-IsCounted}
use plexy.State.Mirrored.{AllMirrored}
use plexy.State.Mirrored.Always.{Runs-AllMirrored}
use plexy.State.Failures.Errors.{
  IsBuried, IsSpared, IsElsewhereSame, remote_error-verdict, remote_error-IsElsewhereSame,
}
use plexy.State.Failures.Recovery.{IsRecovered, IsRequeued, run_check-outcome}
use plexy.State.Failures.Leaks.{recovered_later, client_disconnected-run_check}
use plexy.State.Lifecycle.{IsBalanced, closed_state, stream-IsBalanced}
use plexy.State.Remotes.Readded.{
  add_remote-remove_remote, readded-remote_connected, readded, removed_again,
}
use plexy.State.Examples.{
  create, started_new, demo_steps, started, spec, options, Demo, opened, check, checked,
  tunnel_info, demo_run, opened_tunnel, first_in_range, two_in_size,
}

Runs-IsCounted_example : IsCounted assoc_index_map assoc_map checked
Runs-IsCounted_example = Runs-IsCounted assoc_index_map assoc_map demo_run

abbrev counted : RemoteInfo
counted = Remote.error 100 (some (codes "c")) new_remote_info

abbrev after_error : Demo
after_error =
    remote_error assoc_index_map assoc_map opened 100 (spec 1) (spec 2) (codes "c") options.options

first_live : assoc_map.get (spec 2) tunnel_info.remotes ≡ some new_remote_info
unfolding new_tunnel_info collect_remotes SocketSpec-discrete ℕ_discrete
first_live = refl

remote_error-verdict_example :
    ((options.options.errors_till_dead ≤ 1)
      × IsBuried assoc_index_map assoc_map opened 100
          (spec 1)
          (spec 2)
          options.options
          new_remote_info.stats
          after_error)
    ⊎ ((1 < options.options.errors_till_dead)
        × IsSpared assoc_index_map assoc_map opened 100
            (spec 1)
            (spec 2)
            new_remote_info.stats
            after_error)
unfolding add64
remote_error-verdict_example =
    remote_error-verdict assoc_index_map assoc_map opened 100 (spec 1) (spec 2) (codes "c")
      options.options tunnel_info new_remote_info opened_tunnel first_live

remote_error-IsElsewhereSame_example :
    IsElsewhereSame assoc_index_map assoc_map opened (spec 1) (spec 2) after_error
remote_error-IsElsewhereSame_example =
    remote_error-IsElsewhereSame assoc_index_map assoc_map opened 100 (spec 1) (spec 2) (codes "c")
      options.options tunnel_info new_remote_info opened_tunnel first_live

abbrev dead : DeadRemote
dead = record {
  remote = record counted { stats = record counted.stats { streams_open = 2 } };
  join_handle = some 0;
}

abbrev dead_info : TunnelInfo assoc_index_map
dead_info = record tunnel_info {
  dead_remotes = record { items = (spec 4, dead) ∷ []; distinct = (refl, tt) };
}

-- One more remote of the tunnel is dead.
abbrev with_dead : Demo
with_dead = record started {
  tunnels = record { items = (spec 1, dead_info) ∷ []; distinct = (refl, tt) };
  tasks = record check { remote = spec 4 } ∷ [];
  next_handle = 1;
}

with_dead_tunnel : assoc_map.get (spec 1) with_dead.tunnels ≡ some dead_info
unfolding SocketSpec-discrete ℕ_discrete
with_dead_tunnel = refl

is_dead_remote : assoc_map.get (spec 4) dead_info.dead_remotes ≡ some dead
unfolding SocketSpec-discrete ℕ_discrete
is_dead_remote = refl

run_check-outcome_example :
    IsRecovered assoc_index_map assoc_map with_dead
      (record check { remote = spec 4 })
      dead
      (run_check assoc_index_map assoc_map with_dead 200 (record check { remote = spec 4 }) true)
    × IsRequeued assoc_index_map assoc_map with_dead 200
        (record check { remote = spec 4 })
        dead
        (run_check assoc_index_map assoc_map with_dead 200 (record check { remote = spec 4 }) false)
run_check-outcome_example =
    run_check-outcome assoc_index_map assoc_map with_dead 200 (record check { remote = spec 4 })
      dead_info dead with_dead_tunnel is_dead_remote

fresh_entries :
    (r : SocketSpec) (x : RemoteInfo)
    → assoc_map.get r tunnel_info.remotes ≡ some x
    → (x.stats.streams_open < u64_mod) × (x.stats.streams_pending < u64_mod)
unfolding new_tunnel_info collect_remotes SocketSpec-discrete
fresh_entries r x e = ground arith

stream-IsBalanced_example :
    (k : SocketSpec) × (x : RemoteInfo) × (y : RemoteInfo) × ((select_remote assoc_index_map
        assoc_map opened
        (λ _. 0)
        (spec 1)).1
      ≡ ok (k, tunnel_info.options.options))
    × (assoc_map.get k tunnel_info.remotes ≡ some x)
    × (live_remote assoc_index_map assoc_map
          (closed_state assoc_index_map assoc_map opened (λ _. 0) (spec 1) k)
          (spec 1)
          k
        ≡ some y)
    × IsBalanced x y
stream-IsBalanced_example =
    stream-IsBalanced assoc_index_map assoc_map opened (λ _. 0) (spec 1) tunnel_info opened_tunnel
      first_in_range (omega (arith, two_in_size)) fresh_entries

absent : assoc_map.get (spec 9) tunnel_info.remotes ≡ none
unfolding new_tunnel_info collect_remotes SocketSpec-discrete ℕ_discrete
absent = refl

absent_dead : assoc_map.get (spec 9) tunnel_info.dead_remotes ≡ none
unfolding new_tunnel_info
absent_dead = refl

abbrev back : Demo × Result RemoteInfo
back = removed_again assoc_index_map assoc_map opened (spec 1) (spec 9)

add_remote-remove_remote_example :
    ((add_remote_to_tunnel assoc_index_map assoc_map opened (spec 1) (spec 9)).1 ≡ ok tt)
    × (back.1 ≡ ok new_remote_info)
    × ((m j : SocketSpec)
        → live_remote assoc_index_map assoc_map back.0 m j
          ≡ live_remote assoc_index_map assoc_map opened m j)
    × ((m j : SocketSpec)
        → dead_remote assoc_index_map assoc_map back.0 m j
          ≡ dead_remote assoc_index_map assoc_map opened m j)
add_remote-remove_remote_example =
    add_remote-remove_remote assoc_index_map assoc_map opened (spec 1) (spec 9) tunnel_info
      opened_tunnel absent absent_dead

abbrev again : Demo
again = readded assoc_index_map assoc_map opened (spec 1) (spec 2)

not_dead : assoc_map.get (spec 2) tunnel_info.dead_remotes ≡ none
unfolding new_tunnel_info
not_dead = refl

readded-remote_connected_example :
    (y : RemoteInfo) × (live_remote assoc_index_map assoc_map
        (remote_connected assoc_index_map assoc_map again (spec 1) (spec 2))
        (spec 1)
        (spec 2)
      ≡ some y)
    × (y.stats.streams_pending ≡ u64_mod - 1)
    × (y.stats.streams_open ≡ 1)
readded-remote_connected_example =
    readded-remote_connected assoc_index_map assoc_map opened (spec 1) (spec 2) tunnel_info
      opened_tunnel new_remote_info first_live not_dead

abbrev check_four : CheckTask
check_four = record check { remote = spec 4 }

four_not_live : assoc_map.get (spec 4) dead_info.remotes ≡ none
unfolding new_tunnel_info collect_remotes SocketSpec-discrete ℕ_discrete
four_not_live = refl

client_disconnected-run_check_example :
    (y : RemoteInfo) × (live_remote assoc_index_map assoc_map
        (recovered_later assoc_index_map assoc_map with_dead 200 check_four)
        (spec 1)
        (spec 4)
      ≡ some y)
    × (y.stats.streams_open ≡ dead.remote.stats.streams_open)
client_disconnected-run_check_example =
    client_disconnected-run_check assoc_index_map assoc_map with_dead 200 check_four dead_info dead
      with_dead_tunnel four_not_live is_dead_remote

-- Ten bytes were received from the remote that lives.
abbrev moved : Demo
moved = update_transferred assoc_index_map assoc_map checked (spec 1) (spec 3) false 10

moved_run : Runs assoc_index_map assoc_map moved
moved_run =
    runs create default_tunnel_options default_args started started_new
      (next demo_steps (transfers (spec 1) (spec 3) false 10))

Runs-AllMirrored_example : AllMirrored assoc_index_map assoc_map moved
Runs-AllMirrored_example = Runs-AllMirrored assoc_index_map assoc_map moved_run
