-- ===== src/State/Store.antt =====
-- src/state.rs: the state, its tunnels and their remotes. An operation that holds the entry of a
-- tunnel (`get_mut`) runs to its end before another task sees that tunnel.
use plexy.Prelude.{
  ℕ, Bool, ◌&&◌, not, List, [], ◌∷◌, map, Option, none, some, pos, negsuc, is_some, length, ◌==◌,
  if◌then◌else◌,
}
use plexy.Tunnel.{SocketSpec, Tunnel, TunnelOptions, F32}
use plexy.Errors.{
  Error, Result, ok, err, tunnel_does_not_exist, remote_exists, remote_does_not_exist,
}
use plexy.Config.{Args}
use plexy.Maps.{KeyedMap, IndexMap}
use plexy.State.Stats.{TunnelStats, RemoteStats, UpDownCounter}
use plexy.State.Remote.{RemoteInfo, new_remote_info}
use plexy.State.Info.{TunnelInfo, DeadRemote, JoinHandle, WatchSender, new_tunnel_info}

-- An `Arc<ClientConfig>`, known by its address.
abbrev pub ClientConfig : Type 0
ClientConfig = ℕ

-- A task spawned by `check_dead` that has neither ended nor been aborted: its handle and what its
-- closure holds.
pub record CheckTask : Type 0 where
  pub handle : JoinHandle
  pub local : SocketSpec
  pub remote : SocketSpec
  pub timeout : F32
  pub after : F32
  pub tls_config : Option ClientConfig

-- `StateInner`, with the static `DEFAULT_TUNNEL_OPTIONS`, the tasks that the runtime holds for it and
-- the next task's handle.
pub record State (im : IndexMap) (dm : KeyedMap) : Type 0 where
  pub tunnels : dm.Map (TunnelInfo im)
  pub config : Args
  pub client_ssl_config : ClientConfig
  pub tunnels_counter : UpDownCounter
  pub default_options : TunnelOptions
  pub tasks : List CheckTask
  pub next_handle : JoinHandle

-- `handle.abort()`: the task is gone, if it still ran.
unfoldable pub abort : JoinHandle → List CheckTask → List CheckTask
abort h [] = []
abort h (t ∷ ts) = if t.handle == h then abort h ts else t ∷ abort h ts

-- The task with a handle, if it still runs.
unfoldable pub find_task : JoinHandle → List CheckTask → Option CheckTask
find_task h [] = none
find_task h (t ∷ ts) = if t.handle == h then some t else find_task h ts

unfoldable pub abort_held : Option JoinHandle → List CheckTask → List CheckTask
abort_held none ts = ts
abort_held (some h) ts = abort h ts

-- `for_each(|(_, dead)| if let Some(handle) = dead.join_handle.take() { handle.abort() })`
unfoldable pub abort_all : List (SocketSpec × DeadRemote) → List CheckTask → List CheckTask
abort_all [] ts = ts
abort_all ((_, d) ∷ ds) ts = abort_all ds (abort_held d.join_handle ts)

-- `dead.join_handle.take()`
abbrev pub take_handle : DeadRemote → DeadRemote
take_handle d = record d { join_handle = none }

module _ (im : IndexMap) (dm : KeyedMap) where
  open dm use {get, insert, remove, modify, entries, empty}

  -- `State::new`. `create_client_config` reads the certificates; `default_options` is what
  -- `set_default_tunnel_options` has set.
  unfoldable pub new_state :
      (Args → Result ClientConfig) → TunnelOptions → Args → Result (State im dm)
  new_state create_client_config default_options args = elim (create_client_config args) [
    | err e ↦ err e
    | ok c ↦ ok (record {
      tunnels = empty;
      config = args;
      client_ssl_config = c;
      tunnels_counter = [];
      default_options = default_options;
      tasks = [];
      next_handle = 0;
    })
  ]

  -- The writes through the reference that `get_mut(local)` gave.
  unfoldable pub write : SocketSpec → TunnelInfo im → State im dm → State im dm
  write local ti s = record s { tunnels = modify local (λ _. ti) s.tunnels }

  unfoldable pub tunnel_exists : State im dm → SocketSpec → Bool
  tunnel_exists s tunnel = is_some (get tunnel s.tunnels)

  unfoldable pub number_of_tunnels : State im dm → ℕ
  number_of_tunnels s = length (entries s.tunnels)

  unfoldable pub list_tunnels : State im dm → List SocketSpec
  list_tunnels s = map (λ (e : SocketSpec × TunnelInfo im). e.0) (entries s.tunnels)

  -- `stats`
  unfoldable pub tunnel_stats : State im dm → List (SocketSpec × TunnelStats)
  tunnel_stats s =
      map (λ (e : SocketSpec × TunnelInfo im). let st = e.1.stats in (e.0, st)) (entries s.tunnels)

  unfoldable pub remote_retries : State im dm → SocketSpec → Result ℕ
  remote_retries s tunnel_key = elim (get tunnel_key s.tunnels) [
    | none ↦ err tunnel_does_not_exist
    | some ti ↦ ok ti.options.remote_connect_retries
  ]

  unfoldable pub tunnel_options : State im dm → SocketSpec → Result TunnelOptions
  tunnel_options s local = elim (get local s.tunnels) [
    | none ↦ err tunnel_does_not_exist
    | some ti ↦ ok ti.options
  ]

  -- `info_to`, with the conversion that its type picks
  unfoldable pub info_to {ℓ} :
      {T : Type ℓ} → (TunnelInfo im → T) → State im dm → SocketSpec → Result T
  info_to from s tunnel = elim (get tunnel s.tunnels) [
    | none ↦ err tunnel_does_not_exist
    | some ti ↦ ok (from ti)
  ]

  -- `remotes`: the live remotes with their statistics, and the number of dead ones
  unfoldable pub remote_stats :
      State im dm → SocketSpec → Result (List (SocketSpec × RemoteStats) × ℕ)
  remote_stats s local = elim (get local s.tunnels) [
    | none ↦ err tunnel_does_not_exist
    | some ti ↦ ok (
      map (λ (e : SocketSpec × RemoteInfo). let st = e.1.stats in (e.0, st))
          (im.entries ti.remotes),
      length (im.entries ti.dead_remotes),
    )
  ]

  -- `options.unwrap_or_default()`
  unfoldable pub options_or_default : State im dm → Option TunnelOptions → TunnelOptions
  options_or_default s none = s.default_options
  options_or_default s (some o) = o

  unfoldable pub add_tunnel : State im dm → Tunnel → WatchSender → State im dm × Result (Unit {0})
  add_tunnel s tunnel close_channel =
      if is_some (get tunnel.local s.tunnels) then (s, err Error.tunnel_exists) else (
        record s {
          tunnels =
              insert tunnel.local
                (new_tunnel_info im close_channel tunnel.remote
                  (options_or_default s tunnel.options))
                s.tunnels;
          tunnels_counter = pos 1 ∷ s.tunnels_counter;
        },
        ok tt,
      )

  unfoldable pub remove_tunnel : State im dm → SocketSpec → State im dm × Result (TunnelInfo im)
  remove_tunnel s local = elim (get local s.tunnels) [
    | none ↦ (s, err tunnel_does_not_exist)
    | some t ↦ (
      record s {
        tunnels = remove local s.tunnels;
        tasks = abort_all (im.entries t.dead_remotes) s.tasks;
        tunnels_counter = negsuc 0 ∷ s.tunnels_counter;
      },
      ok (record t { dead_remotes = im.modify_all take_handle t.dead_remotes }),
    )
  ]

  unfoldable pub add_remote_to_tunnel :
      State im dm → SocketSpec → SocketSpec → State im dm × Result (Unit {0})
  add_remote_to_tunnel s tunnel remote = elim (get tunnel s.tunnels) [
    | none ↦ (s, err tunnel_does_not_exist)
    | some ti ↦
        if not (is_some (im.get remote ti.remotes)) && not (is_some (im.get remote ti.dead_remotes))
        then (
          write tunnel (record ti { remotes = im.insert remote new_remote_info ti.remotes }) s,
          ok tt,
        )
        else (s, err remote_exists)
  ]

  unfoldable pub remove_remote_from_tunnel :
      State im dm → SocketSpec → SocketSpec → State im dm × Result RemoteInfo
  remove_remote_from_tunnel s tunnel remote = elim (get tunnel s.tunnels) [
    | none ↦ (s, err tunnel_does_not_exist)
    | some ti ↦ elim (im.get remote ti.remotes) [
      | some r ↦ (write tunnel (record ti { remotes = im.remove remote ti.remotes }) s, ok r)
      | none ↦ elim (im.get remote ti.dead_remotes) [
        | some d ↦ (
          write tunnel (record ti { dead_remotes = im.remove remote ti.dead_remotes }) s,
          ok d.remote,
        )
        | none ↦ (s, err remote_does_not_exist)
      ]
    ]
  ]

  -- `copy_buffer_size`, `establish_remote_connection_timeout` and
  -- `establish_remote_connection_retries`
  abbrev pub copy_buffer_size : State im dm → ℕ
  copy_buffer_size s = s.config.copy_buffer_size

  abbrev pub establish_remote_connection_timeout : State im dm → F32
  establish_remote_connection_timeout s = s.config.remote_timeout

  abbrev pub establish_remote_connection_retries : State im dm → ℕ
  establish_remote_connection_retries s = s.config.remote_retries
