-- ===== src/Proxy.antt =====
-- src/lib.rs: the task of a connection, and the start and stop of a tunnel. The other tasks run while
-- a task waits: what they do then to the state is a parameter.
mod Counts
pub mod Balance
pub mod Panics
pub mod Tunnels
mod Examples
use plexy.Prelude.{ℕ, zero, suc, Bool, Option, none, some, if◌then◌else◌, ltb, ◌==◌, ◌||◌}
use plexy.Tunnel.{SocketSpec, SocketAddr, F32, Tunnel, TunnelRemoteOptions}
use plexy.Errors.{Error, Result, ok, err}
use plexy.Maps.{KeyedMap, IndexMap}
use plexy.State.Info.{TunnelInfo, WatchSender}
use plexy.State.Store.{State, remote_retries, tunnel_exists, add_tunnel, remove_tunnel}
use plexy.State.Streams.{select_remote, client_connected, remote_connected, client_disconnected}
use plexy.State.Dead.{remote_error}

-- A task comes to its end with a result, or panics.
pub data Ended {ℓ} (A : Type ℓ) : Type ℓ where
  returned : A → Ended A
  panicked : Ended A

-- std's `Duration::from_secs_f32` has a duration for this `f32`. For any other it panics: a negative
-- number, 2^64 or more, an infinity or a NaN. The second pattern is that of -0.0.
abbrev pub is_duration : F32 → Bool
is_duration secs = ltb secs 0x5F800000 || secs == 0x80000000

module _ (im : IndexMap) (dm : KeyedMap) where
  -- What happens in one round of the loop of `process_socket`.
  pub record Attempt : Type 0 where
    pub gen_range : ℕ → ℕ
    -- the other tasks, while the connection is made
    pub waiting : State im dm → State im dm
    -- `timeout(.., connect_remote(..))` is `Ok(Ok(stream))`
    pub connected : Bool
    pub now : ℕ

  module _ (attempts : ℕ → Attempt) (copying : State im dm → State im dm) (tunnel_key : SocketSpec)
      (local_client : SocketAddr) where
    -- The arms of the match on `select_remote`; `copying` is what `copy_bidirectional` and the other
    -- tasks do, and `rest` the loop with one retry less. The second component is `last_remote`, or
    -- the panic of `Duration::from_secs_f32`, before anything is awaited.
    unfoldable pub after_select :
        Attempt
        → (State im dm → State im dm × Ended (Option SocketSpec))
        → State im dm × Result (SocketSpec × TunnelRemoteOptions)
        → State im dm × Ended (Option SocketSpec)
    after_select a rest (s, err e) = (s, returned none)
    after_select a rest (s, ok (remote, options)) =
        let s' = a.waiting s in
        if is_duration options.connect_timeout
        then if a.connected
          then (copying (remote_connected im dm s' tunnel_key remote), returned (some remote))
          else rest (remote_error im dm s' a.now tunnel_key remote local_client options)
        else (s, panicked)

    -- `while retries > 0`
    unfoldable pub retry_loop : ℕ → State im dm → State im dm × Ended (Option SocketSpec)
    unfolding after_select
    retry_loop zero s = (s, returned none)
    retry_loop (suc n) s =
        let a = attempts n in
        after_select a (retry_loop n) (select_remote im dm s a.gen_range tunnel_key)

    -- `client_disconnected` is not reached after a panic.
    unfoldable pub process_socket : State im dm → State im dm × Ended (Result (Unit {0}))
    unfolding retry_loop
    process_socket s =
        let s' = client_connected im dm s tunnel_key in
        elim (remote_retries im dm s' tunnel_key) [
          | err e ↦ (s', returned (err e))
          | ok retries ↦
              let (u, ended) = retry_loop retries s' in
              elim ended [
                | returned last_remote ↦
                    (client_disconnected im dm u tunnel_key last_remote, returned (ok tt))
                | panicked ↦ (u, panicked)
              ]
        ]

  -- `create_tunnel`: `binding` is what the other tasks do while the listener is bound, and `bound` the
  -- outcome. The handler keeps the receiver of the channel `sender`.
  unfoldable pub create_tunnel :
      (State im dm → State im dm)
      → Result (Unit {0})
      → WatchSender
      → State im dm
      → Tunnel
      → State im dm × Result (Unit {0})
  create_tunnel binding bound sender s tunnel =
      if tunnel_exists im dm s tunnel.local then (s, err Error.tunnel_exists) else elim bound [
        | err e ↦ (binding s, err e)
        | ok _ ↦ add_tunnel im dm (binding s) tunnel sender
      ]

  -- `stop_tunnel`, with the channel that `true` was sent on.
  unfoldable pub stop_tunnel : State im dm → SocketSpec → State im dm × Result WatchSender
  stop_tunnel s local =
      let (s', removed) = remove_tunnel im dm s local in
      elim removed [ ok tunnel_info ↦ (s', ok tunnel_info.close_channel) | err e ↦ (s', err e) ]
