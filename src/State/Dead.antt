-- ===== src/State/Dead.antt =====
-- src/state.rs: errors of remotes, their removal to the dead remotes, and the tasks that check them.
use plexy.Prelude.{ℕ, suc, Bool, [], ◌∷◌, ◌++◌, Option, none, some, leb, if◌then◌else◌}
use plexy.Tunnel.{SocketSpec, SocketAddr, TunnelRemoteOptions, F32, f32_ten}
use plexy.Maps.{KeyedMap, IndexMap}
use plexy.State.Remote
use plexy.State.Remote.{RemoteInfo}
use plexy.State.Info
use plexy.State.Info.{TunnelInfo, DeadRemote, JoinHandle}
use plexy.State.Store.{State, CheckTask, ClientConfig, write, abort}

-- What a failed check writes to the dead remote.
abbrev pub requeue : ℕ → JoinHandle → DeadRemote → DeadRemote
requeue now new_handle d = record {
  remote = Remote.error now none d.remote;
  join_handle = some new_handle;
}

module _ (im : IndexMap) (dm : KeyedMap) where
  open dm use {get}

  -- src/tunnel.rs `TunnelRemoteOptions::tls_config`
  unfoldable pub tls_config : TunnelRemoteOptions → State im dm → Option ClientConfig
  tls_config o s = if o.tls then some s.client_ssl_config else none

  -- The closure of `check_dead`, under the next free handle.
  abbrev pub new_task :
      State im dm → SocketSpec → SocketSpec → F32 → F32 → Option ClientConfig → CheckTask
  new_task s local remote timeout after tls = record {
    handle = s.next_handle;
    local = local;
    remote = remote;
    timeout = timeout;
    after = after;
    tls_config = tls;
  }

  -- `check_dead` spawns its task and returns the handle.
  unfoldable pub check_dead :
      State im dm
      → SocketSpec
      → SocketSpec
      → F32
      → F32
      → Option ClientConfig
      → State im dm × JoinHandle
  check_dead s local remote timeout after tls = (
    record s {
      tasks = s.tasks ++ new_task s local remote timeout after tls ∷ [];
      next_handle = suc s.next_handle;
    },
    s.next_handle,
  )

  -- The `if is_dead` block of `remote_error`, with the tunnel's entry held.
  unfoldable pub bury :
      State im dm → SocketSpec → SocketSpec → TunnelRemoteOptions → TunnelInfo im → State im dm
  unfolding check_dead tls_config
  bury s local remote options ti = elim (im.get remote ti.remotes) [
    | none ↦ write im dm local ti s
    | some rec ↦
        let (s', join_handle) =
          check_dead s local remote options.connect_timeout f32_ten (tls_config options s) in
        write im dm local
          (record ti {
            remotes = im.remove remote ti.remotes;
            dead_remotes =
                im.insert remote (record { remote = rec; join_handle = some join_handle })
                  ti.dead_remotes;
          })
          s'
  ]

  -- `remote_info.stats.num_errors >= options.errors_till_dead` after the error is counted
  unfoldable pub is_dead : ℕ → SocketAddr → TunnelRemoteOptions → RemoteInfo → Bool
  is_dead now client_addr options r =
      leb options.errors_till_dead (Remote.error now (some client_addr) r).stats.num_errors

  unfoldable pub remote_error :
      State im dm → ℕ → SocketSpec → SocketSpec → SocketAddr → TunnelRemoteOptions → State im dm
  unfolding bury is_dead
  remote_error s now local remote client_addr options = elim (get local s.tunnels) [
    | none ↦ s
    | some tunnel ↦
        let ti = Info.remote_error im tunnel in
        elim (im.get remote ti.remotes) [
          | none ↦ write im dm local ti s
          | some r ↦
              let counted : TunnelInfo im = record ti {
                remotes = im.modify remote (Remote.error now (some client_addr)) ti.remotes;
              } in
              if is_dead now client_addr options r
              then bury s local remote options counted
              else write im dm local counted s
        ]
  ]

  -- The rest of the task of `check_dead` after a connection was made.
  unfoldable pub recover : State im dm → SocketSpec → SocketSpec → State im dm
  recover s local remote = elim (get local s.tunnels) [
    | none ↦ s
    | some tunnel ↦ elim (im.get remote tunnel.dead_remotes) [
      | none ↦ s
      | some d ↦
          write im dm local
            (record tunnel {
              dead_remotes = im.remove remote tunnel.dead_remotes;
              remotes = im.insert remote (Remote.remote_recovered d.remote) tunnel.remotes;
            })
            s
    ]
  ]

  -- The same after an error or a timeout: the check is scheduled again.
  unfoldable pub still_dead : State im dm → ℕ → CheckTask → State im dm
  unfolding check_dead
  still_dead s now t = elim (get t.local s.tunnels) [
    | none ↦ s
    | some rec ↦
        let tunnel = Info.remote_error im rec in
        elim (im.get t.remote tunnel.dead_remotes) [
          | none ↦ write im dm t.local tunnel s
          | some _ ↦
              let (s', new_handle) = check_dead s t.local t.remote t.timeout t.after t.tls_config in
              write im dm t.local
                (record tunnel {
                  dead_remotes = im.modify t.remote (requeue now new_handle) tunnel.dead_remotes;
                })
                s'
        ]
  ]

  -- A task that has slept and tried to connect runs to its end, and is gone.
  unfoldable pub run_check : State im dm → ℕ → CheckTask → Bool → State im dm
  unfolding recover still_dead
  run_check s now t connected =
      let s' : State im dm = record s { tasks = abort t.handle s.tasks } in
      if connected then recover s' t.local t.remote else still_dead s' now t
