-- ===== src/State/Streams.antt =====
-- src/state.rs: what the state records about client streams.
use plexy.Prelude.{ℕ, Bool, Option, none, some}
use plexy.Tunnel.{SocketSpec, TunnelRemoteOptions}
use plexy.Errors.{Result, ok, err, tunnel_does_not_exist, no_remote}
use plexy.Maps.{KeyedMap, IndexMap}
use plexy.State.Remote
use plexy.State.Info
use plexy.State.Info.{TunnelInfo}
use plexy.State.Store.{State, write}

module _ (im : IndexMap) (dm : KeyedMap) where
  open dm use {get}

  -- The second half of `State::select_remote`, with the tunnel's entry held: `ti` is the tunnel
  -- after `ti.select_remote()`.
  unfoldable pub start_stream :
      State im dm
      → SocketSpec
      → TunnelInfo im × Result SocketSpec
      → State im dm × Result (SocketSpec × TunnelRemoteOptions)
  start_stream s tunnel_key (ti, err e) = (write im dm tunnel_key ti s, err e)
  start_stream s tunnel_key (ti, ok selected) = elim (im.get selected ti.remotes) [
    | none ↦ (write im dm tunnel_key ti s, err no_remote)
    | some _ ↦ (
      write im dm tunnel_key
          (record ti { remotes = im.modify selected Remote.new_pending_stream ti.remotes }) s,
      ok (selected, ti.options.options),
    )
  ]

  unfoldable pub select_remote :
      State im dm → (ℕ → ℕ) → SocketSpec → State im dm × Result (SocketSpec × TunnelRemoteOptions)
  unfolding start_stream
  select_remote s gen_range tunnel_key = elim (get tunnel_key s.tunnels) [
    | none ↦ (s, err tunnel_does_not_exist)
    | some ti ↦ start_stream s tunnel_key (Info.select_remote im gen_range ti)
  ]

  unfoldable pub client_connected : State im dm → SocketSpec → State im dm
  client_connected s local = elim (get local s.tunnels) [
    | none ↦ s
    | some ti ↦ write im dm local (Info.client_connected im ti) s
  ]

  unfoldable pub remote_connected : State im dm → SocketSpec → SocketSpec → State im dm
  remote_connected s local remote = elim (get local s.tunnels) [
    | none ↦ s
    | some ti ↦ elim (im.get remote ti.remotes) [
      | none ↦ s
      | some _ ↦
          write im dm local
            (record ti { remotes = im.modify remote Remote.remote_connected ti.remotes }) s
    ]
  ]

  unfoldable pub update_transferred : State im dm → SocketSpec → SocketSpec → Bool → ℕ → State im dm
  update_transferred s local remote sent bytes = elim (get local s.tunnels) [
    | none ↦ s
    | some rec ↦
        let ti = Info.update_moved_bytes im sent bytes rec in
        elim (im.get remote ti.remotes) [
          | none ↦ write im dm local ti s
          | some _ ↦
              write im dm local
                (record ti {
                  remotes = im.modify remote (Remote.update_moved_bytes sent bytes) ti.remotes;
                })
                s
        ]
  ]

  unfoldable pub client_disconnected : State im dm → SocketSpec → Option SocketSpec → State im dm
  client_disconnected s local remote = elim (get local s.tunnels) [
    | none ↦ s
    | some rec ↦
        let ti = Info.client_disconnected im rec in
        elim remote [
          | none ↦ write im dm local ti s
          | some r ↦ elim (im.get r ti.remotes) [
            | none ↦ write im dm local ti s
            | some _ ↦
                write im dm local
                  (record ti { remotes = im.modify r Remote.client_disconnected ti.remotes }) s
          ]
        ]
  ]
