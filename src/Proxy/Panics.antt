-- ===== src/Proxy/Panics.antt =====
-- src/lib.rs, `process_socket`: the panic on a `connect_timeout` that is no duration.
use plexy.Prelude.{ℕ, suc, ◌<◌, ◌≡◌, refl, ap, ◌∙◌, false, Option, some, arith, add64}
use plexy.Tunnel.{SocketSpec, SocketAddr, TunnelRemoteOptions}
use plexy.Errors.{Result, ok}
use plexy.Maps.{KeyedMap, IndexMap}
use plexy.State.Info
use plexy.State.Info.{TunnelInfo, size}
use plexy.State.Store.{State, remote_retries}
use plexy.State.Streams.{select_remote, client_connected}
use plexy.State.Failures.{get-write}
use plexy.State.Select.Strategies.{IsGenRange}
use plexy.State.Select.Streams.{select_remote-IsSelected}
use plexy.Proxy.{Attempt, Ended, panicked, is_duration, after_select, retry_loop, process_socket}
use plexy.Proxy.Counts.{open_streams, select_remote-open, connected}

module _ (im : IndexMap) (dm : KeyedMap) (l : SocketSpec) (attempts : ℕ → Attempt im dm)
    (copying : State im dm → State im dm) (local_client : SocketAddr) where
  connected_tunnel :
      (s : State im dm) (ti : TunnelInfo im)
      → dm.get l s.tunnels ≡ some ti
      → dm.get l (client_connected im dm s l).tunnels ≡ some (Info.client_connected im ti)
  unfolding client_connected
  connected_tunnel s ti e =
      rw (e, client_connected) (ground (arith, get-write im dm s l (Info.client_connected im ti) l))

  after_select-panicked :
      (a : Attempt im dm) (rest : State im dm → State im dm × Ended (Option SocketSpec))
      (r : State im dm × Result (SocketSpec × TunnelRemoteOptions)) (k : SocketSpec)
      (o : TunnelRemoteOptions)
      → r.1 ≡ ok (k, o)
      → is_duration o.connect_timeout ≡ false
      → after_select im dm attempts copying l local_client a rest r ≡ (r.0, panicked)
  unfolding after_select
  after_select-panicked a rest (s, r) k o e f = rw (e, after_select, f) refl

  -- The task of a connection to an open tunnel with a live remote and one retry or more, with a
  -- generator that draws from its range, where `connect_timeout` is no duration: it panics, and the
  -- connection stays counted in the tunnel's open streams.
  pub process_socket-panicked :
      (s : State im dm) (ti : TunnelInfo im) (n : ℕ)
      → dm.get l s.tunnels ≡ some ti
      → 0 < size im ti
      → ti.options.remote_connect_retries ≡ suc n
      → IsGenRange (attempts n).gen_range
      → is_duration ti.options.options.connect_timeout ≡ false
      → ((process_socket im dm attempts copying l local_client s).1 ≡ panicked)
        × (open_streams im dm l (process_socket im dm attempts copying l local_client s).0
            ≡ some (add64 ti.stats.streams_open 1, ti.options.options.connect_timeout))
  unfolding process_socket remote_retries retry_loop Info.client_connected
  process_socket-panicked s ti n e lt q in_range invalid =
      let c = client_connected im dm s l in
      let f = connected_tunnel s ti e in
      let g = (attempts n).gen_range in
      let picked =
        select_remote-IsSelected im dm c g l (Info.client_connected im ti) f in_range lt in
      let p =
        after_select-panicked (attempts n) (retry_loop im dm attempts copying l local_client n)
          (select_remote im dm c g l) picked.key ti.options.options picked.answer invalid in
      let retries = (Info.client_connected im ti).options.remote_connect_retries in
      let loop : retry_loop im dm attempts copying l local_client retries c
          ≡ ((select_remote im dm c g l).0, panicked) =
        ap (λ (k : ℕ). retry_loop im dm attempts copying l local_client k c) q ∙ p in
      rw (f, process_socket)
        (rw loop (
          refl,
          ap (λ (x : State im dm × Ended (Option SocketSpec)). open_streams im dm l x.0) loop
              ∙ select_remote-open im dm l c g
              ∙ connected im dm l s ti e,
        ))
