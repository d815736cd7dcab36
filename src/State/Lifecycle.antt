-- ===== src/State/Lifecycle.antt =====
-- src/state.rs and src/state/info.rs: a stream from its selection to its end.
use plexy.Prelude.{
  ℕ, ◌<◌, ◌≡◌, refl, ◌∙◌, inl, inr, some, arith, u64_mod, add64, sub64-add64, Option-cases,
}
use plexy.Tunnel.{SocketSpec}
use plexy.Errors.{ok}
use plexy.Maps.{KeyedMap, IndexMap}
use plexy.State.Remote
use plexy.State.Remote.{RemoteInfo}
use plexy.State.Info
use plexy.State.Info.{TunnelInfo, size}
use plexy.State.Store.{State}
use plexy.State.View.{live_remote}
use plexy.State.Streams.{select_remote, remote_connected, client_disconnected}
use plexy.State.Failures.{live-write_same}
use plexy.State.Select.Strategies.{IsGenRange}
use plexy.State.Select.Streams.{select_remote-IsSelected}

-- A stream came and went: only totals and the errors in a row differ.
pub record IsBalanced (before after : RemoteInfo) : Type 0 where
  pub open_streams : after.stats.streams_open ≡ before.stats.streams_open
  pub pending_streams : after.stats.streams_pending ≡ before.stats.streams_pending
  pub connections : after.stats.total_connections ≡ add64 before.stats.total_connections 1
  pub no_errors : after.stats.num_errors ≡ 0

abbrev closed_stream : RemoteInfo → RemoteInfo
closed_stream x = Remote.client_disconnected (Remote.remote_connected (Remote.new_pending_stream x))

closed_stream-IsBalanced :
    (x : RemoteInfo)
    → x.stats.streams_open < u64_mod
    → x.stats.streams_pending < u64_mod
    → IsBalanced x (closed_stream x)
unfolding Remote.client_disconnected Remote.remote_connected Remote.new_pending_stream
closed_stream-IsBalanced x h k = record {
  open_streams = sub64-add64 x.stats.streams_open 1 h (omega arith);
  pending_streams = sub64-add64 x.stats.streams_pending 1 k (omega arith);
  connections = refl;
  no_errors = refl;
}

module _ (im : IndexMap) (dm : KeyedMap) where
  live-open :
      (s : State im dm) (l r : SocketSpec) (x : RemoteInfo)
      → live_remote im dm s l r ≡ some x
      → (ti : TunnelInfo im) × (dm.get l s.tunnels ≡ some ti) × (im.get r ti.remotes ≡ some x)
  live-open s l r x e = elim (Option-cases (dm.get l s.tunnels)) [
    | inl p ↦ absurd (ground arith)
    | inr (ti, p) ↦ (ti, p, ground arith)
  ]

  remote_connected-live :
      (s : State im dm) (l r : SocketSpec) (x : RemoteInfo)
      → live_remote im dm s l r ≡ some x
      → live_remote im dm (remote_connected im dm s l r) l r ≡ some (Remote.remote_connected x)
  unfolding remote_connected
  remote_connected-live s l r x e =
      let (ti, p, q) = live-open s l r x e in
      rw (p, remote_connected)
        (rw q (
          live-write_same im dm s l
            (record ti { remotes = im.modify r Remote.remote_connected ti.remotes }) ti r p
          ∙ ground (arith, im.get-modify r r Remote.remote_connected ti.remotes)))

  client_disconnected-live :
      (s : State im dm) (l r : SocketSpec) (x : RemoteInfo)
      → live_remote im dm s l r ≡ some x
      → live_remote im dm (client_disconnected im dm s l (some r)) l r
        ≡ some (Remote.client_disconnected x)
  unfolding client_disconnected Info.client_disconnected
  client_disconnected-live s l r x e =
      let (ti, p, q) = live-open s l r x e in
      rw (p, client_disconnected)
        (rw q (
          live-write_same im dm s l
            (record (Info.client_disconnected im ti) {
              remotes = im.modify r Remote.client_disconnected ti.remotes;
            })
            ti r p
          ∙ ground (arith, im.get-modify r r Remote.client_disconnected ti.remotes)))

  -- The state after a stream of the tunnel `l` was given the remote `k`, connected and closed.
  abbrev pub closed_state : State im dm → (ℕ → ℕ) → SocketSpec → SocketSpec → State im dm
  closed_state s gen_range l k =
      client_disconnected im dm (remote_connected im dm (select_remote im dm s gen_range l).0 l k) l
        (some k)

  -- With fewer than 2^64 open and pending streams at each remote: a stream of an open tunnel with a
  -- live remote is given one, and when it was connected and closed that remote's counts of open and
  -- of pending streams are what they were, it has one connection more, and no errors in a row.
  pub stream-IsBalanced :
      (s : State im dm) (gen_range : ℕ → ℕ) (l : SocketSpec) (ti : TunnelInfo im)
      → dm.get l s.tunnels ≡ some ti
      → IsGenRange gen_range
      → 0 < size im ti
      → ((r : SocketSpec) (x : RemoteInfo)
          → im.get r ti.remotes ≡ some x
          → (x.stats.streams_open < u64_mod) × (x.stats.streams_pending < u64_mod))
      → (k : SocketSpec) × (x : RemoteInfo) × (y : RemoteInfo) × ((select_remote im dm s gen_range
            l).1
          ≡ ok (k, ti.options.options))
        × (im.get k ti.remotes ≡ some x)
        × (live_remote im dm (closed_state s gen_range l k) l k ≡ some y)
        × IsBalanced x y
  stream-IsBalanced s gen_range l ti e in_range h bounds =
      let sel = select_remote-IsSelected im dm s gen_range l ti e in_range h in
      let (lo, lp) = bounds sel.key sel.info sel.live in
      (
        sel.key,
        sel.info,
        closed_stream sel.info,
        sel.answer,
        sel.live,
        client_disconnected-live _ l sel.key _ (remote_connected-live _ l sel.key _ sel.pending),
        closed_stream-IsBalanced sel.info lo lp,
      )
