-- ===== src/State/Select/Streams.antt =====
-- src/state.rs, `select_remote`: its answer, and what it writes.
use plexy.Prelude.{ℕ, ◌<◌, ◌≡◌, ◌≢◌, some, ite, arith, option_map}
use plexy.Tunnel.{SocketSpec, SocketSpec-discrete}
use plexy.Errors.{ok, err, no_remote}
use plexy.Maps.{KeyedMap, IndexMap}
use plexy.State.Remote
use plexy.State.Remote.{RemoteInfo}
use plexy.State.Info
use plexy.State.Info.{TunnelInfo, size, pick_index, key_at}
use plexy.State.Store.{State, write}
use plexy.State.View.{live_remote}
use plexy.State.Streams.{start_stream, select_remote}
use plexy.State.Select.Strategies.{IsGenRange, pick_index_lt, pick_index_none, key_at_entries}

module _ (im : IndexMap) (dm : KeyedMap) where
  -- `select_remote` answered with a live remote and counted a pending stream there, and only there.
  pub record IsSelected (s : State im dm) (gen_range : ℕ → ℕ) (l : SocketSpec) (ti : TunnelInfo im)
      : Type 0 where
    pub key : SocketSpec
    pub info : RemoteInfo
    pub live : im.get key ti.remotes ≡ some info
    pub answer : (select_remote im dm s gen_range l).1 ≡ ok (key, ti.options.options)
    pub pending :
        live_remote im dm (select_remote im dm s gen_range l).0 l key
        ≡ some (Remote.new_pending_stream info)
    pub others :
        (j : SocketSpec)
        → key ≢ j
        → live_remote im dm (select_remote im dm s gen_range l).0 l j ≡ im.get j ti.remotes
    pub elsewhere :
        (m j : SocketSpec)
        → l ≢ m
        → live_remote im dm (select_remote im dm s gen_range l).0 m j ≡ live_remote im dm s m j

  module _ (s : State im dm) (gen_range : ℕ → ℕ) (l : SocketSpec) (ti : TunnelInfo im)
      (open_tunnel : dm.get l s.tunnels ≡ some ti) where
    abbrev pending_tunnel : ℕ → SocketSpec → TunnelInfo im
    pending_tunnel i k = record ti {
      last_selected_index = some i;
      remotes = im.modify k Remote.new_pending_stream ti.remotes;
    }

    picks_tunnel :
        (i : ℕ) (k : SocketSpec)
        → pick_index im gen_range ti ≡ ok i
        → key_at im i ti ≡ ok k
        → Info.select_remote im gen_range ti ≡ (record ti { last_selected_index = some i }, ok k)
    unfolding Info.select_remote
    picks_tunnel i k e f = rw (e, Info.select_remote, f)

    picks_state :
        (i : ℕ) (k : SocketSpec) (r : RemoteInfo)
        → pick_index im gen_range ti ≡ ok i
        → key_at im i ti ≡ ok k
        → im.get k ti.remotes ≡ some r
        → select_remote im dm s gen_range l
          ≡ (write im dm l (pending_tunnel i k) s, ok (k, ti.options.options))
    unfolding select_remote
    picks_state i k r e f g =
        rw (open_tunnel, select_remote, picks_tunnel i k e f) (rw (g, start_stream))

    live_after :
        (i : ℕ) (k m j : SocketSpec)
        → live_remote im dm (write im dm l (pending_tunnel i k) s) m j
          ≡ ite
              (SocketSpec-discrete l m)
              (ite
                (SocketSpec-discrete k j)
                (option_map Remote.new_pending_stream (im.get j ti.remotes))
                (im.get j ti.remotes))
              (live_remote im dm s m j)
    unfolding write
    live_after i k m j = ground (
      arith,
      dm.get-modify l m (λ (_ : TunnelInfo im). pending_tunnel i k) s.tunnels,
      im.get-modify k j Remote.new_pending_stream ti.remotes,
    )

    -- With a generator that draws from its range: an open tunnel with a live remote answers a selection
    -- with one of its live remotes, counts a pending stream there, and no other live remote of any
    -- tunnel is seen to change.
    pub select_remote-IsSelected :
        IsGenRange gen_range → 0 < size im ti → IsSelected s gen_range l ti
    select_remote-IsSelected in_range h =
        let (i, e, lt) = pick_index_lt im gen_range in_range ti h in
        let (k, r, f, g) = key_at_entries im ti i lt in
        let done = picks_state i k r e f g in
        record {
          key = k;
          info = r;
          live = g;
          answer = rw done;
          pending = rw done (ground (arith, live_after i k l k));
          others = λ j ne. rw done (ground (arith, live_after i k l j));
          elsewhere = λ m j ne. rw done (ground (arith, live_after i k m j));
        }

    -- An open tunnel without a live remote answers a selection with `NoRemote`, and no tunnel changes.
    pub select_remote_no_remote :
        size im ti ≡ 0
        → ((select_remote im dm s gen_range l).1 ≡ err no_remote)
          × ((m : SocketSpec)
              → dm.get m (select_remote im dm s gen_range l).0.tunnels ≡ dm.get m s.tunnels)
    unfolding select_remote Info.select_remote start_stream write
    select_remote_no_remote e =
        let f = pick_index_none im gen_range ti e in
        (
          ground arith,
          λ m. ground (arith, dm.get-modify l m (λ (_ : TunnelInfo im). ti) s.tunnels, f),
        )
