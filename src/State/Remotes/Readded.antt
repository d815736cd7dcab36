-- ===== src/State/Remotes/Readded.antt =====
-- src/state.rs: a remote that is added and removed, or removed and added again.
use plexy.Prelude.{◌-◌, ◌≡◌, refl, ap, ◌∙◌, none, some, arith, u64_mod, sub64, add64}
use plexy.Tunnel.{SocketSpec}
use plexy.Errors.{Result, ok}
use plexy.Maps.{KeyedMap, IndexMap}
use plexy.State.Remote
use plexy.State.Remote.{RemoteInfo, new_remote_info}
use plexy.State.Info.{TunnelInfo}
use plexy.State.Store.{State, write, add_remote_to_tunnel, remove_remote_from_tunnel}
use plexy.State.View.{live_remote, dead_remote}
use plexy.State.Streams.{remote_connected}
use plexy.State.Failures.{live-write_same, get-write}
use plexy.State.Remotes.{add_remote-new, remove_remote-live, tunnel-write}

module _ (im : IndexMap) (dm : KeyedMap) (s : State im dm) (l r : SocketSpec) where
  abbrev pub added : State im dm
  added = (add_remote_to_tunnel im dm s l r).0

  abbrev pub removed_again : State im dm × Result RemoteInfo
  removed_again = remove_remote_from_tunnel im dm added l r

  -- The remote is removed and added while a stream is connecting to it.
  abbrev pub readded : State im dm
  readded = (add_remote_to_tunnel im dm (remove_remote_from_tunnel im dm s l r).0 l r).0

  module _ (ti : TunnelInfo im) (open_tunnel : dm.get l s.tunnels ≡ some ti) where
    abbrev with_remote : TunnelInfo im
    with_remote = record ti { remotes = im.insert r new_remote_info ti.remotes }

    abbrev back_again : TunnelInfo im
    back_again = record with_remote { remotes = im.remove r with_remote.remotes }

    module _ (not_live : im.get r ti.remotes ≡ none)
        (not_dead : im.get r ti.dead_remotes ≡ none) where
      added_then_removed :
          removed_again
          ≡ (write im dm l back_again (write im dm l with_remote s), ok new_remote_info)
      added_then_removed =
          ap (λ (p : State im dm × Result (Unit {0})). remove_remote_from_tunnel im dm p.0 l r)
            (add_remote-new im dm s l r ti open_tunnel not_live not_dead)
          ∙ remove_remote-live im dm (write im dm l with_remote s) l r with_remote
              (tunnel-write im dm s l r ti open_tunnel with_remote) new_remote_info
              (ground (arith, im.get-insert r r new_remote_info ti.remotes))

      back_again-same : (j : SocketSpec) → im.get j back_again.remotes ≡ im.get j ti.remotes
      back_again-same j = ground (
        arith,
        not_live,
        im.get-remove r j with_remote.remotes,
        im.get-insert r j new_remote_info ti.remotes,
      )

      -- Adding a remote that the tunnel does not have, live or dead, succeeds; removing it then answers
      -- with its fresh statistics, and every live and dead remote of every tunnel is what it was.
      pub add_remote-remove_remote :
          ((add_remote_to_tunnel im dm s l r).1 ≡ ok tt)
          × (removed_again.1 ≡ ok new_remote_info)
          × ((m j : SocketSpec) → live_remote im dm removed_again.0 m j ≡ live_remote im dm s m j)
          × ((m j : SocketSpec) → dead_remote im dm removed_again.0 m j ≡ dead_remote im dm s m j)
      add_remote-remove_remote = (
        ap (λ p. p.1) (add_remote-new im dm s l r ti open_tunnel not_live not_dead),
        ap (λ p. p.1) added_then_removed,
        λ m j. rw added_then_removed (
            ground (
              arith,
              open_tunnel,
              back_again-same j,
              get-write im dm (write im dm l with_remote s) l back_again m,
              get-write im dm s l with_remote m,
            )),
        λ m j. rw added_then_removed (
            ground (
              arith,
              open_tunnel,
              get-write im dm (write im dm l with_remote s) l back_again m,
              get-write im dm s l with_remote m,
            )),
      )

    module _ (x : RemoteInfo) (live : im.get r ti.remotes ≡ some x)
        (not_dead : im.get r ti.dead_remotes ≡ none) where
      abbrev without : TunnelInfo im
      without = record ti { remotes = im.remove r ti.remotes }

      abbrev fresh : TunnelInfo im
      fresh = record without { remotes = im.insert r new_remote_info without.remotes }

      readded_state : readded ≡ write im dm l fresh (write im dm l without s)
      readded_state =
          ap (λ (p : State im dm × Result RemoteInfo). (add_remote_to_tunnel im dm p.0 l r).0)
            (remove_remote-live im dm s l r ti open_tunnel x live)
          ∙ ap (λ (p : State im dm × Result (Unit {0})). p.0)
              (add_remote-new im dm (write im dm l without s) l r without
                (tunnel-write im dm s l r ti open_tunnel without)
                (ground (arith, im.get-remove r r ti.remotes)) not_dead)

      readded_open : dm.get l readded.tunnels ≡ some fresh
      readded_open = rw readded_state (
          tunnel-write im dm (write im dm l without s) l r without
            (tunnel-write im dm s l r ti open_tunnel without) fresh)

      -- A live remote is removed and added again, and a stream that was connecting to it before connects
      -- then: the count of pending streams is 2^64 - 1, since the new remote counts none.
      pub readded-remote_connected :
          (y : RemoteInfo) × (live_remote im dm (remote_connected im dm readded l r) l r ≡ some y)
          × (y.stats.streams_pending ≡ u64_mod - 1)
          × (y.stats.streams_open ≡ 1)
      unfolding remote_connected Remote.remote_connected sub64 add64
      readded-remote_connected = (
        Remote.remote_connected new_remote_info,
        rw (readded_open, remote_connected)
            (rw fresh_live (
              live-write_same im dm readded l
                (record fresh { remotes = im.modify r Remote.remote_connected fresh.remotes }) fresh
                r readded_open
              ∙ ground
                  (arith, fresh_live, im.get-modify r r Remote.remote_connected fresh.remotes))),
        refl,
        refl,
      )
        where
          fresh_live : im.get r fresh.remotes ≡ some new_remote_info
          fresh_live = ground (arith, im.get-insert r r new_remote_info without.remotes)
