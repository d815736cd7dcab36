-- ===== src/State/Separate/Streams.antt =====
-- Live and dead remotes (src/state.rs): the calls on client streams.
use plexy.Prelude.{ℕ, inl, inr, Bool, true, false, Option, none, some, Option-cases}
use plexy.Tunnel.{SocketSpec}
use plexy.Errors.{Result, ok, err, Result-cases}
use plexy.Maps.{KeyedMap, IndexMap}
use plexy.State.Info
use plexy.State.Info.{TunnelInfo, DeadRemote}
use plexy.State.Store.{State}
use plexy.State.Streams.{
  start_stream, select_remote, client_connected, remote_connected, update_transferred,
  client_disconnected,
}
use plexy.State.Separate.{IsSeparate, AllSeparate, write-AllSeparate, modify_live}

module _ (im : IndexMap) (dm : KeyedMap) where
  module _ {s : State im dm} (h : AllSeparate im dm s) where
    pub client_connected-AllSeparate :
        (l : SocketSpec) → AllSeparate im dm (client_connected im dm s l)
    unfolding client_connected Info.client_connected
    client_connected-AllSeparate l = elim (Option-cases (dm.get l s.tunnels)) [
      | inl e ↦ rw (e, client_connected) h
      | inr (ti, e) ↦ rw (e, client_connected) (write-AllSeparate im dm h l _ (h.at l ti e))
    ]

    pub remote_connected-AllSeparate :
        (l r : SocketSpec) → AllSeparate im dm (remote_connected im dm s l r)
    unfolding remote_connected
    remote_connected-AllSeparate l r = elim (Option-cases (dm.get l s.tunnels)) [
      | inl e ↦ rw (e, remote_connected) h
      | inr (ti, e) ↦ elim (Option-cases (im.get r ti.remotes)) [
        | inl e' ↦ rw (e, e', remote_connected) h
        | inr (_, e') ↦
            rw (e, e', remote_connected)
              (write-AllSeparate im dm h l _ (modify_live im (h.at l ti e) r _))
      ]
    ]

    -- `update_moved_bytes` of a tunnel leaves its maps alone.
    moved_bytes-IsSeparate :
        (sent : Bool) (n : ℕ) (ti : TunnelInfo im)
        → IsSeparate im ti.remotes ti.dead_remotes
        → IsSeparate im
            (Info.update_moved_bytes im sent n ti).remotes
            (Info.update_moved_bytes im sent n ti).dead_remotes
    unfolding Info.update_moved_bytes
    moved_bytes-IsSeparate true n ti p = p
    moved_bytes-IsSeparate false n ti p = p

    pub update_transferred-AllSeparate :
        (l r : SocketSpec) (sent : Bool) (n : ℕ)
        → AllSeparate im dm (update_transferred im dm s l r sent n)
    unfolding update_transferred
    update_transferred-AllSeparate l r sent n = elim (Option-cases (dm.get l s.tunnels)) [
      | inl e ↦ rw (e, update_transferred) h
      | inr (ti, e) ↦
          let p = moved_bytes-IsSeparate sent n ti (h.at l ti e) in
          elim (Option-cases (im.get r (Info.update_moved_bytes im sent n ti).remotes)) [
            | inl e' ↦ rw (e, e', update_transferred) (write-AllSeparate im dm h l _ p)
            | inr (_, e') ↦
                rw (e, e', update_transferred)
                  (write-AllSeparate im dm h l _ (modify_live im p r _))
          ]
    ]

    pub client_disconnected-AllSeparate :
        (l : SocketSpec) (r : Option SocketSpec)
        → AllSeparate im dm (client_disconnected im dm s l r)
    unfolding client_disconnected Info.client_disconnected
    client_disconnected-AllSeparate l none = elim (Option-cases (dm.get l s.tunnels)) [
      | inl e ↦ rw (e, client_disconnected) h
      | inr (ti, e) ↦ rw (e, client_disconnected) (write-AllSeparate im dm h l _ (h.at l ti e))
    ]
    client_disconnected-AllSeparate l (some r) = elim (Option-cases (dm.get l s.tunnels)) [
      | inl e ↦ rw (e, client_disconnected) h
      | inr (ti, e) ↦ elim (Option-cases (im.get r ti.remotes)) [
        | inl e' ↦ rw (e, e', client_disconnected) (write-AllSeparate im dm h l _ (h.at l ti e))
        | inr (_, e') ↦
            rw (e, e', client_disconnected)
              (write-AllSeparate im dm h l _ (modify_live im (h.at l ti e) r _))
      ]
    ]

    start_stream-AllSeparate :
        (l : SocketSpec) (ti : TunnelInfo im) (res : Result SocketSpec)
        → IsSeparate im ti.remotes ti.dead_remotes
        → AllSeparate im dm (start_stream im dm s l (ti, res)).0
    unfolding start_stream
    start_stream-AllSeparate l ti (err e) p = write-AllSeparate im dm h l ti p
    start_stream-AllSeparate l ti (ok k) p = elim (Option-cases (im.get k ti.remotes)) [
      | inl e ↦ rw (e, start_stream) (write-AllSeparate im dm h l ti p)
      | inr (_, e) ↦ rw (e, start_stream) (write-AllSeparate im dm h l _ (modify_live im p k _))
    ]

    picked-IsSeparate :
        (gen : ℕ → ℕ) (ti : TunnelInfo im)
        → IsSeparate im ti.remotes ti.dead_remotes
        → IsSeparate im
            (Info.select_remote im gen ti).0.remotes
            (Info.select_remote im gen ti).0.dead_remotes
    unfolding Info.select_remote
    picked-IsSeparate gen ti p = elim (Result-cases (Info.pick_index im gen ti)) [
      | inl (i, e) ↦ rw (e, Info.select_remote) p
      | inr (x, e) ↦ rw (e, Info.select_remote) p
    ]

    pub select_remote-AllSeparate :
        (gen : ℕ → ℕ) (l : SocketSpec) → AllSeparate im dm (select_remote im dm s gen l).0
    unfolding select_remote
    select_remote-AllSeparate gen l = elim (Option-cases (dm.get l s.tunnels)) [
      | inl e ↦ rw (e, select_remote) h
      | inr (ti, e) ↦
          rw (e, select_remote)
            (start_stream-AllSeparate l _ (Info.select_remote im gen ti).1
              (picked-IsSeparate gen ti (h.at l ti e)))
    ]
