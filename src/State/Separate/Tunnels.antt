-- ===== src/State/Separate/Tunnels.antt =====
-- Live and dead remotes (src/state.rs): opening and closing tunnels, adding and removing remotes.
use plexy.Prelude.{inl, inr, List, arith, is_some, Option-cases, Bool-cases}
use plexy.Tunnel.{SocketSpec, Tunnel, TunnelOptions}
use plexy.Maps.{KeyedMap, IndexMap}
use plexy.State.Info.{WatchSender, new_tunnel_info}
use plexy.State.Store.{
  State, options_or_default, add_tunnel, remove_tunnel, add_remote_to_tunnel,
  remove_remote_from_tunnel,
}
use plexy.State.Separate.{
  IsSeparate, AllSeparate, write-AllSeparate, remove_live, remove_dead, insert_live,
}

module _ (im : IndexMap) (dm : KeyedMap) where
  new_tunnel_info-IsSeparate :
      (c : WatchSender) (rs : List SocketSpec) (o : TunnelOptions)
      → let t = new_tunnel_info im c rs o in IsSeparate im t.remotes t.dead_remotes
  unfolding new_tunnel_info
  new_tunnel_info-IsSeparate c rs o = record { apart = λ r. inr (im.get-empty r) }

  module _ {s : State im dm} (h : AllSeparate im dm s) where
    pub add_tunnel-AllSeparate :
        (t : Tunnel) (c : WatchSender) → AllSeparate im dm (add_tunnel im dm s t c).0
    unfolding add_tunnel new_tunnel_info
    add_tunnel-AllSeparate t c = elim (Bool-cases (is_some (dm.get t.local s.tunnels))) [
      | inl e ↦ rw (e, add_tunnel) h
      | inr e ↦
          rw (e, add_tunnel)
            (record {
              at = λ j ti p. ground (
                arith,
                h.at j ti,
                dm.get-insert t.local j
                    (new_tunnel_info im c t.remote (options_or_default im dm s t.options))
                    s.tunnels,
                new_tunnel_info-IsSeparate c t.remote (options_or_default im dm s t.options),
              );
            })
    ]

    pub remove_tunnel-AllSeparate : (l : SocketSpec) → AllSeparate im dm (remove_tunnel im dm s l).0
    unfolding remove_tunnel
    remove_tunnel-AllSeparate l = elim (Option-cases (dm.get l s.tunnels)) [
      | inl e ↦ rw (e, remove_tunnel) h
      | inr (t, e) ↦
          rw (e, remove_tunnel)
            (record { at = λ j ti p. h.at j ti (ground (arith, dm.get-remove l j s.tunnels)) })
    ]

    pub add_remote-AllSeparate :
        (l r : SocketSpec) → AllSeparate im dm (add_remote_to_tunnel im dm s l r).0
    unfolding add_remote_to_tunnel
    add_remote-AllSeparate l r = elim (Option-cases (dm.get l s.tunnels)) [
      | inl e ↦ rw (e, add_remote_to_tunnel) h
      | inr (ti, e) ↦ elim (Option-cases (im.get r ti.remotes)) [
        | inr (_, live) ↦ rw (e, live, add_remote_to_tunnel) h
        | inl live ↦ elim (Option-cases (im.get r ti.dead_remotes)) [
          | inr (_, dead) ↦ rw (e, live, dead, add_remote_to_tunnel) h
          | inl dead ↦
              rw (e, live, dead, add_remote_to_tunnel)
                (write-AllSeparate im dm h l _ (insert_live im (h.at l ti e) r _ dead))
        ]
      ]
    ]

    pub remove_remote-AllSeparate :
        (l r : SocketSpec) → AllSeparate im dm (remove_remote_from_tunnel im dm s l r).0
    unfolding remove_remote_from_tunnel
    remove_remote-AllSeparate l r = elim (Option-cases (dm.get l s.tunnels)) [
      | inl e ↦ rw (e, remove_remote_from_tunnel) h
      | inr (ti, e) ↦ elim (Option-cases (im.get r ti.remotes)) [
        | inr (_, live) ↦
            rw (e, live, remove_remote_from_tunnel)
              (write-AllSeparate im dm h l _ (remove_live im (h.at l ti e) r))
        | inl live ↦ elim (Option-cases (im.get r ti.dead_remotes)) [
          | inr (_, dead) ↦
              rw (e, live, dead, remove_remote_from_tunnel)
                (write-AllSeparate im dm h l _ (remove_dead im (h.at l ti e) r))
          | inl dead ↦ rw (e, live, dead, remove_remote_from_tunnel) h
        ]
      ]
    ]
