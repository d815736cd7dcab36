-- ===== src/Rpc/Changed.antt =====
-- src/rpc.rs: `tunnelInfo` between `addRemote` and `removeRemote`.
use plexy.Prelude.{ℕ, suc, sym, ◌≡◌, refl, ap, ◌∙◌, none, some, Text, length, arith}
use plexy.Errors.{Result, ok}
use plexy.Maps.{KeyedMap, IndexMap}
use plexy.Nom.{Nom}
use plexy.Tunnel.{SocketSpec}
use plexy.Tunnel.Specs.{socket_spec_from_str}
use plexy.State.Stats.{RemoteStats}
use plexy.State.Remote.{new_remote_info}
use plexy.State.Info.{TunnelInfo}
use plexy.State.Store.{State, write, info_to}
use plexy.State.Remotes.{add_remote-new, remove_remote-live, tunnel-write}
use plexy.Rpc.{RpcTunnelInfo, rpc_tunnel_info, tunnel_info, add_remote, remove_remote}

module _ (nom : Nom) (im : IndexMap) (dm : KeyedMap) (s : State im dm) (a b : Text)
    (k r : SocketSpec) (ti : TunnelInfo im) (tunnel_text : socket_spec_from_str nom a ≡ ok k)
    (remote_text : socket_spec_from_str nom b ≡ ok r) (open_tunnel : dm.get k s.tunnels ≡ some ti)
    (not_live : im.get r ti.remotes ≡ none) (not_dead : im.get r ti.dead_remotes ≡ none) where
  abbrev pub added : State im dm
  added = (add_remote nom im dm s a b).0

  abbrev pub removed : State im dm
  removed = (remove_remote nom im dm added a b).0

  abbrev longer : TunnelInfo im
  longer = record ti { remotes = im.insert r new_remote_info ti.remotes }

  abbrev as_before : TunnelInfo im
  as_before = record longer { remotes = im.remove r longer.remotes }

  add_remote-done : add_remote nom im dm s a b ≡ (write im dm k longer s, ok tt)
  unfolding add_remote
  add_remote-done =
      rw (tunnel_text, remote_text) (add_remote-new im dm s k r ti open_tunnel not_live not_dead)

  inserted : im.get r longer.remotes ≡ some new_remote_info
  inserted = ground (arith, im.get-insert r r new_remote_info ti.remotes)

  remove_remote-done :
      remove_remote nom im dm (write im dm k longer s) a b
      ≡ (write im dm k as_before (write im dm k longer s), ok new_remote_info.stats)
  unfolding remove_remote
  remove_remote-done =
      rw
        (
          tunnel_text,
          remote_text,
          remove_remote-live im dm (write im dm k longer s) k r longer
              (tunnel-write im dm s k r ti open_tunnel longer) new_remote_info inserted,
        )
        refl

  tunnel_info-open :
      (u : State im dm) (t : TunnelInfo im)
      → dm.get k u.tunnels ≡ some t
      → tunnel_info nom im dm u a ≡ ok (rpc_tunnel_info nom im dm t)
  unfolding tunnel_info info_to
  tunnel_info-open u t e = rw (tunnel_text, e, info_to) refl

  restored_entries : length (im.entries as_before.remotes) ≡ length (im.entries ti.remotes)
  restored_entries =
      let shorter = im.length-remove r new_remote_info longer.remotes inserted in
      let one_more = im.length-insert r new_remote_info ti.remotes not_live in
      omega (arith, shorter, one_more)

  abbrev with_remotes : RpcTunnelInfo → ℕ → RpcTunnelInfo
  with_remotes i n = record i { num_remotes = n }

  -- For two texts that are accepted as the address of an open tunnel and an address that is neither a
  -- live nor a dead remote of it: `addRemote` with them succeeds, and `tunnelInfo` has then one live
  -- remote more and is else as before; `removeRemote` with them then answers with the statistics of
  -- a new remote, and `tunnelInfo` is again as it was before both.
  pub tunnel_info-add_remote :
      (i : RpcTunnelInfo)
      → tunnel_info nom im dm s a ≡ ok i
      → ((add_remote nom im dm s a b).1 ≡ ok tt)
        × (tunnel_info nom im dm added a ≡ ok (with_remotes i (suc i.num_remotes)))
        × ((remove_remote nom im dm added a b).1 ≡ ok new_remote_info.stats)
        × (tunnel_info nom im dm removed a ≡ ok i)
  tunnel_info-add_remote i e =
      let same : ok (rpc_tunnel_info nom im dm ti) ≡ ok i =
        sym (tunnel_info-open s ti open_tunnel) ∙ e in
      let before : rpc_tunnel_info nom im dm ti ≡ i = cc in
      let now = tunnel-write im dm s k r ti open_tunnel longer in
      let again = tunnel-write im dm (write im dm k longer s) k r longer now as_before in
      let added_eq : added ≡ write im dm k longer s =
        ap (λ (x : State im dm × Result (Unit {0})). x.0) add_remote-done in
      let removed_eq : removed ≡ write im dm k as_before (write im dm k longer s) =
        ap (λ (u : State im dm). (remove_remote nom im dm u a b).0) added_eq
        ∙ ap (λ (x : State im dm × Result RemoteStats). x.0) remove_remote-done in
      (
        ap (λ (x : State im dm × Result (Unit {0})). x.1) add_remote-done,
        ap (λ (u : State im dm). tunnel_info nom im dm u a) added_eq
            ∙ tunnel_info-open (write im dm k longer s) longer now
            ∙ ap (λ (n : ℕ). ok (with_remotes (rpc_tunnel_info nom im dm ti) n))
                (im.length-insert r new_remote_info ti.remotes not_live)
            ∙ ap (λ (j : RpcTunnelInfo). ok (with_remotes j (suc j.num_remotes))) before,
        ap (λ (u : State im dm). (remove_remote nom im dm u a b).1) added_eq
            ∙ ap (λ (x : State im dm × Result RemoteStats). x.1) remove_remote-done,
        ap (λ (u : State im dm). tunnel_info nom im dm u a) removed_eq
            ∙ tunnel_info-open _ as_before again
            ∙ ap (λ (n : ℕ). ok (with_remotes (rpc_tunnel_info nom im dm ti) n)) restored_entries
            ∙ same,
      )
