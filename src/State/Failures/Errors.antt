-- ===== src/State/Failures/Errors.antt =====
-- src/state.rs, `remote_error`: an error of a live remote.
use plexy.Prelude.{
  ℕ, suc, ◌≤◌, ◌<◌, ◌≡◌, ◌≢◌, refl, ◌∙◌, ◌⊎◌, inl, inr, true, false, [], ◌∷◌, ◌++◌, none, some,
  arith, Bool-cases, add64, sub64, option_map,
}
use plexy.Tunnel.{SocketSpec, SocketAddr, TunnelRemoteOptions, f32_ten}
use plexy.Maps.{KeyedMap, IndexMap}
use plexy.State.Remote
use plexy.State.Remote.{RemoteInfo}
use plexy.State.Stats.{RemoteStats}
use plexy.State.Info
use plexy.State.Info.{TunnelInfo, DeadRemote}
use plexy.State.Store.{State, write}
use plexy.State.View.{live_remote, dead_remote}
use plexy.State.Dead.{remote_error, bury, check_dead, new_task, tls_config, is_dead}
use plexy.State.Failures.{
  with_error, tunnel_errors, errors-write, live-write_same, dead-write_same, get-write_other,
}

module _ (im : IndexMap) (dm : KeyedMap) where
  -- The statistics of a live remote after an error of a client's stream, which was pending.
  abbrev pub errored : ℕ → RemoteStats → RemoteStats
  errored now x = record (with_error now x) { streams_pending = sub64 x.streams_pending 1 }

  -- The remote `r` of the tunnel `l`, with the statistics `x` before, is dead with the error counted,
  -- a new task for it runs, and the tunnel counts one error more.
  pub record IsBuried (s : State im dm) (now : ℕ) (l r : SocketSpec) (o : TunnelRemoteOptions)
      (x : RemoteStats) (u : State im dm) : Type 0 where
    pub not_live : live_remote im dm u l r ≡ none
    pub counted : RemoteInfo
    pub stats : counted.stats ≡ errored now x
    pub dead :
        dead_remote im dm u l r
        ≡ some (record { remote = counted; join_handle = some s.next_handle })
    pub spawned :
        u.tasks
        ≡ s.tasks ++ new_task im dm s l r o.connect_timeout f32_ten (tls_config im dm o s) ∷ []
    pub errors :
        tunnel_errors im dm u l ≡ option_map (λ (n : ℕ). add64 n 1) (tunnel_errors im dm s l)

  -- The remote lives on with the error counted, and the tunnel counts one error more.
  pub record IsSpared (s : State im dm) (now : ℕ) (l r : SocketSpec) (x : RemoteStats)
      (u : State im dm) : Type 0 where
    pub counted : RemoteInfo
    pub stats : counted.stats ≡ errored now x
    pub live : live_remote im dm u l r ≡ some counted
    pub same_dead : dead_remote im dm u l r ≡ dead_remote im dm s l r
    pub no_task : u.tasks ≡ s.tasks
    pub errors :
        tunnel_errors im dm u l ≡ option_map (λ (n : ℕ). add64 n 1) (tunnel_errors im dm s l)

  -- No other remote and no other tunnel is seen to change.
  pub record IsElsewhereSame (s : State im dm) (l r : SocketSpec) (u : State im dm) : Type 0 where
    pub same_live : (j : SocketSpec) → r ≢ j → live_remote im dm u l j ≡ live_remote im dm s l j
    pub other_dead : (j : SocketSpec) → r ≢ j → dead_remote im dm u l j ≡ dead_remote im dm s l j
    pub tunnels : (m : SocketSpec) → l ≢ m → dm.get m u.tunnels ≡ dm.get m s.tunnels

  module _ (s : State im dm) (now : ℕ) (l r : SocketSpec) (a : SocketAddr) (o : TunnelRemoteOptions)
      (ti : TunnelInfo im) (x : RemoteInfo) (open_tunnel : dm.get l s.tunnels ≡ some ti)
      (live_before : im.get r ti.remotes ≡ some x) where
    abbrev counted_error : RemoteInfo
    counted_error = Remote.error now (some a) x

    abbrev spared_tunnel : TunnelInfo im
    spared_tunnel = record (Info.remote_error im ti) {
      remotes = im.modify r (Remote.error now (some a)) ti.remotes;
    }

    abbrev buried_tunnel : TunnelInfo im
    buried_tunnel = record spared_tunnel {
      remotes = im.remove r spared_tunnel.remotes;
      dead_remotes =
          im.insert r (record { remote = counted_error; join_handle = some s.next_handle })
            ti.dead_remotes;
    }

    abbrev with_task : State im dm
    with_task = record s {
      tasks = s.tasks ++ new_task im dm s l r o.connect_timeout f32_ten (tls_config im dm o s) ∷ [];
      next_handle = suc s.next_handle;
    }

    error-spared :
        is_dead im dm now a o x ≡ false
        → remote_error im dm s now l r a o ≡ write im dm l spared_tunnel s
    unfolding remote_error Info.remote_error
    error-spared e = rw (open_tunnel, live_before, e, remote_error) refl

    counted_live : im.get r spared_tunnel.remotes ≡ some counted_error
    counted_live = ground (arith, im.get-modify r r (Remote.error now (some a)) ti.remotes)

    spared_dead : (j : SocketSpec) → im.get j spared_tunnel.dead_remotes ≡ dead_remote im dm s l j
    unfolding Info.remote_error
    spared_dead j = rw (open_tunnel, dead_remote) refl

    error-buried :
        is_dead im dm now a o x ≡ true
        → remote_error im dm s now l r a o ≡ write im dm l buried_tunnel with_task
    unfolding remote_error Info.remote_error bury check_dead
    error-buried e = rw (open_tunnel, live_before, e, remote_error) (rw (counted_live, bury) refl)

    -- An error of a live remote adds one, modulo 2^64, to its total errors, to its errors in a row and
    -- to the tunnel's errors, notes the time and takes one, modulo 2^64, from its pending streams; the
    -- remote dies, and a task to check it is spawned, when that makes `errors_till_dead` errors in a
    -- row, and lives on when it makes fewer.
    pub remote_error-verdict :
        ((o.errors_till_dead ≤ add64 x.stats.num_errors 1)
          × IsBuried s now l r o x.stats (remote_error im dm s now l r a o))
        ⊎ ((add64 x.stats.num_errors 1 < o.errors_till_dead)
            × IsSpared s now l r x.stats (remote_error im dm s now l r a o))
    unfolding is_dead Remote.error Info.remote_error
    remote_error-verdict = elim (Bool-cases (is_dead im dm now a o x)) [
      | inl e ↦ inl (
        ground arith,
        rw (error-buried e) (record {
          not_live =
              live-write_same im dm with_task l buried_tunnel ti r open_tunnel
              ∙ ground (arith, im.get-remove r r spared_tunnel.remotes);
          counted = counted_error;
          stats = refl;
          errors = errors-write im dm with_task l buried_tunnel ti open_tunnel refl;
          dead =
              dead-write_same im dm with_task l buried_tunnel ti r open_tunnel
              ∙ ground (
                arith,
                im.get-insert r r
                    (record { remote = counted_error; join_handle = some s.next_handle })
                    ti.dead_remotes,
              );
          spawned = unfold write in refl;
        }),
      )
      | inr e ↦ inr (
        ground arith,
        rw (error-spared e) (record {
          counted = counted_error;
          stats = refl;
          errors = errors-write im dm s l spared_tunnel ti open_tunnel refl;
          live = live-write_same im dm s l spared_tunnel ti r open_tunnel ∙ counted_live;
          same_dead = dead-write_same im dm s l spared_tunnel ti r open_tunnel ∙ spared_dead r;
          no_task = unfold write in refl;
        }),
      )
    ]

    -- Whatever the verdict, no other remote and no other tunnel is seen to change.
    pub remote_error-IsElsewhereSame : IsElsewhereSame s l r (remote_error im dm s now l r a o)
    remote_error-IsElsewhereSame = elim (Bool-cases (is_dead im dm now a o x)) [
      | inl e ↦ rw (error-buried e) (record {
        same_live = λ j ne.
            live-write_same im dm with_task l buried_tunnel ti j open_tunnel
            ∙ ground (
              arith,
              open_tunnel,
              im.get-remove r j spared_tunnel.remotes,
              im.get-modify r j (Remote.error now (some a)) ti.remotes,
            );
        other_dead = λ j ne.
            dead-write_same im dm with_task l buried_tunnel ti j open_tunnel
            ∙ ground (
              arith,
              open_tunnel,
              im.get-insert r j
                  (record { remote = counted_error; join_handle = some s.next_handle })
                  ti.dead_remotes,
            );
        tunnels = λ m ne. get-write_other im dm with_task l buried_tunnel m ne;
      })
      | inr e ↦ rw (error-spared e) (record {
        same_live = λ j ne.
            live-write_same im dm s l spared_tunnel ti j open_tunnel
            ∙ ground (arith, open_tunnel, im.get-modify r j (Remote.error now (some a)) ti.remotes);
        other_dead =
            λ j ne. dead-write_same im dm s l spared_tunnel ti j open_tunnel ∙ spared_dead j;
        tunnels = λ m ne. get-write_other im dm s l spared_tunnel m ne;
      })
    ]
