-- ===== src/Proxy/Balance.antt =====
-- src/lib.rs, `process_socket`: the tunnel's count of open streams before and after a connection.
use plexy.Prelude.{
  ℕ, zero, suc, ◌<◌, ◌≡◌, refl, ap, ◌∙◌, inl, inr, true, Option, none, some, arith, u64_mod, add64,
  sub64-add64, Bool-cases,
}
use plexy.Tunnel.{SocketSpec, SocketAddr, F32, TunnelRemoteOptions}
use plexy.Errors.{Result, ok, err}
use plexy.Maps.{KeyedMap, IndexMap}
use plexy.State.Store.{State, remote_retries}
use plexy.State.Streams.{client_connected}
use plexy.Proxy.{Attempt, Ended, returned, is_duration, after_select, retry_loop, process_socket}
use plexy.Proxy.Counts.{
  Watched, open_streams, select_remote-open, remote_connected-open, remote_error-open, open-tunnel,
  disconnected, connected, select_remote-timeout,
}

module _ (im : IndexMap) (dm : KeyedMap) (l : SocketSpec) where
  -- Other tasks leave the count of the tunnel's open streams and its `connect_timeout` as they are.
  abbrev pub IsNeutral : (State im dm → State im dm) → Type 0
  IsNeutral f = (s : State im dm) → open_streams im dm l (f s) ≡ open_streams im dm l s

  -- The loop came to its end without a panic, and the count is `w`.
  abbrev IsCalm : Watched im dm l → State im dm × Ended (Option SocketSpec) → Type 0
  IsCalm w (u, ended) =
      (open_streams im dm l u ≡ some w) × ((last : Option SocketSpec) × (ended ≡ returned last))

  module _ (attempts : ℕ → Attempt im dm) (copying : State im dm → State im dm)
      (local_client : SocketAddr) (waits : (n : ℕ) → IsNeutral (attempts n).waiting)
      (copies : IsNeutral copying) (w : Watched im dm l) (valid : is_duration w.1 ≡ true) where
    after_select-IsCalm :
        (n : ℕ) (rest : State im dm → State im dm × Ended (Option SocketSpec)) (s : State im dm)
        (r : Result (SocketSpec × TunnelRemoteOptions))
        → ((u : State im dm) → open_streams im dm l u ≡ some w → IsCalm w (rest u))
        → open_streams im dm l s ≡ some w
        → ((k : SocketSpec) (o : TunnelRemoteOptions) → r ≡ ok (k, o) → o.connect_timeout ≡ w.1)
        → IsCalm w (after_select im dm attempts copying l local_client (attempts n) rest (s, r))
    unfolding after_select
    after_select-IsCalm n rest s (err e) h hs ho = (hs, (none, refl))
    after_select-IsCalm n rest s (ok (remote, options)) h hs ho =
        let d = ap is_duration (ho remote options refl) ∙ valid in
        elim (Bool-cases (attempts n).connected) [
          | inl e ↦
              rw (d, e)
                (
                  copies _ ∙ remote_connected-open im dm l _ remote ∙ waits n s ∙ hs,
                  (some remote, refl),
                )
          | inr e ↦
              rw (d, e)
                (h _ (
                  remote_error-open im dm l _ (attempts n).now remote local_client options
                  ∙ waits n s
                  ∙ hs))
        ]

    retry_loop-IsCalm :
        (n : ℕ) (s : State im dm)
        → open_streams im dm l s ≡ some w
        → IsCalm w (retry_loop im dm attempts copying l local_client n s)
    unfolding retry_loop
    retry_loop-IsCalm zero s h = (h, (none, refl))
    retry_loop-IsCalm (suc n) s h =
        after_select-IsCalm n (retry_loop im dm attempts copying l local_client n) _ _
          (retry_loop-IsCalm n) (select_remote-open im dm l s (attempts n).gen_range ∙ h)
          (λ k o. select_remote-timeout im dm l s (attempts n).gen_range w k o h)

  module _ (attempts : ℕ → Attempt im dm) (copying : State im dm → State im dm)
      (local_client : SocketAddr) (waits : (n : ℕ) → IsNeutral (attempts n).waiting)
      (copies : IsNeutral copying) where
    -- The task of a connection to an open tunnel with fewer than 2^64 open streams, whose
    -- `connect_timeout` is a duration, where the other tasks leave that count and that timeout as they
    -- are while the connection waits or copies: it succeeds, and the count and the timeout are in the
    -- end what they were, whichever connections were made and whether a remote was found.
    pub process_socket-IsNeutral :
        (s : State im dm) (n : ℕ) (timeout : F32)
        → open_streams im dm l s ≡ some (n, timeout)
        → n < u64_mod
        → is_duration timeout ≡ true
        → (open_streams im dm l (process_socket im dm attempts copying l local_client s).0
            ≡ some (n, timeout))
          × ((process_socket im dm attempts copying l local_client s).1 ≡ returned (ok tt))
    unfolding process_socket remote_retries
    process_socket-IsNeutral s n timeout h lt valid =
        let (ti, e, p) = open-tunnel im dm l s (n, timeout) h in
        let c = client_connected im dm s l in
        let one =
          connected im dm l s ti e ∙ ap (λ (v : Watched im dm l). some (add64 v.0 1, v.1)) p in
        let (u, f, q) = open-tunnel im dm l c (add64 n 1, timeout) one in
        let retries = u.options.remote_connect_retries in
        let (calm, ended) =
          retry_loop-IsCalm attempts copying local_client waits copies (add64 n 1, timeout) valid
            retries c one in
        rw (f, process_socket)
          (rw (ended.1) (
            disconnected im dm l (retry_loop im dm attempts copying l local_client retries c).0
                  ended.0 (add64 n 1, timeout) calm
                ∙ ap (λ (k : ℕ). some (k, timeout)) (sub64-add64 n 1 lt (omega arith)),
            refl,
          ))
