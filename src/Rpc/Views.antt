-- ===== src/Rpc/Views.antt =====
-- src/rpc.rs, `remotes`: what the hash map of the answer has under a text.
use plexy.Prelude.{
  ℕ, zero, suc, ◌≡◌, refl, ap, sym, ◌∙◌, inl, inr, true, List, [], ◌∷◌, map, none, some, Text,
  text_eq, text_eq-eq, text_eq_refl, arith, option_map, get_elem?, Bool-cases, Option-cases,
  if◌then◌else◌, subst,
}
use plexy.Errors.{ok}
use plexy.Maps.{KeyedMap, IndexMap}
use plexy.Nom.{Nom}
use plexy.Tunnel.{SocketSpec}
use plexy.Tunnel.Specs.{socket_spec_from_str, socket_spec_to_string}
use plexy.State.Stats.{RemoteStats}
use plexy.State.Remote.{RemoteInfo}
use plexy.State.Info.{TunnelInfo}
use plexy.State.Store.{State, remote_stats}
use plexy.State.View.{live_remote}
use plexy.Rpc.{HashMap, hash_get, hash_insert, insert_all, remotes}

hash_get-insert :
    {V : Type 0} (r k : Text) (v : V) (m : HashMap V)
    → hash_get r (hash_insert k v m) ≡ (if text_eq k r then some v else hash_get r m)
unfolding hash_get hash_insert
hash_get-insert r k v [] = refl
hash_get-insert r k v ((j, w) ∷ m) = elim (Bool-cases (text_eq j k)) [
  | inl e ↦ rw (e, sym (text_eq-eq j k e)) (ground arith)
  | inr e ↦
      rw (e, hash_get-insert r k v m)
        (elim (Bool-cases (text_eq k r)) [
          | inl q ↦ rw (sym (text_eq-eq k r q), e, text_eq_refl k) refl
          | inr q ↦ rw q refl
        ])
]

module _ (im : IndexMap) (live : im.Map RemoteInfo) (r : SocketSpec) where
  -- The pairs are entries of the live remotes.
  abbrev AreEntries : List (SocketSpec × RemoteInfo) → Type 0
  AreEntries es =
      (i : ℕ) (k : SocketSpec) (x : RemoteInfo)
      → get_elem? es i ≡ some (k, x)
      → im.get k live ≡ some x

  abbrev collected : List (SocketSpec × RemoteInfo) → HashMap RemoteStats → HashMap RemoteStats
  collected es m =
      insert_all
        (map (λ (e : SocketSpec × RemoteStats). (socket_spec_to_string e.0, e.1))
          (map (λ (e : SocketSpec × RemoteInfo). let st = e.1.stats in (e.0, st)) es))
        m

  same_spec : (k : SocketSpec) → text_eq k.inner r.inner ≡ true → k ≡ r
  same_spec k e = ap (λ (t : Text). record { inner = t }) (text_eq-eq k.inner r.inner e)

  collected-absent :
      (es : List (SocketSpec × RemoteInfo)) (m : HashMap RemoteStats)
      → im.get r live ≡ none
      → AreEntries es
      → hash_get r.inner (collected es m) ≡ hash_get r.inner m
  unfolding insert_all
  collected-absent [] m e h = refl
  collected-absent ((k, x) ∷ es) m e h =
      collected-absent es (hash_insert k.inner x.stats m) e (λ i. h (suc i))
      ∙ hash_get-insert r.inner k.inner x.stats m
      ∙ (elim (Bool-cases (text_eq k.inner r.inner)) [
        | inl q ↦
            let there =
              subst (λ (j : SocketSpec). im.get j live ≡ some x) (same_spec k q) (h 0 k x refl) in
            absurd (let no_entry : some x ≡ none = sym there ∙ e in cc)
        | inr q ↦ rw q refl
      ])

  module _ (y : RemoteInfo) (found : im.get r live ≡ some y) where
    collected-kept :
        (es : List (SocketSpec × RemoteInfo)) (m : HashMap RemoteStats)
        → AreEntries es
        → hash_get r.inner m ≡ some y.stats
        → hash_get r.inner (collected es m) ≡ some y.stats
    unfolding insert_all
    collected-kept [] m h e = e
    collected-kept ((k, x) ∷ es) m h e =
        collected-kept es (hash_insert k.inner x.stats m) (λ i. h (suc i))
          (hash_get-insert r.inner k.inner x.stats m
            ∙ (elim (Bool-cases (text_eq k.inner r.inner)) [
              | inl q ↦
                  let there =
                    subst (λ (j : SocketSpec). im.get j live ≡ some x) (same_spec k q)
                      (h 0 k x refl) in
                  rw q (ap (option_map (λ (z : RemoteInfo). z.stats)) (sym there ∙ found))
              | inr q ↦ rw q e
            ]))

    collected-present :
        (es : List (SocketSpec × RemoteInfo)) (m : HashMap RemoteStats) (i : ℕ)
        → AreEntries es
        → get_elem? es i ≡ some (r, y)
        → hash_get r.inner (collected es m) ≡ some y.stats
    unfolding insert_all
    collected-present [] m i h e = cc
    collected-present ((k, x) ∷ es) m zero h e =
        let same : (k, x) ≡ (r, y) = cc in
        collected-kept es (hash_insert k.inner x.stats m) (λ i. h (suc i))
          (ap
              (λ (p : SocketSpec × RemoteInfo).
                hash_get r.inner (hash_insert p.0.inner p.1.stats m))
              same
            ∙ hash_get-insert r.inner r.inner y.stats m
            ∙ rw (text_eq_refl r.inner) refl)
    collected-present ((k, x) ∷ es) m (suc i) h e =
        collected-present es (hash_insert k.inner x.stats m) i (λ j. h (suc j)) e

  collected-get :
      hash_get r.inner (collected (im.entries live) [])
      ≡ option_map (λ (z : RemoteInfo). z.stats) (im.get r live)
  unfolding hash_get
  collected-get = elim (Option-cases (im.get r live)) [
    | inl e ↦ rw e (collected-absent (im.entries live) [] e (im.entries-get live))
    | inr (y, e) ↦
        let (i, f) = im.get-entries live r y e in
        rw e (collected-present y e (im.entries live) [] i (im.entries-get live) f)
  ]

module _ (nom : Nom) (im : IndexMap) (dm : KeyedMap) (s : State im dm) where
  -- For a text that is accepted as the address of an open tunnel, `remotes` answers with a map that has
  -- under each text the statistics of the tunnel's live remote with that address, and nothing where
  -- there is none.
  pub hash_get-remotes :
      (a : Text) (k : SocketSpec) (ti : TunnelInfo im)
      → socket_spec_from_str nom a ≡ ok k
      → dm.get k s.tunnels ≡ some ti
      → (m : HashMap RemoteStats) × (remotes nom im dm s a ≡ ok m)
        × ((r : SocketSpec)
            → hash_get (socket_spec_to_string r) m
              ≡ option_map (λ (x : RemoteInfo). x.stats) (live_remote im dm s k r))
  unfolding remotes remote_stats
  hash_get-remotes a k ti e f = (
    collected im ti.remotes k (im.entries ti.remotes) [],
    rw (e, f, remote_stats) refl,
    λ r. rw (f, live_remote) (collected-get im ti.remotes r),
  )
