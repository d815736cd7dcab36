-- ===== src/State/Select/Strategies.antt =====
-- src/state/strategy.rs and `TunnelInfo::select_remote`: the index that is picked.
use native.Mathlib.Nat.{mod-lt}
use plexy.Prelude.{
  ℕ, zero, suc, ◌+◌, ◌-◌, ◌≤◌, ◌<◌, ◌≡◌, refl, ◌⊎◌, inl, inr, List, [], ◌∷◌, some, arith, length,
  ltb, ◌==◌, u64_mod, add64_lt, Bool-cases, get_elem?_lt,
}
use plexy.Tunnel.{SocketSpec}
use plexy.Errors.{ok, err, no_remote}
use plexy.Maps.{IndexMap}
use plexy.State.Remote.{RemoteInfo}
use plexy.State.Info.{
  TunnelInfo, LbStrategy, random_strategy, round_robin_strategy, minimum_open_connections_strategy,
  open_connections, min_loop, size, strategy_select, pick_index, key_at,
}

-- What `rand` documents of `gen_range(0..n)`: a number of the range, if the range is not empty.
abbrev pub IsGenRange : (ℕ → ℕ) → Type 0
IsGenRange gen_range = (n : ℕ) → 0 < n → gen_range n < n

abbrev pub Entries : Type 0
Entries = List (SocketSpec × RemoteInfo)

open_connections_lt : (r : RemoteInfo) → open_connections r < u64_mod
unfolding open_connections
open_connections_lt r = add64_lt r.stats.streams_open r.stats.streams_pending

-- The connections of the entry at an index; past the end, more than any entry has.
abbrev pub open_at : Entries → ℕ → ℕ
open_at [] i = u64_mod
open_at ((_, r) ∷ rest) zero = open_connections r
open_at ((_, r) ∷ rest) (suc i) = open_at rest i

open_at_lt : (l : Entries) (i : ℕ) → i < length l → open_at l i < u64_mod
open_at_lt [] i h = elim h [ ]
open_at_lt ((_, r) ∷ rest) zero h = open_connections_lt r
open_at_lt ((_, r) ∷ rest) (suc i) h = open_at_lt rest i (omega arith)

-- The first entry with the fewest connections stands at `i`.
pub record IsFirstMin (l : Entries) (i : ℕ) : Type 0 where
  pub inside : i < length l
  pub least : (j : ℕ) → j < length l → open_at l i ≤ open_at l j
  pub first : (j : ℕ) → j < i → open_at l i < open_at l j

nat_cases {ℓ} : (P : ℕ → Type ℓ) → P 0 → ((j : ℕ) → P (suc j)) → (j : ℕ) → P j
nat_cases P z s zero = z
nat_cases P z s (suc j) = s j

-- `min_loop` from index `idx` on finds the first minimum of the rest, if that is below `min_val`,
-- or keeps `min_idx`.
abbrev Finds : Entries → ℕ → ℕ → ℕ → ℕ → Type 0
Finds l idx min_idx min_val result =
    ((i : ℕ) × (result ≡ idx + i) × (open_at l i < min_val) × IsFirstMin l i)
    ⊎ ((result ≡ min_idx) × ((j : ℕ) → j < length l → min_val ≤ open_at l j))

module _ (k : SocketSpec) (r : RemoteInfo) (rest : Entries) where
  here_first :
      ((j : ℕ) → j < length rest → open_connections r ≤ open_at rest j)
      → IsFirstMin ((k, r) ∷ rest) 0
  here_first h = record {
    inside = omega arith;
    least =
        nat_cases (λ j. j < suc (length rest) → open_connections r ≤ open_at ((k, r) ∷ rest) j)
          (λ _. omega arith) (λ j lt. h j (omega arith));
    first = λ j lt. absurd (omega arith);
  }

  later_first :
      (i : ℕ)
      → open_at rest i < open_connections r
      → IsFirstMin rest i
      → IsFirstMin ((k, r) ∷ rest) (suc i)
  later_first i lt m = record {
    inside = omega (arith, m.inside);
    least =
        nat_cases (λ j. j < suc (length rest) → open_at rest i ≤ open_at ((k, r) ∷ rest) j)
          (λ _. omega arith) (λ j h. m.least j (omega arith));
    first =
        nat_cases (λ j. j < suc i → open_at rest i < open_at ((k, r) ∷ rest) j) (λ _. omega arith)
          (λ j h. m.first j (omega arith));
  }

min_loop-Finds :
    (l : Entries) (idx min_idx min_val : ℕ)
    → 0 < min_val
    → Finds l idx min_idx min_val (min_loop l idx min_idx min_val)
unfolding min_loop
min_loop-Finds [] idx mi mv h = inr (refl, λ j lt. elim lt [ ])
min_loop-Finds ((k, r) ∷ rest) idx mi mv h = elim (Bool-cases (open_connections r == 0)) [
  | inl z ↦ inl (0, rw z (omega arith), ground arith, here_first k r rest (λ j lt. ground arith))
  | inr nz ↦ elim (Bool-cases (ltb (open_connections r) mv)) [
    | inl less ↦
        rw (nz, less)
          (elim (min_loop-Finds rest (idx + 1) idx (open_connections r) (ground arith)) [
            | inl (i, e, lt, m) ↦
                inl (suc i, omega arith, ground arith, later_first k r rest i lt m)
            | inr (e, all) ↦ inl (0, omega arith, ground arith, here_first k r rest all)
          ])
    | inr more ↦
        rw (nz, more)
          (elim (min_loop-Finds rest (idx + 1) mi mv h) [
            | inl (i, e, lt, m) ↦
                inl (suc i, omega arith, lt, later_first k r rest i (ground arith) m)
            | inr (e, all) ↦ inr (
              e,
              nat_cases (λ j. j < suc (length rest) → mv ≤ open_at ((k, r) ∷ rest) j)
                  (λ _. ground arith) (λ j lt. all j (omega arith)),
            )
          ])
  ]
]

-- Among one remote or more `MinimumOpenConnections` picks the first one with the fewest open and
-- pending connections, their sum taken modulo 2^64.
pub min_loop-IsFirstMin : (l : Entries) → 0 < length l → IsFirstMin l (min_loop l 0 0 (u64_mod - 1))
min_loop-IsFirstMin l h = elim (min_loop-Finds l 0 0 (u64_mod - 1) (omega arith)) [
  | inl (i, e, lt, m) ↦ let z : 0 + i ≡ i = omega arith in rw (e, z) m
  | inr (e, all) ↦ rw e (record {
    inside = h;
    least = λ j lt. omega (arith, all j, open_at_lt l 0 h);
    first = λ j lt. absurd (omega arith);
  })
]

module _ (im : IndexMap) where
  pub pick_index_none :
      (gen_range : ℕ → ℕ) (t : TunnelInfo im)
      → size im t ≡ 0
      → pick_index im gen_range t ≡ err no_remote
  unfolding pick_index
  pick_index_none gen_range t h = ground arith

  pub key_at_entries :
      (t : TunnelInfo im) (i : ℕ)
      → i < size im t
      → (k : SocketSpec) × (r : RemoteInfo) × (key_at im i t ≡ ok k) × (im.get k t.remotes ≡ some r)
  unfolding key_at
  key_at_entries t i h =
      let ((k, r), e) = get_elem?_lt (im.entries t.remotes) i h in
      (k, r, ground (arith, im.get_index-entries i t.remotes), im.entries-get t.remotes i k r e)

module _ (im : IndexMap) (gen_range : ℕ → ℕ) (in_range : IsGenRange gen_range) where
  strategy_select_lt :
      (b : LbStrategy) (t : TunnelInfo im)
      → 0 < size im t
      → (i : ℕ) × (strategy_select im b gen_range t ≡ ok i) × (i < size im t)
  unfolding strategy_select
  strategy_select_lt random_strategy t h = (gen_range (size im t), refl, in_range (size im t) h)
  strategy_select_lt round_robin_strategy t h = (_, refl, mod-lt _ h)
  strategy_select_lt minimum_open_connections_strategy t h =
      (_, refl, (min_loop-IsFirstMin (im.entries t.remotes) h).inside)

  -- With a remote to choose, every strategy picks an index in range.
  pub pick_index_lt :
      (t : TunnelInfo im)
      → 0 < size im t
      → (i : ℕ) × (pick_index im gen_range t ≡ ok i) × (i < size im t)
  unfolding pick_index
  pick_index_lt t h = elim (Bool-cases (size im t == 1)) [
    | inl one ↦ (0, ground arith, h)
    | inr more ↦ let (i, e, lt) = strategy_select_lt t.lb_strategy t h in (i, ground arith, lt)
  ]
