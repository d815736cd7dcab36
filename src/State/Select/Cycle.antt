-- ===== src/State/Select/Cycle.antt =====
-- src/state/strategy.rs, `RoundRobin`: repeated selections.
use native.Mathlib.Nat.{mod-lt, mod-add-mod, mod-eq_of_lt, add-mod_right}
use plexy.Prelude.{
  ℕ, zero, suc, ◌+◌, ◌-◌, ◌%◌, ◌<◌, ◌≡◌, ap, sym, ◌∙◌, some, arith, u64_mod, add64_exact, dec_lt,
}
use plexy.Errors.{ok}
use plexy.Maps.{IndexMap}
use plexy.State.Info.{TunnelInfo, round_robin_strategy, size, last_index, pick_index, select_remote}

shift : (a n k : ℕ) → (a % n + 1 + k) % n ≡ (a + suc k) % n
shift a n k = ap (λ (m : ℕ). m % n) (omega arith) ∙ mod-add-mod a n (suc k)

-- How far ahead of `a` an index stands on a circle of `n`.
distance : (a n i : ℕ) → i < n → (k : ℕ) × (k < n) × ((a + k) % n ≡ i)
distance a n i h = elim (dec_lt i (a % n)) [
  | yes behind ↦
      let lt : a % n < n = mod-lt a (omega arith) in
      (
        i + n - a % n,
        omega arith,
        sym (mod-add-mod a n (i + n - a % n))
            ∙ ap (λ (m : ℕ). m % n) (omega arith)
            ∙ add-mod_right i n
            ∙ mod-eq_of_lt h,
      )
  | no ahead ↦ (
    i - a % n,
    omega arith,
    sym (mod-add-mod a n (i - a % n)) ∙ ap (λ (m : ℕ). m % n) (omega arith) ∙ mod-eq_of_lt h,
  )
]

module _ (im : IndexMap) (gen_range : ℕ → ℕ) where
  -- The tunnel after `k` selections, no remote coming or going.
  abbrev pub selected_times : ℕ → TunnelInfo im → TunnelInfo im
  selected_times zero t = t
  selected_times (suc k) t = selected_times k (select_remote im gen_range t).0

  round_robin_picks :
      (t : TunnelInfo im)
      → t.lb_strategy ≡ round_robin_strategy
      → 1 < size im t
      → last_index im t + 1 < u64_mod
      → pick_index im gen_range t ≡ ok ((last_index im t + 1) % size im t)
  unfolding pick_index
  round_robin_picks t rr h lt = ground (arith, add64_exact (last_index im t) 1 lt)

  round_robin_step :
      (t : TunnelInfo im)
      → t.lb_strategy ≡ round_robin_strategy
      → 1 < size im t
      → last_index im t + 1 < u64_mod
      → (select_remote im gen_range t).0
        ≡ record t { last_selected_index = some ((last_index im t + 1) % size im t) }
  unfolding select_remote
  round_robin_step t rr h lt = rw (round_robin_picks t rr h lt, select_remote)

  round_robin_index :
      (k : ℕ) (t : TunnelInfo im)
      → t.lb_strategy ≡ round_robin_strategy
      → 1 < size im t
      → size im t < u64_mod
      → last_index im t + 1 < u64_mod
      → (selected_times (suc k) t).last_selected_index
        ≡ some ((last_index im t + 1 + k) % size im t)
  unfolding last_index
  round_robin_index zero t rr h fits lt =
      ap (λ (u : TunnelInfo im). u.last_selected_index) (round_robin_step t rr h lt)
      ∙ ap (λ (m : ℕ). some (m % size im t)) (omega arith)
  round_robin_index (suc k) t rr h fits lt =
      let n = size im t in
      let t' : TunnelInfo im = record t {
        last_selected_index = some ((last_index im t + 1) % n);
      } in
      let a_lt : (last_index im t + 1) % n < n = mod-lt (last_index im t + 1) (omega arith) in
      let rest = round_robin_index k t' rr h fits (omega arith) in
      ap (λ (u : TunnelInfo im). (selected_times (suc k) u).last_selected_index)
        (round_robin_step t rr h lt)
      ∙ rest
      ∙ ap some (shift (last_index im t + 1) n k)

  -- Of a tunnel with the strategy `RoundRobin`, more than one live remote and fewer than 2^64, and a
  -- last index that does not overflow: the next selections, as many as there are live remotes, reach
  -- every index of a remote, no remote coming or going.
  pub round_robin_visits :
      (t : TunnelInfo im)
      → t.lb_strategy ≡ round_robin_strategy
      → 1 < size im t
      → size im t < u64_mod
      → last_index im t + 1 < u64_mod
      → (i : ℕ) → i < size im t
      → (k : ℕ) × (k < size im t) × ((selected_times (suc k) t).last_selected_index ≡ some i)
  round_robin_visits t rr h fits lt i hi =
      let (k, hk, e) = distance (last_index im t + 1) (size im t) i hi in
      (k, hk, round_robin_index k t rr h fits lt ∙ ap some e)
