-- ===== src/State/Watched/Tasks.antt =====
-- src/state.rs: the list of running tasks under spawning and aborting.
use plexy.Prelude.{
  ℕ, suc, ◌≡◌, ◌≢◌, refl, List, [], ◌∷◌, ◌++◌, Option, none, some, arith, get_elem?, ◌==◌,
  if◌then◌else◌,
}
use plexy.Tunnel.{SocketSpec}
use plexy.State.Info.{DeadRemote, JoinHandle}
use plexy.State.Store.{CheckTask, find_task, abort, abort_held, abort_all}

pub find_task-abort :
    (h k : ℕ) (ts : List CheckTask)
    → find_task h (abort k ts) ≡ (if k == h then none else find_task h ts)
unfolding find_task abort
find_task-abort h k [] = ground arith
find_task-abort h k (t ∷ ts) = ground (arith, find_task-abort h k ts)

pub find_task-append :
    (h : ℕ) (ts : List CheckTask) {t : CheckTask} (u : CheckTask)
    → find_task h ts ≡ some t
    → find_task h (ts ++ u ∷ []) ≡ some t
unfolding find_task
find_task-append h [] {t} u e = cc
find_task-append h (x ∷ ts) {t} u e = ground (arith, find_task-append h ts {t = t} u)

pub find_task-append_new :
    (h : ℕ) (ts : List CheckTask) (u : CheckTask)
    → find_task h ts ≡ none
    → find_task h (ts ++ u ∷ []) ≡ (if u.handle == h then some u else none)
unfolding find_task
find_task-append_new h [] u e = refl
find_task-append_new h (x ∷ ts) u e = ground (arith, find_task-append_new h ts u)

pub handle-find_task :
    (h : ℕ) (ts : List CheckTask) {t : CheckTask} → find_task h ts ≡ some t → t.handle ≡ h
unfolding find_task
handle-find_task h [] {t} e = cc
handle-find_task h (x ∷ ts) {t} e = ground (arith, handle-find_task h ts {t = t})

pub find_task-abort-none :
    (h k : ℕ) (ts : List CheckTask) → find_task h ts ≡ none → find_task h (abort k ts) ≡ none
find_task-abort-none h k ts e = ground (arith, find_task-abort h k ts)

find_task-abort_held-none :
    (h : ℕ) (o : Option JoinHandle) (ts : List CheckTask)
    → find_task h ts ≡ none
    → find_task h (abort_held o ts) ≡ none
unfolding abort_held
find_task-abort_held-none h none ts e = e
find_task-abort_held-none h (some k) ts e = find_task-abort-none h k ts e

pub find_task-abort_all-none :
    (h : ℕ) (ds : List (SocketSpec × DeadRemote)) (ts : List CheckTask)
    → find_task h ts ≡ none
    → find_task h (abort_all ds ts) ≡ none
unfolding abort_all
find_task-abort_all-none h [] ts e = e
find_task-abort_all-none h ((k, d) ∷ ds) ts e =
    find_task-abort_all-none h ds _ (find_task-abort_held-none h d.join_handle ts e)

find_task-abort_held :
    (h : ℕ) (o : Option JoinHandle) (ts : List CheckTask) {t : CheckTask}
    → o ≢ some h
    → find_task h ts ≡ some t
    → find_task h (abort_held o ts) ≡ some t
unfolding abort_held
find_task-abort_held h none ts n e = e
find_task-abort_held h (some k) ts n e = ground (arith, find_task-abort h k ts)

-- Aborting the tasks of some dead remotes leaves a task that none of them holds.
pub find_task-abort_all :
    (h : ℕ) (ds : List (SocketSpec × DeadRemote)) (ts : List CheckTask) {t : CheckTask}
    → ((i : ℕ) (k : SocketSpec) (d : DeadRemote)
        → get_elem? ds i ≡ some (k, d)
        → d.join_handle ≢ some h)
    → find_task h ts ≡ some t
    → find_task h (abort_all ds ts) ≡ some t
unfolding abort_all
find_task-abort_all h [] ts apart e = e
find_task-abort_all h ((k, d) ∷ ds) ts {t} apart e =
    find_task-abort_all h ds _ (λ i. apart (suc i))
      (find_task-abort_held h d.join_handle ts (apart 0 k d refl) e)

pub find_task-append_self :
    (h : ℕ) (ts : List CheckTask) (u : CheckTask)
    → find_task h ts ≡ none
    → u.handle ≡ h
    → find_task h (ts ++ u ∷ []) ≡ some u
find_task-append_self h ts u e p = ground (arith, find_task-append_new h ts u e)

pub find_task-append_other :
    (h : ℕ) (ts : List CheckTask) (u : CheckTask)
    → find_task h ts ≡ none
    → u.handle ≢ h
    → find_task h (ts ++ u ∷ []) ≡ none
find_task-append_other h ts u e p = ground (arith, find_task-append_new h ts u e)
