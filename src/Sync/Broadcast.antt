-- ===== src/Sync/Broadcast.antt =====
-- CondVar.cpp: `notifyAll` takes every waiter out and wakes them in order.
use flix.Base.{
  ℕ, ◌≡◌, refl, ◌∙◌, ap, true, false, some, List, [], ◌∷◌, suc, arith, ◌==◌, length, inl, inr,
  Bool-cases,
}
use flix.TaskManager
use flix.TaskManager.{TaskManager}
use flix.Sync.{Waiter, WaitQueue, set_up, CondVar, collect, wake_all, notify_all}
use flix.Sync.Queue.{Chain, Holds}

-- The tasks of the waiters are woken, the first one first.
abbrev pub wake_each : List ℕ → (ℕ → ℕ) → TaskManager → TaskManager
wake_each [] task m = m
wake_each (w ∷ ws) task m = wake_each ws task (TaskManager.wake_up_task (task w) m)

abbrev pub AllUp : (ℕ → Waiter) → List ℕ → Type 0
AllUp f [] = Unit
AllUp f (w ∷ ws) = ((f w).up ≡ true) × AllUp f ws

-- The first loop finds the waiters of the queue, one round for each and one for the end.
collect-more :
    (f : ℕ → Waiter) (a n : ℕ) (ws : List ℕ)
    → (a == 0) ≡ false
    → collect n (f a).next f ≡ some ws
    → collect (suc n) a f ≡ some (a ∷ ws)
unfolding collect
collect-more f a n ws more e = rw more (rw (e, collect) refl)

collect-Chain :
    (f : ℕ → Waiter) (a : ℕ) (ws : List ℕ) → Chain f a ws → collect (suc (length ws)) a f ≡ some ws
unfolding collect
collect-Chain f a [] c = simp (c)
collect-Chain f a (w ∷ ws) c =
    let more : (a == 0) ≡ false = ground (arith, c.0, c.1) in
    let next : Chain f (f a).next ws = rw c.0 c.2 in
    collect-more f a (suc (length ws)) ws more (collect-Chain f (f a).next ws next)
    ∙ ap (λ x. some (x ∷ ws)) c.0

set_up-task : (q : WaitQueue) (w k : ℕ) → ((set_up w q).cell k).task ≡ (q.cell k).task
set_up-task q w k = elim (Bool-cases (k == w)) [
  | inl e ↦ let at : k ≡ w = ground arith in rw (e, at) refl
  | inr e ↦ rw e refl
]

set_up-keeps_up : (q : WaitQueue) (w k : ℕ) → (q.cell k).up ≡ true → ((set_up w q).cell k).up ≡ true
set_up-keeps_up q w k u = elim (Bool-cases (k == w)) [ inl e ↦ rw e refl | inr e ↦ rw e u ]

wake_all-tasks :
    (ws : List ℕ) (q : WaitQueue) (m : TaskManager) (task : ℕ → ℕ)
    → ((k : ℕ) → (q.cell k).task ≡ task k)
    → (wake_all ws q m).1 ≡ wake_each ws task m
unfolding wake_all
wake_all-tasks [] q m task same = refl
wake_all-tasks (w ∷ ws) q m task same =
    wake_all-tasks ws (set_up w q) _ task (λ k. set_up-task q w k ∙ same k)
    ∙ ap (λ t. wake_each ws task (TaskManager.wake_up_task t m)) (same w)

wake_all-ends :
    (ws : List ℕ) (q : WaitQueue) (m : TaskManager)
    → ((wake_all ws q m).0.first ≡ q.first) × ((wake_all ws q m).0.last ≡ q.last)
unfolding wake_all
wake_all-ends [] q m = (refl, refl)
wake_all-ends (w ∷ ws) q m = wake_all-ends ws (set_up w q) _

wake_all-keeps_up :
    (ws : List ℕ) (q : WaitQueue) (m : TaskManager) (k : ℕ)
    → (q.cell k).up ≡ true
    → ((wake_all ws q m).0.cell k).up ≡ true
unfolding wake_all
wake_all-keeps_up [] q m k u = u
wake_all-keeps_up (w ∷ ws) q m k u =
    wake_all-keeps_up ws (set_up w q) (TaskManager.wake_up_task (q.cell w).task m) k
      (set_up-keeps_up q w k u)

wake_all-AllUp : (ws : List ℕ) (q : WaitQueue) (m : TaskManager) → AllUp (wake_all ws q m).0.cell ws
unfolding wake_all
wake_all-AllUp [] q m = tt
wake_all-AllUp (w ∷ ws) q m = (
  wake_all-keeps_up ws (set_up w q) (TaskManager.wake_up_task (q.cell w).task m) w (ground arith),
  wake_all-AllUp ws (set_up w q) (TaskManager.wake_up_task (q.cell w).task m),
)

-- On a queue that holds the waiters of a list, notify_all ends after one round for each waiter and
-- one more, with an empty queue and a count of 0; the flag of every waiter is set, and their tasks
-- are woken in the order of the queue.
pub notify_all-Holds :
    (c : CondVar) (m : TaskManager) (ws : List ℕ)
    → Holds c.waiters ws
    → (c' : CondVar) × (notify_all (suc (length ws)) c m
        ≡ some (c', wake_each ws (λ k. (c.waiters.cell k).task) m))
      × Holds c'.waiters []
      × (c'.waiter_count ≡ 0)
      × AllUp c'.waiters.cell ws
unfolding notify_all
notify_all-Holds c m ws h =
    let emptied : WaitQueue = record c.waiters { first = 0; last = 0 } in
    (
      record { waiters = (wake_all ws emptied m).0; waiter_count = 0 },
      simp (
        collect-Chain c.waiters.cell c.waiters.first ws h.chain,
        wake_all-tasks ws emptied m (λ k. (c.waiters.cell k).task) (λ k. refl),
      ),
      record {
        chain = (wake_all-ends ws emptied m).0;
        ends = (wake_all-ends ws emptied m).1;
        distinct = tt;
      },
      refl,
      wake_all-AllUp ws emptied m,
    )
