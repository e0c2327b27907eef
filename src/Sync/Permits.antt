-- ===== src/Sync/Permits.antt =====
-- Semaphore.cpp and Mutex.hpp: the permits of a semaphore over a whole run of `down` and `up`. A mutex
-- is a semaphore of one permit.
use flix.Base.{
  ℕ, ◌+◌, ◌%◌, ◌^◌, ◌≤◌, ◌<◌, ◌≡◌, ◌≢◌, refl, ◌∙◌, sym, ap, true, false, some, List, [], ◌∷◌, ◌++◌,
  suc, arith, ◌==◌, inl, inr, Bool-cases, >>=-eq-some,
}
use mathlib.Core.Option.{some-injective}
use mathlib.Core.Path.{subst}
use flix.TaskManager
use flix.TaskManager.{TaskManager}
use flix.Sync.{
  WaitQueue, push_waiter, pop_waiter, set_up, Semaphore, Entry, passes, sleeps, down, up,
}
use flix.Sync.Queue.{Holds, NotIn, push_waiter-Holds, pop_waiter-Holds, last_of-ne}

-- A semaphore in use: its waiters, oldest first, and the permits handed out and not given back.
pub record Ledger : Type 0 where
  pub semaphore : Semaphore
  pub tasks : TaskManager
  pub waiting : List ℕ
  pub held : ℕ

abbrev pub NoneWaits : List ℕ → Type 0
NoneWaits [] = Unit
NoneWaits (w ∷ ws) = ⊥

-- No permit is lost or made, and nobody waits while a permit is free.
pub record IsBalanced (total : ℕ) (l : Ledger) : Type 0 where
  pub queue : Holds l.semaphore.queue l.waiting
  pub permits : l.semaphore.count + l.held ≡ total
  pub busy : l.semaphore.count ≢ 0 → NoneWaits l.waiting
  pub narrow : total < 2 ^ 32

abbrev pub rest : List ℕ → List ℕ
rest [] = []
rest (w ∷ ws) = ws

-- A permit given back goes to the oldest waiter at once.
abbrev pub held_after : List ℕ → ℕ → ℕ
held_after [] h = h
held_after (w ∷ ws) h = suc h

-- Any task may call `down`; `up` is called with a permit.
pub data Step : Ledger → Ledger → Type 0 where
  pass :
      (a : ℕ) (s s' : Semaphore) (m m' : TaskManager) (ws : List ℕ) (h : ℕ)
      → down a s m ≡ some (passes s' m')
      → Step
          (record { semaphore = s; tasks = m; waiting = ws; held = h })
          (record { semaphore = s'; tasks = m'; waiting = ws; held = suc h })
  block :
      (a : ℕ) (s s' : Semaphore) (m m' : TaskManager) (ws : List ℕ) (h : ℕ)
      → a ≢ 0
      → NotIn a ws
      → down a s m ≡ some (sleeps s' m')
      → Step
          (record { semaphore = s; tasks = m; waiting = ws; held = h })
          (record { semaphore = s'; tasks = m'; waiting = ws ++ a ∷ []; held = h })
  release :
      (s s' : Semaphore) (m m' : TaskManager) (ws : List ℕ) (h : ℕ)
      → up s m ≡ some (s', m')
      → Step
          (record { semaphore = s; tasks = m; waiting = ws; held = suc h })
          (record { semaphore = s'; tasks = m'; waiting = rest ws; held = held_after ws h })
  switch :
      (s : Semaphore) (m m' : TaskManager) (ws : List ℕ) (h : ℕ)
      → Step
          (record { semaphore = s; tasks = m; waiting = ws; held = h })
          (record { semaphore = s; tasks = m'; waiting = ws; held = h })

pub data Reach : Ledger → Ledger → Type 0 where
  here : (l : Ledger) → Reach l l
  more : (l l₁ l₂ : Ledger) → Reach l l₁ → Step l₁ l₂ → Reach l l₂

abbrev entry_semaphore : Entry → Semaphore
entry_semaphore (passes s m) = s
entry_semaphore (sleeps s m) = s

abbrev IsPass : Entry → Type 0
IsPass (passes s m) = Unit
IsPass (sleeps s m) = ⊥

-- What `down` did, from its result.
record Taken (s s' : Semaphore) : Type 0 where
  free : s.count ≢ 0
  less : suc s'.count ≡ s.count
  same : s'.queue ≡ s.queue

record Queued (a : ℕ) (s s' : Semaphore) (task : ℕ) : Type 0 where
  none_free : s.count ≡ 0
  same : s'.count ≡ s.count
  pushed : push_waiter a task s.queue ≡ some (s'.queue)

abbrev Entered : ℕ → Semaphore → TaskManager → Entry → Type 0
Entered a s m (passes s' m') = Taken s s'
Entered a s m (sleeps s' m') = Queued a s s' m.active_task

down-Entered :
    (a : ℕ) (s : Semaphore) (m : TaskManager) (e : Entry) → down a s m ≡ some e → Entered a s m e
unfolding down
down-Entered a s m e r = elim (Bool-cases (s.count == 0)) [
  | inl z ↦
      let (q, e₁, r₁) = >>=-eq-some (push_waiter a m.active_task s.queue) _ (rw z at r) in
      let (m₁, e₂, r₂) = >>=-eq-some (TaskManager.prepare_me_for_sleep m) _ r₁ in
      subst (Entered a s m) (some-injective _ _ r₂)
        (record { none_free = ground arith; same = refl; pushed = e₁ })
  | inr p ↦
      subst (Entered a s m) (some-injective _ _ (rw p at r))
        (record { free = ground arith; less = ground arith; same = refl })
]

-- A push that succeeds is the one that keeps the queue.
pushed-Holds :
    (a task : ℕ) (q q' : WaitQueue) (ws : List ℕ)
    → Holds q ws
    → a ≢ 0
    → NotIn a ws
    → push_waiter a task q ≡ some q'
    → Holds q' (ws ++ a ∷ [])
pushed-Holds a task q q' ws h nz new e =
    let (p, e₁, h₁) = push_waiter-Holds a task q ws h nz new in
    subst (λ x. Holds x (ws ++ a ∷ [])) (some-injective _ _ (sym e₁ ∙ e)) h₁

-- What `up` does, for the waiters there are.
abbrev pub Raised : List ℕ → Semaphore → TaskManager → Semaphore → TaskManager → Type 0
Raised [] s m s' m' = (s'.count ≡ (s.count + 1) % 2 ^ 32) × Holds s'.queue [] × (m' ≡ m)
Raised (w ∷ ws) s m s' m' =
    (s'.count ≡ s.count)
    × Holds s'.queue ws
    × ((s'.queue.cell w).up ≡ true)
    × (m' ≡ TaskManager.wake_up_task (s.queue.cell w).task m)

-- On a queue that holds the waiters of a list, up fails no assertion. Without waiters it adds one to
-- the count, modulo 2^32; otherwise the count stays, the oldest waiter leaves the queue, its flag is
-- set and its task is woken.
pub up-Raised :
    (s : Semaphore) (m : TaskManager) (ws : List ℕ)
    → Holds s.queue ws
    → (s' : Semaphore) × (m' : TaskManager) × (up s m ≡ some (s', m')) × Raised ws s m s' m'
unfolding up
up-Raised s m [] h =
    (record s { count = (s.count + 1) % 2 ^ 32 }, m, simp (h.chain, h.ends), (refl, h, refl))
up-Raised s m (w ∷ ws) h =
    let (f, popped) = pop_waiter-Holds s.queue w ws h in
    let full = last_of-ne s.queue.cell s.queue.first w ws h.chain in
    let some_first : (s.queue.first == 0) ≡ false = ground (arith, h.chain.0, h.chain.1) in
    let some_last : (s.queue.last == 0) ≡ false = ground (arith, h.ends) in
    (
      record s { queue = set_up s.queue.first (pop_waiter s.queue) },
      TaskManager.wake_up_task (s.queue.cell s.queue.first).task m,
      simp (some_first, some_last),
      (
        refl,
        subst (λ x. Holds (set_up x (pop_waiter s.queue)) ws) (sym f) popped,
        subst (λ x. ((set_up x (pop_waiter s.queue)).cell w).up ≡ true) (sym f) (ground arith),
        ap (λ x. TaskManager.wake_up_task (s.queue.cell x).task m) f,
      ),
    )

release-IsBalanced :
    (total : ℕ) (s s' : Semaphore) (m m' : TaskManager) (ws : List ℕ) (h : ℕ)
    → Raised ws s m s' m'
    → IsBalanced total (record { semaphore = s; tasks = m; waiting = ws; held = suc h })
    → IsBalanced total
        (record { semaphore = s'; tasks = m'; waiting = rest ws; held = held_after ws h })
release-IsBalanced total s s' m m' [] h r b = record {
  queue = r.1;
  permits = omega (arith, r.0, b.permits, b.narrow);
  busy = λ n. tt;
  narrow = b.narrow;
}
release-IsBalanced total s s' m m' (w ∷ ws) h r b = record {
  queue = r.1;
  permits = omega (arith, r.0, b.permits);
  busy = λ n. absurd (b.busy (λ z. n (r.0 ∙ z)));
  narrow = b.narrow;
}

-- Every step keeps the balance.
pub Step-IsBalanced :
    (total : ℕ) (l l' : Ledger) → Step l l' → IsBalanced total l → IsBalanced total l'
Step-IsBalanced total _ _ (pass a s s' m m' ws h e) b =
    let t = down-Entered a s m (passes s' m') e in
    record {
      queue = rw t.same b.queue;
      permits = omega (arith, t.less, b.permits);
      busy = λ n. b.busy t.free;
      narrow = b.narrow;
    }
Step-IsBalanced total _ _ (block a s s' m m' ws h nz new e) b =
    let t = down-Entered a s m (sleeps s' m') e in
    record {
      queue = pushed-Holds a m.active_task s.queue s'.queue ws b.queue nz new t.pushed;
      permits = omega (arith, t.same, b.permits);
      busy = λ n. absurd (n (t.same ∙ t.none_free));
      narrow = b.narrow;
    }
Step-IsBalanced total _ _ (release s s' m m' ws h e) b =
    let (s₁, m₁, e₁, r) = up-Raised s m ws b.queue in
    let same = some-injective _ _ (sym e₁ ∙ e) in
    release-IsBalanced total s s' m m' ws h (subst (λ p. Raised ws s m p.0 p.1) same r) b
Step-IsBalanced total _ _ (switch s m m' ws h) b = record {
  queue = b.queue;
  permits = b.permits;
  busy = b.busy;
  narrow = b.narrow;
}

pub Reach-IsBalanced :
    (total : ℕ) (l l' : Ledger) → Reach l l' → IsBalanced total l → IsBalanced total l'
Reach-IsBalanced total _ _ (here l) b = b
Reach-IsBalanced total _ _ (more l l₁ l₂ r st) b =
    Step-IsBalanced total l₁ l₂ st (Reach-IsBalanced total l l₁ r b)

-- A semaphore of one permit, such as a mutex, is held at most once at any time of a run of down and
-- up.
pub exclusion : (l l' : Ledger) → Reach l l' → IsBalanced 1 l → l'.held ≤ 1
exclusion l l' r b = omega (arith, (Reach-IsBalanced 1 l l' r b).permits)
