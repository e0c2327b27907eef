-- ===== src/Sync/Queue.antt =====
-- Semaphore.cpp and CondVar.cpp: the linked waiters are a first-in first-out queue.
use flix.Base.{ℕ, ◌≡◌, ◌≢◌, refl, sym, true, false, some, List, [], ◌∷◌, ◌++◌, arith, ◌==◌}
use flix.Sync.{Waiter, WaitQueue, store, push_waiter, pop_waiter, set_up}

-- From `a` on, the waiters of the list, linked in order.
abbrev pub Chain : (ℕ → Waiter) → ℕ → List ℕ → Type 0
Chain f a [] = a ≡ 0
Chain f a (w ∷ ws) = (a ≡ w) × (w ≢ 0) × Chain f (f w).next ws

abbrev pub NotIn : ℕ → List ℕ → Type 0
NotIn a [] = Unit
NotIn a (w ∷ ws) = (a ≢ w) × NotIn a ws

abbrev pub Distinct : List ℕ → Type 0
Distinct [] = Unit
Distinct (w ∷ ws) = NotIn w ws × Distinct ws

abbrev pub last_of : List ℕ → ℕ
last_of [] = 0
last_of (w ∷ []) = w
last_of (w ∷ v ∷ ws) = last_of (v ∷ ws)

-- The queue holds the waiters of the list, the longest waiting first.
pub record Holds (q : WaitQueue) (ws : List ℕ) : Type 0 where
  pub chain : Chain q.cell q.first ws
  pub ends : q.last ≡ last_of ws
  pub distinct : Distinct ws

-- A write elsewhere changes no link.
Chain-frame :
    (f : ℕ → Waiter) (a b : ℕ) (w : Waiter) (ws : List ℕ)
    → NotIn b ws
    → Chain f a ws
    → Chain (store f b w) a ws
Chain-frame f a b w [] n c = c
Chain-frame f a b w (v ∷ ws) n c =
    let same : store f b w v ≡ f v = ground arith in
    (c.0, c.1, rw same (Chain-frame f (f v).next b w ws n.1 c.2))

-- A write that keeps the link of a waiter keeps the chain.
Chain-next :
    (f g : ℕ → Waiter) (a : ℕ) (ws : List ℕ)
    → ((q : ℕ) → (g q).next ≡ (f q).next)
    → Chain f a ws
    → Chain g a ws
Chain-next f g a [] same c = c
Chain-next f g a (w ∷ ws) same c = (c.0, c.1, rw (same w) (Chain-next f g (f w).next ws same c.2))

NotIn-last : (a b : ℕ) (bs : List ℕ) → NotIn a (b ∷ bs) → a ≢ last_of (b ∷ bs)
NotIn-last a b [] n = n.0
NotIn-last a b (c ∷ bs) n = NotIn-last a c bs n.1

pub last_of-ne :
    (f : ℕ → Waiter) (a w : ℕ) (ws : List ℕ) → Chain f a (w ∷ ws) → last_of (w ∷ ws) ≢ 0
last_of-ne f a w [] c = c.1
last_of-ne f a w (v ∷ ws) c = last_of-ne f (f w).next v ws c.2

-- Linking a new waiter behind the last one.
Chain-snoc :
    (f : ℕ → Waiter) (a n l : ℕ) (w : ℕ) (ws : List ℕ)
    → Chain f a (w ∷ ws)
    → Distinct (w ∷ ws)
    → last_of (w ∷ ws) ≡ l
    → (f n).next ≡ 0
    → n ≢ 0
    → NotIn n (w ∷ ws)
    → Chain (store f l (record (f l) { next = n })) a (w ∷ (ws ++ n ∷ []))
Chain-snoc f a n l w [] c d e z nz new =
    let at : (store f l (record (f l) { next = n }) w).next ≡ n = ground arith in
    let end : (store f l (record (f l) { next = n }) n).next ≡ 0 = ground arith in
    (c.0, c.1, rw at (refl, nz, end))
Chain-snoc f a n l w (v ∷ ws) c d e z nz new =
    let apart = NotIn-last w v ws d.0 in
    let same : store f l (record (f l) { next = n }) w ≡ f w = ground arith in
    (c.0, c.1, rw same (Chain-snoc f (f w).next n l v ws c.2 d.1 e z nz new.1))

NotIn-snoc : (a n : ℕ) (ws : List ℕ) → NotIn a ws → a ≢ n → NotIn a (ws ++ n ∷ [])
NotIn-snoc a n [] h ne = (ne, tt)
NotIn-snoc a n (w ∷ ws) h ne = (h.0, NotIn-snoc a n ws h.1 ne)

Distinct-snoc : (n : ℕ) (ws : List ℕ) → Distinct ws → NotIn n ws → Distinct (ws ++ n ∷ [])
Distinct-snoc n [] d h = (tt, tt)
Distinct-snoc n (w ∷ ws) d h =
    (NotIn-snoc w n ws d.0 (λ e. h.0 (sym e)), Distinct-snoc n ws d.1 h.1)

last_of-snoc : (n : ℕ) (ws : List ℕ) → last_of (ws ++ n ∷ []) ≡ n
last_of-snoc n [] = refl
last_of-snoc n (w ∷ []) = refl
last_of-snoc n (w ∷ v ∷ ws) = last_of-snoc n (v ∷ ws)

-- On a queue that holds the waiters of a list, a waiter that is not null and not in the queue is put
-- at its end without a failed assertion; the others keep their order.
pub push_waiter-Holds :
    (a task : ℕ) (q : WaitQueue) (ws : List ℕ)
    → Holds q ws
    → a ≢ 0
    → NotIn a ws
    → (q' : WaitQueue) × (push_waiter a task q ≡ some q') × Holds q' (ws ++ a ∷ [])
unfolding push_waiter
push_waiter-Holds a task q [] h nz new = (
  record {
    first = a;
    last = a;
    cell = store q.cell a (record { up = false; task = task; next = 0 });
  },
  rw (h.ends, h.chain),
  record { chain = (refl, nz, ground arith); ends = refl; distinct = (tt, tt) },
)
push_waiter-Holds a task q (w ∷ ws) h nz new =
    let full = last_of-ne q.cell q.first w ws h.chain in
    let some_last : (q.last == 0) ≡ false = ground (arith, h.ends) in
    (
      record q { last = a; cell = store fresh q.last (record (fresh q.last) { next = a }) },
      rw some_last,
      record {
        chain =
            Chain-snoc fresh q.first a q.last w ws
              (Chain-frame q.cell q.first a _ (w ∷ ws) new h.chain) h.distinct (sym h.ends)
              (ground arith) nz new;
        ends = sym (last_of-snoc a (w ∷ ws));
        distinct = Distinct-snoc a (w ∷ ws) h.distinct new;
      },
    )
  where
    fresh : ℕ → Waiter
    fresh = store q.cell a (record { up = false; task = task; next = 0 })

-- The waiter that is taken out is the one that has waited longest; `up` and `notify_one` set its flag.
pub pop_waiter-Holds :
    (q : WaitQueue) (w : ℕ) (ws : List ℕ)
    → Holds q (w ∷ ws)
    → (q.first ≡ w) × Holds (set_up w (pop_waiter q)) ws
unfolding pop_waiter
pop_waiter-Holds q w [] h = (
  h.chain.0,
  record { chain = ground (arith, h.chain); ends = ground (arith, h.chain, h.ends); distinct = tt },
)
pop_waiter-Holds q w (v ∷ ws) h =
    let apart = NotIn-last w v ws h.distinct.0 in
    let more : (q.first == q.last) ≡ false = ground (arith, h.chain.0, h.ends) in
    (
      h.chain.0,
      record {
        chain = rw h.chain.0 (
            Chain-next q.cell (store q.cell w (record (q.cell w) { up = true })) (q.cell w).next
              (v ∷ ws) (λ k. ground arith) h.chain.2);
        ends = rw more h.ends;
        distinct = h.distinct.1;
      },
    )
