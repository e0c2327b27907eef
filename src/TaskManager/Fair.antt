-- ===== src/TaskManager/Fair.antt =====
-- TaskManager.cpp: the cyclic order of `getNext` is fair.
use flix.Base.{
  ℕ, ◌+◌, ◌-◌, ◌%◌, ◌^◌, ◌≤◌, ◌<◌, ◌≡◌, ◌∙◌, ap, true, false, none, some, List, [], ◌∷◌, arith, ltb,
  ◌&&◌, ◌==◌, inl, inr, Bool-cases, Option-cases, dec_lt,
}
use flix.TaskManager.{TaskManager, Task, is_runnable, get_task, get_next}
use flix.TaskManager.Next.{Ascending, first_after, cyclic_next, get_next-cyclic_next}

-- A task in the set is found by its own tid.
get_task-tid : (ts : List Task) (k : ℕ) (r : Task) → get_task k ts ≡ some r → r.tid ≡ k
unfolding get_task
get_task-tid [] k r e = cc
get_task-tid (t ∷ ts) k r e = ground (arith, get_task-tid ts k r)

get_task-lower :
    (lo : ℕ) (ts : List Task) (k : ℕ) (r : Task)
    → Ascending lo ts
    → get_task k ts ≡ some r
    → (lo < r.tid) × (r.tid < 2 ^ 32)
unfolding get_task
get_task-lower lo [] k r a e = cc
get_task-lower lo (t ∷ ts) k r a e = elim (Bool-cases (t.tid == k)) [
  | inl u ↦ ground arith
  | inr u ↦ let h = get_task-lower t.tid ts k r a.2 (ground arith) in omega (arith, h)
]

-- What the first runnable task after `id` is.
record IsFirst (id : ℕ) (ts : List Task) (t : Task) : Type 0 where
  above : id < t.tid
  small : t.tid < 2 ^ 32
  ready : is_runnable t.state ≡ true
  member : get_task t.tid ts ≡ some t
  least :
      (k : ℕ) (r : Task)
      → get_task k ts ≡ some r
      → is_runnable r.state ≡ true
      → id < r.tid
      → t.tid ≤ r.tid

first_after-IsFirst :
    (lo id : ℕ) (ts : List Task) (t : Task)
    → Ascending lo ts
    → first_after id ts ≡ some t
    → IsFirst id ts t
unfolding first_after get_task
first_after-IsFirst lo id [] t a e = cc
first_after-IsFirst lo id (s ∷ ts) t a e = elim (Bool-cases (ltb id s.tid && is_runnable s.state)) [
  | inl u ↦ record {
    above = ground arith;
    small = ground arith;
    ready = ground arith;
    member = ground arith;
    least = λ k r found ready after. elim (Bool-cases (s.tid == k)) [
      | inl same ↦ ground arith
      | inr other ↦ let h = get_task-lower s.tid ts k r a.2 (ground arith) in ground (arith, h)
    ];
  }
  | inr u ↦
      let f = first_after-IsFirst s.tid id ts t a.2 (ground arith) in
      let far = get_task-lower s.tid ts t.tid t a.2 f.member in
      record {
        above = f.above;
        small = f.small;
        ready = f.ready;
        member = ground (arith, f.member, far);
        least = λ k r found ready after. elim (Bool-cases (s.tid == k)) [
          | inl same ↦ ground arith
          | inr other ↦ f.least k r (ground arith) ready after
        ];
      }
]

first_after-none :
    (id : ℕ) (ts : List Task)
    → first_after id ts ≡ none
    → (k : ℕ) (r : Task) → get_task k ts ≡ some r
    → is_runnable r.state ≡ true
    → r.tid ≤ id
unfolding first_after get_task
first_after-none id [] e k r found ready = cc
first_after-none id (s ∷ ts) e k r found ready =
    ground (arith, first_after-none id ts (ground arith) k r)

-- How far a tid lies behind the active one in cyclic order.
abbrev pub distance : ℕ → ℕ → ℕ
distance active tid = (tid + 2 ^ 32 - active - 1) % 2 ^ 32

-- A task that may be chosen while `r` waits: it can run, and does not come after `r`.
pub record IsChosen (active : ℕ) (ts : List Task) (r t : Task) : Type 0 where
  pub ready : is_runnable t.state ≡ true
  pub member : get_task t.tid ts ≡ some t
  pub not_after : distance active t.tid ≤ distance active r.tid

IsChosen-later :
    (active : ℕ) (ts : List Task) (k : ℕ) (r t : Task)
    → active < 2 ^ 32
    → get_task k ts ≡ some r
    → is_runnable r.state ≡ true
    → r.tid < 2 ^ 32
    → IsFirst active ts t
    → IsChosen active ts r t
IsChosen-later active ts k r t small found ready bound f = record {
  ready = f.ready;
  member = f.member;
  not_after = elim (dec_lt active r.tid) [
    | yes after ↦ let h = f.least k r found ready after in omega (arith, h, f.above)
    | no before ↦ omega (arith, f.above, f.small)
  ];
}

IsChosen-wrapped :
    (active : ℕ) (ts : List Task) (k : ℕ) (r t : Task)
    → active < 2 ^ 32
    → get_task k ts ≡ some r
    → is_runnable r.state ≡ true
    → 0 < r.tid
    → r.tid ≤ active
    → IsFirst 0 ts t
    → IsChosen active ts r t
IsChosen-wrapped active ts k r t small found ready pos before f = record {
  ready = f.ready;
  member = f.member;
  not_after = let h = f.least k r found ready pos in omega (arith, h);
}

cyclic_next-IsChosen :
    (active : ℕ) (ts : List Task) (k : ℕ) (r : Task)
    → Ascending 0 ts
    → active < 2 ^ 32
    → get_task k ts ≡ some r
    → is_runnable r.state ≡ true
    → (t : Task) × (cyclic_next active ts ≡ some t) × IsChosen active ts r t
cyclic_next-IsChosen active ts k r a small found ready =
    let (pos, bound) = get_task-lower 0 ts k r a found in
    elim (Option-cases (first_after active ts)) [
      | inr (t, e) ↦ (
        t,
        rw e,
        IsChosen-later active ts k r t small found ready bound
            (first_after-IsFirst 0 active ts t a e),
      )
      | inl e ↦
          let before = first_after-none active ts e k r found ready in
          elim (Option-cases (first_after 0 ts)) [
            | inr (t, e') ↦ (
              t,
              rw (e, e'),
              IsChosen-wrapped active ts k r t small found ready pos before
                  (first_after-IsFirst 0 0 ts t a e'),
            )
            | inl e' ↦ absurd (omega (arith, first_after-none 0 ts e' k r found ready))
          ]
    ]

-- For tasks in the order of their tids and a 32-bit active tid: while any task can run, getNext
-- chooses one that can, and no runnable task lies before it in cyclic order from the active task.
pub get_next-IsChosen :
    (m : TaskManager) (k : ℕ) (r : Task)
    → Ascending 0 m.tasks
    → m.active_task < 2 ^ 32
    → get_task k m.tasks ≡ some r
    → is_runnable r.state ≡ true
    → (t : Task) × (get_next m ≡ some (some t)) × IsChosen m.active_task m.tasks r t
get_next-IsChosen m k r a small found ready =
    let (t, e, c) = cyclic_next-IsChosen m.active_task m.tasks k r a small found ready in
    (t, get_next-cyclic_next m 0 a small ∙ ap some e, c)

first_after-idle :
    (lo id : ℕ) (ts : List Task)
    → Ascending lo ts
    → ((k : ℕ) (r : Task) → get_task k ts ≡ some r → is_runnable r.state ≡ false)
    → first_after id ts ≡ none
first_after-idle lo id ts a idle = elim (Option-cases (first_after id ts)) [
  | inl e ↦ e
  | inr (t, e) ↦
      let f = first_after-IsFirst lo id ts t a e in
      absurd (ground (arith, f.ready, idle t.tid t f.member))
]

-- For tasks in the order of their tids and a 32-bit active tid: if no task can run, getNext ends
-- without one.
pub get_next-idle :
    (m : TaskManager)
    → Ascending 0 m.tasks
    → m.active_task < 2 ^ 32
    → ((k : ℕ) (r : Task) → get_task k m.tasks ≡ some r → is_runnable r.state ≡ false)
    → get_next m ≡ some none
get_next-idle m a small idle =
    get_next-cyclic_next m 0 a small
    ∙ rw (first_after-idle 0 m.active_task m.tasks a idle, first_after-idle 0 0 m.tasks a idle)
