-- ===== src/Interrupt/Saving.antt =====
-- source/TaskManager.cpp, `saveCurrentTask`: the saving of registers changes neither which tasks there are nor which run.
use flix.Base.{
  ℕ, ◌≡◌, refl, ap, Bool, true, false, Option, none, some, ltb, ◌==◌, if◌then◌else◌, ◌&&◌, arith,
  inl, inr, Bool-cases, Option-cases, List, [], ◌∷◌,
}
use flix.Syscall.{InterruptState}
use flix.TaskManager.{
  State, runnable, sleeping, zombie, Task, is_runnable, is_zombie, get_task, modify,
}
use flix.TaskManager.Life.{all_zombie}
use flix.TaskManager.Next.{first_after, cyclic_next, or_else}
use flix.Interrupt.Dispatch.{to_task_context}

module _ (a : ℕ) (st : InterruptState) where
  -- A task after the context of task `a` is saved.
  abbrev pub saved_task : Task → Task
  saved_task t = if t.tid == a then to_task_context st t else t

  abbrev pub saved : Option Task → Option Task
  saved none = none
  saved (some t) = some (saved_task t)

  first_after-modify :
      (id : ℕ) (ts : List Task)
      → first_after id (modify a (to_task_context st) ts) ≡ saved (first_after id ts)
  unfolding first_after modify
  first_after-modify id [] = refl
  first_after-modify id (t ∷ ts) =
      let rest = first_after-modify id ts in
      elim (Bool-cases (t.tid == a)) [
        | inl e ↦ elim (Bool-cases (ltb id t.tid && is_runnable t.state)) [
          | inl g ↦ rw (e, g, e) refl
          | inr g ↦ rw (e, g) rest
        ]
        | inr e ↦ elim (Bool-cases (ltb id t.tid && is_runnable t.state)) [
          | inl g ↦ rw (e, g, e) refl
          | inr g ↦ rw (e, g) rest
        ]
      ]

  pub cyclic_next-modify :
      (id : ℕ) (ts : List Task)
      → cyclic_next id (modify a (to_task_context st) ts) ≡ saved (cyclic_next id ts)
  cyclic_next-modify id ts =
      rw (first_after-modify id ts, first_after-modify 0 ts)
        (either (first_after id ts) (first_after 0 ts))
    where
      either : (x y : Option Task) → or_else (saved x) (saved y) ≡ saved (or_else x y)
      either none y = refl
      either (some t) y = refl

  pub all_zombie-modify :
      (ts : List Task) → all_zombie (modify a (to_task_context st) ts) ≡ all_zombie ts
  unfolding modify
  all_zombie-modify [] = refl
  all_zombie-modify (t ∷ ts) = elim (Bool-cases (t.tid == a)) [
    | inl e ↦ rw e (ap (λ b. is_zombie t.state && b) (all_zombie-modify ts))
    | inr e ↦ rw e (ap (λ b. is_zombie t.state && b) (all_zombie-modify ts))
  ]

  pub get_task-modify :
      (tid : ℕ) (ts : List Task)
      → get_task tid (modify a (to_task_context st) ts) ≡ saved (get_task tid ts)
  unfolding get_task modify
  get_task-modify tid [] = refl
  get_task-modify tid (t ∷ ts) =
      let rest = get_task-modify tid ts in
      elim (Bool-cases (t.tid == a)) [
        | inl e ↦ elim (Bool-cases (t.tid == tid)) [
          | inl g ↦ rw (e, g, e) refl
          | inr g ↦ rw (e, g) rest
        ]
        | inr e ↦ elim (Bool-cases (t.tid == tid)) [
          | inl g ↦ rw (e, g, e) refl
          | inr g ↦ rw (e, g) rest
        ]
      ]

-- Where a task can run, not all are zombies.
all_zombie-first_after :
    (id : ℕ) (ts : List Task) (t : Task) → first_after id ts ≡ some t → all_zombie ts ≡ false
unfolding first_after
all_zombie-first_after id [] t e = cc
all_zombie-first_after id (s ∷ ts) t e = elim (Bool-cases (ltb id s.tid && is_runnable s.state)) [
  | inl g ↦ alive s.state (ground arith) (all_zombie ts)
  | inr g ↦
      let rest = all_zombie-first_after id ts t (rw g at e) in rw rest (falls (is_zombie s.state))
]
  where
    alive : (x : State) → is_runnable x ≡ true → (b : Bool) → (is_zombie x && b) ≡ false
    alive runnable e b = refl
    alive sleeping e b = cc
    alive zombie e b = cc

    falls : (b : Bool) → (b && false) ≡ false
    falls true = refl
    falls false = refl

pub all_zombie-cyclic_next :
    (id : ℕ) (ts : List Task) (t : Task) → cyclic_next id ts ≡ some t → all_zombie ts ≡ false
all_zombie-cyclic_next id ts t e = elim (Option-cases (first_after id ts)) [
  | inl none_later ↦ all_zombie-first_after 0 ts t (rw none_later at e)
  | inr (s, found) ↦ all_zombie-first_after id ts s found
]

pub get_task-tid : (tid : ℕ) (ts : List Task) (t : Task) → get_task tid ts ≡ some t → t.tid ≡ tid
unfolding get_task
get_task-tid tid [] t e = cc
get_task-tid tid (s ∷ ts) t e = ground (arith, get_task-tid tid ts t)
