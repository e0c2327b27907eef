-- ===== src/TaskManager/Tree.antt =====
-- TaskManager.hpp, `HierarchyHolder`: the children of a task as a doubly linked list.
use flix.Base.{ℕ, not, Option, some, List, assert, ◌>>=◌, ◌>>◌, ◌==◌, if◌then◌else◌}
use flix.TaskManager.{Hierarchy, Task, get_task, modify}

abbrev pub set_parent : ℕ → Task → Task
set_parent p t = record t { hh = record (t.hh) { parent = p } }

abbrev pub set_first_child : ℕ → Task → Task
set_first_child p t = record t { hh = record (t.hh) { first_child = p } }

abbrev pub set_next_sibling : ℕ → Task → Task
set_next_sibling p t = record t { hh = record (t.hh) { next_sibling = p } }

abbrev pub set_prev_sibling : ℕ → Task → Task
set_prev_sibling p t = record t { hh = record (t.hh) { prev_sibling = p } }

-- The part of `addChild` that is guarded by `if (firstChild)`.
unfoldable pub push_before : ℕ → ℕ → List Task → Option (List Task)
push_before first child ts = if first == 0 then some ts else (do
  f ← get_task first ts
  assert (f.hh.prev_sibling == 0)
  some (modify first (set_prev_sibling child) ts))

-- `parent.addChild(child)`.
unfoldable pub add_child : ℕ → ℕ → List Task → Option (List Task)
unfolding push_before
add_child parent child ts = do
  p ← get_task parent ts
  ts₁ ← push_before p.hh.first_child child ts
  c ← get_task child ts₁
  assert (c.hh.prev_sibling == 0)
  let ts₂ = modify child (set_next_sibling p.hh.first_child) ts₁
  let ts₃ = modify parent (set_first_child child) ts₂
  assert (not (c.hh.parent == 0))
  some ts₃

-- The body of `~HierarchyHolder`, behind its first test.
abbrev pub detach : Task → Hierarchy → List Task → Option (List Task)
detach t hh ts = do
  p ← get_task hh.parent ts
  let ts₁ =
      if p.hh.first_child == t.tid
      then modify hh.parent (set_first_child hh.next_sibling) ts
      else ts
  let ts₂ =
      if hh.prev_sibling == 0
      then ts₁
      else modify hh.prev_sibling (set_next_sibling hh.next_sibling) ts₁
  let ts₃ =
      if hh.next_sibling == 0
      then ts₂
      else modify hh.next_sibling (set_prev_sibling hh.prev_sibling) ts₂
  assert (hh.first_child == 0)
  some ts₃

-- `~HierarchyHolder` of the task `t`.
unfoldable pub unlink : Task → List Task → Option (List Task)
unlink t ts = if t.hh.parent == 0 then some ts else detach t t.hh ts
