-- ===== src/TaskManager/Clone/Copied.antt =====
-- source/TaskManager.cpp, `clone`: what the copies of the pages make of the child's user space.
use flix.Base.{
  ℕ, ◌+◌, ◌-◌, ◌*◌, ◌%◌, ◌^◌, ◌<◌, ◌≤◌, ◌≡◌, refl, ◌∙◌, sym, ap, true, false, arith, ◌==◌, inl, inr,
  Bool-cases, length, Memᴰ,
}
use flix.Memory.{Memory, is_used}
use flix.Paging.{empty, Tables, index, is_valid}
use flix.Paging.Access.{entry_at, same_page}
use flix.Paging.Coherent.{TakesFrames-free, TakesFrames, IsCoherent}
use flix.Paging.Kernel.{SharesKernel, in_kernel}
use flix.Paging.Ranges.{same_page-number}
use flix.Paging.UserSpace.{IsMapped, OwnsFrames}
use flix.Paging.Visited.{mem-user_pages_iff}
use flix.Paging.Visits.{Visit, IsUserPage, user_pages}
use flix.TaskManager.Clone.{Contents, Cloning, buffer_page}
use flix.TaskManager.Clone.Pages.{Spares}
use flix.TaskManager.Clone.Plan.{Plan, Copy, Cloned}

abbrev pub visit_of : Tables 3 → ℕ → Visit
visit_of t a = record { address = a; entry = entry_at 3 t a }

-- A user space that `clone` can copy.
pub record IsCloneable (t : Tables 3) (m : Memory) : Type 0 where
  pub used : (a : ℕ) → IsMapped t a → is_used m (entry_at 3 t a).base ≡ true
  pub public : (a : ℕ) → a < 2 ^ 47 → is_valid (entry_at 3 t a) ≡ true → (entry_at 3 t a).us ≡ true
  pub idle : (entry_at 3 t buffer_page).p ≡ false
  pub room : length m.frames + 2 ^ 14 * (length (user_pages t) + 1) < 2 ^ 40 - 1

-- The child's user space is a copy of the parent's, which stays as it is.
pub record IsClone {S : Type 0} (vbase : ℕ) (kernel t : Tables 3) (m : Memory) (contents : Contents)
    (c : Cloning S) : Type 0 where
  pub parent : Spares t c.parent.manager
  pub coherent : IsCoherent 3 c.child.manager
  pub kernel_half :
      (a : ℕ) → in_kernel vbase a ≡ true → entry_at 3 c.child.manager a ≡ entry_at 3 kernel a
  pub present : (a : ℕ) → IsMapped t a → Copy (visit_of t a) m contents c
  pub deferred :
      (a : ℕ)
      → a < 2 ^ 47
      → a % 2 ^ 12 ≡ 0
      → is_valid (entry_at 3 t a) ≡ true
      → (entry_at 3 t a).p ≡ false
      → entry_at 3 c.child.manager a ≡ entry_at 3 t a
  pub vacant :
      (a : ℕ)
      → a < 2 ^ 47
      → a % 2 ^ 12 ≡ 0
      → is_valid (entry_at 3 t a) ≡ false
      → entry_at 3 c.child.manager a ≡ empty
  pub owns : OwnsFrames c.child.manager c.machine.memory
  pub keeps : (q : ℕ) → is_used m q ≡ true → is_used c.machine.memory q ≡ true
  pub bytes : (q : ℕ) → is_used m q ≡ true → c.contents q ≡ contents q

-- Pages of the user's half and of the kernel's gigabyte are apart.
same_page-in_kernel :
    (vbase a b : ℕ)
    → 2 ^ 8 ≤ index 3 vbase
    → a < 2 ^ 47
    → in_kernel vbase b ≡ true
    → same_page 3 a b ≡ false
same_page-in_kernel vbase a b upper low inside = elim (Bool-cases (same_page 3 a b)) [
  | inl same ↦
      let number = same_page-number a b same in
      let top : index 3 b ≡ index 3 vbase = ground arith in absurd (omega arith)
  | inr other ↦ other
]

in_kernel-lower : (vbase a : ℕ) → 2 ^ 8 ≤ index 3 vbase → a < 2 ^ 47 → in_kernel vbase a ≡ false
in_kernel-lower vbase a upper low =
    let away : (index 3 a == index 3 vbase) ≡ false = ground arith in rw away refl

module _ {S : Type 0} (vbase : ℕ) (kernel : Tables 3) (upper : 2 ^ 8 ≤ index 3 vbase)
    (c : Cloning S) (shares : SharesKernel vbase kernel c.child.manager) (m : Memory)
    (cloneable : IsCloneable c.parent.manager m) (x : TakesFrames m c.machine.memory 2) where
  page_of : (v : Visit) → Memᴰ v (user_pages c.parent.manager) → IsUserPage c.parent.manager v
  page_of v mem = (mem-user_pages_iff c.parent.manager v).0 mem

  pub Plan-user_pages : Plan (user_pages c.parent.manager) c
  Plan-user_pages = record {
    clonable = λ v mem.
        let u = page_of v mem in
        let off = in_kernel-lower vbase v.address upper u.lower in
        record {
          lower = u.lower;
          aligned = u.aligned;
          public =
              ap (λ e. e.us) (sym u.entry)
              ∙ cloneable.public v.address u.lower (ap is_valid u.entry ∙ u.valid);
          valid = u.valid;
          entry = u.entry;
          vacant = shares.reads v.address ∙ rw off refl;
        };
    used = λ v mem here.
        let u = page_of v mem in
        ap (λ e. is_used c.machine.memory e.base) (sym u.entry)
        ∙ x.keeps (entry_at 3 c.parent.manager v.address).base (
            cloneable.used v.address (record {
              lower = u.lower;
              aligned = u.aligned;
              present = ap (λ e. e.p) u.entry ∙ here;
            }));
    room = let more = x.grows in let left = cloneable.room in omega arith;
  }

  module _ (c' : Cloning S) (l : Cloned (user_pages c.parent.manager) c c') where
    mem-valid :
        (a : ℕ)
        → a < 2 ^ 47
        → a % 2 ^ 12 ≡ 0
        → is_valid (entry_at 3 c.parent.manager a) ≡ true
        → Memᴰ (visit_of c.parent.manager a) (user_pages c.parent.manager)
    mem-valid a low flat valid =
        (mem-user_pages_iff c.parent.manager (visit_of c.parent.manager a)).1
          (record { lower = low; aligned = flat; entry = refl; valid = valid })

    mem-present :
        (a : ℕ)
        → IsMapped c.parent.manager a
        → Memᴰ (visit_of c.parent.manager a) (user_pages c.parent.manager)
    mem-present a h = let shown = h.present in mem-valid a h.lower h.aligned (rw shown refl)

    child_vacant :
        (a : ℕ)
        → a < 2 ^ 47
        → a % 2 ^ 12 ≡ 0
        → is_valid (entry_at 3 c.parent.manager a) ≡ false
        → entry_at 3 c'.child.manager a ≡ empty
    child_vacant a low flat invalid =
        let off = in_kernel-lower vbase a upper low in
        l.others a (λ v mem. elim (Bool-cases (same_page 3 v.address a)) [
          | inl same ↦
              let u = page_of v mem in
              let number = same_page-number v.address a same in
              let low' = u.lower in
              let flat' = u.aligned in
              let place : a ≡ v.address = omega arith in
              let clash : false ≡ true =
                sym invalid
                ∙ ap (λ x. is_valid (entry_at 3 c.parent.manager x)) place
                ∙ ap is_valid u.entry
                ∙ u.valid in
              cc
          | inr other ↦ other
        ])
        ∙ shares.reads a
        ∙ rw off refl

    -- The child's present pages are the parent's.
    IsMapped-parent : (a : ℕ) → IsMapped c'.child.manager a → IsMapped c.parent.manager a
    IsMapped-parent a h = record {
      lower = h.lower;
      aligned = h.aligned;
      present = elim (Bool-cases (is_valid (entry_at 3 c.parent.manager a))) [
        | inl valid ↦ elim (Bool-cases (entry_at 3 c.parent.manager a).p) [
          | inl here ↦ here
          | inr gone ↦
              let same =
                l.deferred (visit_of c.parent.manager a) (mem-valid a h.lower h.aligned valid)
                  gone in
              let clash : true ≡ false = sym h.present ∙ ap (λ e. e.p) same ∙ gone in cc
        ]
        | inr invalid ↦
            let clash : true ≡ false =
              sym h.present ∙ ap (λ e. e.p) (child_vacant a h.lower h.aligned invalid) in
            cc
      ];
    }

    child_owns : OwnsFrames c'.child.manager c'.machine.memory
    child_owns = record {
      used = λ a h.
          let k = IsMapped-parent a h in
          let copy = l.copy (visit_of c.parent.manager a) (mem-present a k) k.present in
          ap (λ e. is_used c'.machine.memory e.base) copy.entry ∙ copy.taken;
      apart = λ a b h h' same.
          let k = IsMapped-parent a h in
          let k' = IsMapped-parent b h' in
          l.apart (visit_of c.parent.manager a) (visit_of c.parent.manager b) (mem-present a k)
            (mem-present b k') k.present k'.present same;
    }

    pub IsClone-Cloned : IsClone vbase kernel c.parent.manager m c.contents c'
    IsClone-Cloned = record {
      parent = l.parent;
      coherent = l.coherent;
      kernel_half = λ a inside.
          l.others a
            (λ v mem. same_page-in_kernel vbase v.address a upper (page_of v mem).lower inside)
          ∙ shares.reads a
          ∙ rw inside refl;
      present = λ a h.
          let k = l.copy (visit_of c.parent.manager a) (mem-present a h) h.present in
          record {
            frame = k.frame;
            entry = k.entry;
            free = TakesFrames-free m c.machine.memory 2 k.frame x k.free;
            taken = k.taken;
            bytes = k.bytes;
          };
      deferred = λ a low flat valid gone.
          l.deferred (visit_of c.parent.manager a) (mem-valid a low flat valid) gone;
      vacant = child_vacant;
      owns = child_owns;
      keeps = λ q used. l.keeps q (x.keeps q used);
      bytes = λ q used. l.bytes q (x.keeps q used);
    }
