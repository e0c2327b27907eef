-- ===== src/Paging/Order.antt =====
-- source/PageDirectory.cpp, `forEachUserPage`: the visits go up in the addresses.
use flix.Base.{
  ℕ, ◌+◌, ◌*◌, ◌^◌, ◌≤◌, ◌≡◌, refl, true, Option, none, some, arith, ◌==◌, if◌then◌else◌, leb, ltb,
  List, Ascending, inl, inr, Ascending-loop, Bool-cases,
}
use mathlib.Core.Path.{subst}
use flix.Paging.{Tables, is_valid}
use flix.Paging.Visits.{
  Visit, extend_sign, extend_sign_low, visit_table, visit_directory, visit_pointers, user_pages,
  in_table,
}

abbrev pub key : Visit → ℕ
key v = v.address

in_table-Ascending :
    {T : Type 0} (lo hi : ℕ) (f : T → List Visit) (o : Option T)
    → lo ≤ hi
    → ((u : T) → Ascending key lo hi (f u))
    → Ascending key lo hi (in_table f o)
in_table-Ascending lo hi f none h all = h
in_table-Ascending lo hi f (some u) h all = all u

visit_table-Ascending :
    (add : ℕ) (t : Tables 0) → Ascending key add (add + 2 ^ 21) (visit_table t add)
unfolding visit_table
visit_table-Ascending add t =
    Ascending-loop key (λ j. add + j * 2 ^ 12) add (add + 2 ^ 21) (2 ^ 9) _ (omega arith)
      (omega arith)
      (λ j small. elim (Bool-cases (is_valid (t j))) [
        | inl valid ↦ rw valid (omega arith, omega arith)
        | inr invalid ↦ rw invalid (omega arith)
      ])

visit_directory-Ascending :
    (add : ℕ) (t : Tables 1) → Ascending key add (add + 2 ^ 30) (visit_directory t add)
unfolding visit_directory
visit_directory-Ascending add t =
    Ascending-loop key (λ j. add + j * 2 ^ 21) add (add + 2 ^ 30) (2 ^ 9) _ (omega arith)
      (omega arith)
      (λ j small.
        let next : add + j * 2 ^ 21 + 2 ^ 21 ≡ add + (j + 1) * 2 ^ 21 = omega arith in
        in_table-Ascending (add + j * 2 ^ 21) (add + (j + 1) * 2 ^ 21) _ (t.next j) (omega arith)
          (λ u.
            subst (λ hi. Ascending key (add + j * 2 ^ 21) hi (visit_table u (add + j * 2 ^ 21)))
              next (visit_table-Ascending (add + j * 2 ^ 21) u)))

-- A round of a level 3 table, visited or skipped.
visit_pointers-Ascending :
    (add : ℕ) (t : Tables 2) → Ascending key add (add + 2 ^ 39) (visit_pointers t add)
unfolding visit_pointers
visit_pointers-Ascending add t =
    Ascending-loop key (λ j. add + j * 2 ^ 30) add (add + 2 ^ 39) (2 ^ 9) _ (omega arith)
      (omega arith)
      (λ j small.
        let next : add + j * 2 ^ 30 + 2 ^ 30 ≡ add + (j + 1) * 2 ^ 30 = omega arith in
        elim (Bool-cases (leb 0xffff00000000 (add + j * 2 ^ 30))) [
          | inl skip ↦ rw skip (omega arith)
          | inr go ↦ rw go (
              in_table-Ascending (add + j * 2 ^ 30) (add + (j + 1) * 2 ^ 30) _ (t.next j)
                (omega arith)
                (λ u.
                  subst
                    (λ hi.
                      Ascending key (add + j * 2 ^ 30) hi (visit_directory u (add + j * 2 ^ 30)))
                    next (visit_directory-Ascending (add + j * 2 ^ 30) u)))
        ])

-- Above the lower half nothing is visited.
visit_pointers-skip :
    (add lo hi : ℕ) (t : Tables 2)
    → 0xffff00000000 ≤ add
    → lo ≤ hi
    → Ascending key lo hi (visit_pointers t add)
unfolding visit_pointers
visit_pointers-skip add lo hi t high h =
    Ascending-loop key (λ j. if j == 0 then lo else hi) lo hi (2 ^ 9) _ refl refl
      (λ j small.
        let skip : leb 0xffff00000000 (add + j * 2 ^ 30) ≡ true = ground arith in
        rw skip (ground arith))

-- forEachUserPage goes up in the addresses, so that it visits each page once.
pub user_pages-Ascending : (t : Tables 3) → Ascending key 0 (2 ^ 48) (user_pages t)
unfolding user_pages
user_pages-Ascending t =
    Ascending-loop key (λ j. j * 2 ^ 39) 0 (2 ^ 48) (2 ^ 9) _ refl refl
      (λ j small.
        in_table-Ascending (j * 2 ^ 39) ((j + 1) * 2 ^ 39) _ (t.next j) (omega arith) (λ u.
          elim (Bool-cases (ltb j (2 ^ 8))) [
            | inl low ↦
                let plain = extend_sign_low j (ground arith) in
                let next : j * 2 ^ 39 + 2 ^ 39 ≡ (j + 1) * 2 ^ 39 = omega arith in
                rw plain (
                  subst (λ hi. Ascending key (j * 2 ^ 39) hi (visit_pointers u (j * 2 ^ 39))) next
                    (visit_pointers-Ascending (j * 2 ^ 39) u))
            | inr top ↦
                let high : 0xffff00000000 ≤ extend_sign (j * 2 ^ 39) = ground arith in
                visit_pointers-skip (extend_sign (j * 2 ^ 39)) (j * 2 ^ 39) ((j + 1) * 2 ^ 39) u
                  high (omega arith)
          ]))
