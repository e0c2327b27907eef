-- ===== src/Base/Loops.antt =====
-- Loops over a range of indices that collect a list.
use Prim.Native.Nat.{ℕ, zero, suc, ◌+◌, ◌<◌, ◌≤◌}
use mathlib.Core.Path.{◌≡◌, subst, sym}
use mathlib.Core.Logic.{◌⊎◌, inl, inr}
use mathlib.Core.List.{List, [], ◌∷◌, ◌++◌, Memᴰ}
use mathlib.Core.List.Memᴰ
use native.Mathlib.Omega.{arith}

module _ {ℓ} {A : Type ℓ} where
  -- `k` rounds, from index `i` on.
  unfoldable pub concat_range : ℕ → ℕ → (ℕ → List A) → List A
  concat_range zero i f = []
  concat_range (suc k) i f = f i ++ concat_range k (i + 1) f

  pub mem-concat_range :
      {x : A} (k i j : ℕ) (f : ℕ → List A)
      → i ≤ j
      → j < i + k
      → Memᴰ x (f j)
      → Memᴰ x (concat_range k i f)
  unfolding concat_range
  mem-concat_range zero i j f from below m = absurd (omega arith)
  mem-concat_range {x} (suc k) i j f from below m =
      let split : (j ≡ i) ⊎ (i + 1 ≤ j) = ground arith in
      elim split [
        | inl e ↦ Memᴰ.append_left _ (subst (λ n. Memᴰ x (f n)) e m)
        | inr later ↦ Memᴰ.append_right (f i) (mem-concat_range k (i + 1) j f later (omega arith) m)
      ]

  pub mem_of-concat_range :
      {x : A} (k i : ℕ) (f : ℕ → List A)
      → Memᴰ x (concat_range k i f)
      → (j : ℕ) × (i ≤ j) × (j < i + k) × Memᴰ x (f j)
  unfolding concat_range
  mem_of-concat_range zero i f m = absurd (Memᴰ.not-nil m)
  mem_of-concat_range (suc k) i f m = elim (Memᴰ.append_cases (f i) m) [
    | inl here ↦ (i, omega arith, omega arith, here)
    | inr later ↦
        let (j, from, below, there) = mem_of-concat_range k (i + 1) f later in
        (j, omega arith, omega arith, there)
  ]

  -- A list whose keys ascend from `lo` on, below `hi`.
  abbrev pub Ascending : (A → ℕ) → ℕ → ℕ → List A → Type 0
  Ascending key lo hi [] = lo ≤ hi
  Ascending key lo hi (x ∷ xs) = (lo ≤ key x) × Ascending key (key x + 1) hi xs

  Ascending-weaken :
      (key : A → ℕ) (lo lo' hi : ℕ) (xs : List A)
      → lo ≤ lo'
      → Ascending key lo' hi xs
      → Ascending key lo hi xs
  Ascending-weaken key lo lo' hi [] h a = omega arith
  Ascending-weaken key lo lo' hi (x ∷ xs) h a = (omega (arith, a.0), a.1)

  pub Ascending-append :
      (key : A → ℕ) (lo mid hi : ℕ) (xs ys : List A)
      → Ascending key lo mid xs
      → Ascending key mid hi ys
      → Ascending key lo hi (xs ++ ys)
  Ascending-append key lo mid hi [] ys a b = Ascending-weaken key lo mid hi ys a b
  Ascending-append key lo mid hi (x ∷ xs) ys a b =
      (a.0, Ascending-append key (key x + 1) mid hi xs ys a.1 b)

  -- Rounds whose keys lie between the marks `g`.
  pub Ascending-concat_range :
      (key : A → ℕ) (g : ℕ → ℕ) (k i : ℕ) (f : ℕ → List A)
      → ((j : ℕ) → i ≤ j → j < i + k → Ascending key (g j) (g (j + 1)) (f j))
      → Ascending key (g i) (g (i + k)) (concat_range k i f)
  unfolding concat_range
  Ascending-concat_range key g zero i f all =
      let same : i ≡ i + 0 = omega arith in subst (λ n. g i ≤ g n) same (omega arith)
  Ascending-concat_range key g (suc k) i f all =
      let rest : Ascending key (g (i + 1)) (g (i + 1 + k)) (concat_range k (i + 1) f) =
        Ascending-concat_range key g k (i + 1) f (λ j h h'. all j (omega arith) (omega arith)) in
      let same : i + 1 + k ≡ i + suc k = omega arith in
      Ascending-append key (g i) (g (i + 1)) (g (i + suc k)) (f i) (concat_range k (i + 1) f)
        (all i (omega arith) (omega arith))
        (subst (λ n. Ascending key (g (i + 1)) (g n) (concat_range k (i + 1) f)) same rest)

  pub Ascending-loop :
      (key : A → ℕ) (g : ℕ → ℕ) (lo hi k : ℕ) (f : ℕ → List A)
      → g 0 ≡ lo
      → g k ≡ hi
      → ((j : ℕ) → j < k → Ascending key (g j) (g (j + 1)) (f j))
      → Ascending key lo hi (concat_range k 0 f)
  Ascending-loop key g lo hi k f first last all =
      let same : 0 + k ≡ k = omega arith in
      subst (λ n. Ascending key n hi (concat_range k 0 f)) first
        (subst (λ n. Ascending key (g 0) n (concat_range k 0 f)) last
          (subst (λ n. Ascending key (g 0) (g n) (concat_range k 0 f)) same
            (Ascending-concat_range key g k 0 f (λ j h h'. all j (omega arith)))))

  pub le_of-Ascending :
      {x : A} (key : A → ℕ) (lo hi : ℕ) (xs : List A)
      → Ascending key lo hi xs
      → Memᴰ x xs
      → lo ≤ key x
  le_of-Ascending {x = x} key lo hi [] a m = elim m [ ]
  le_of-Ascending {x = x} key lo hi (y ∷ ys) a (Memᴰ.head e) = subst (λ z. lo ≤ key z) (sym e) a.0
  le_of-Ascending {x = x} key lo hi (y ∷ ys) a (Memᴰ.tail m) =
      omega (arith, a.0, le_of-Ascending {x = x} key (key y + 1) hi ys a.1 m)
