-- ===== src/Elf/Arguments.antt =====
-- source/Elf.cpp: what a program finds on its stack.
use flix.Base.{
  ℕ, zero, suc, ◌+◌, ◌-◌, ◌*◌, ◌<◌, ◌≤◌, ◌≡◌, ◌⊎◌, inl, inr, refl, ◌∙◌, ap, List, [], ◌∷◌, ◌++◌,
  arith, length, get_or, length-append,
}
use mathlib.Core.Path.{subst}
use flix.Elf.{
  copy_bytes, word, store_word, push_strings, store_addresses, push_arguments, stack_base,
  stack_top,
}
use flix.Elf.Bytes.{HasBytes, Outside, copy_bytes-Outside, copy_bytes-HasBytes, HasBytes-congr}

-- A string with its terminating zero.
abbrev pub terminated : List ℕ → List ℕ
terminated s = s ++ (0 ∷ [])

-- The strings of a list stand at the addresses of another, between `lo` and `hi`.
abbrev pub Placed : (ℕ → ℕ) → ℕ → ℕ → List ℕ → List (List ℕ) → Type 0
Placed bytes lo hi [] [] = Unit
Placed bytes lo hi [] (s ∷ ss) = ⊥
Placed bytes lo hi (a ∷ rest) [] = ⊥
Placed bytes lo hi (a ∷ rest) (s ∷ ss) =
    (lo ≤ a)
    × (a + (length s + 1) ≤ hi)
    × HasBytes bytes a (terminated s)
    × Placed bytes lo hi rest ss

length-terminated : (s : List ℕ) → length (terminated s) ≡ length s + 1
length-terminated s = length-append s (0 ∷ [])

Placed-congr :
    (bytes bytes' : ℕ → ℕ) (lo hi hi' : ℕ) (address : List ℕ) (args : List (List ℕ))
    → hi ≤ hi'
    → ((a : ℕ) → lo ≤ a → a < hi → bytes' a ≡ bytes a)
    → Placed bytes lo hi address args
    → Placed bytes' lo hi' address args
Placed-congr bytes bytes' lo hi hi' [] [] h same p = tt
Placed-congr bytes bytes' lo hi hi' [] (s ∷ ss) h same p = absurd p
Placed-congr bytes bytes' lo hi hi' (a ∷ rest) [] h same p = absurd p
Placed-congr bytes bytes' lo hi hi' (a ∷ rest) (s ∷ ss) h same p =
    let (low, high, here, more) = p in
    let size = length-terminated s in
    (
      low,
      omega arith,
      HasBytes-congr bytes bytes' a (terminated s)
          (λ b from below. same b (omega arith) (omega arith)) here,
      Placed-congr bytes bytes' lo hi hi' rest ss h same more,
    )

unfoldable pub total_size : List (List ℕ) → ℕ
total_size [] = 0
total_size (s ∷ ss) = length s + 1 + total_size ss

-- What the first loop leaves.
record Pushed (args : List (List ℕ)) (cur_pos : ℕ) (bytes : ℕ → ℕ) (address : List ℕ) (last : ℕ)
    (bytes' : ℕ → ℕ) : Type 0 where
  size : last + total_size args ≡ cur_pos
  count : length address ≡ length args
  placed : Placed bytes' last cur_pos address args
  frame : (a : ℕ) → (a < last ⊎ (cur_pos ≤ a)) → bytes' a ≡ bytes a

push_strings-Pushed :
    (args : List (List ℕ)) (cur_pos : ℕ) (bytes : ℕ → ℕ)
    → total_size args ≤ cur_pos
    → let r = push_strings args cur_pos bytes in Pushed args cur_pos bytes r.0 r.1 r.2
unfolding push_strings total_size
push_strings-Pushed [] cur_pos bytes h = record {
  size = omega arith;
  count = refl;
  placed = tt;
  frame = λ a away. refl;
}
push_strings-Pushed (arg ∷ args) cur_pos bytes h =
    let pos = cur_pos - (length arg + 1) in
    let bytes₁ = copy_bytes pos (terminated arg) bytes in
    let (address, last, bytes') = push_strings args pos bytes₁ in
    let r : Pushed args pos bytes₁ address last bytes' =
      push_strings-Pushed args pos bytes₁ (omega arith) in
    let size = r.size in
    let long = length-terminated arg in
    record {
      size = omega arith;
      count = ap suc r.count;
      placed = (
        omega arith,
        omega arith,
        HasBytes-congr bytes₁ bytes' pos (terminated arg) (λ a from below. r.frame a (inr from))
            (copy_bytes-HasBytes pos (terminated arg) bytes),
        Placed-congr bytes' bytes' last pos cur_pos address args (omega arith)
            (λ a from below. refl) r.placed,
      );
      frame = λ a away. elim away [
        | inl before ↦
            r.frame a (inl before)
            ∙ copy_bytes-Outside pos (terminated arg) bytes a (inl (omega arith))
        | inr behind ↦
            r.frame a (inr (omega arith))
            ∙ copy_bytes-Outside pos (terminated arg) bytes a (inr (omega arith))
      ];
    }

-- The second loop: words in a row.
record Stored (start : ℕ) (address : List ℕ) (bytes bytes' : ℕ → ℕ) : Type 0 where
  words : (i : ℕ) → i < length address → HasBytes bytes' (start + 8 * i) (word (get_or address i 0))
  frame : (a : ℕ) → Outside start (8 * length address) a → bytes' a ≡ bytes a

store_addresses-Stored :
    (start : ℕ) (address : List ℕ) (bytes : ℕ → ℕ)
    → Stored start address bytes (store_addresses start address bytes)
unfolding store_addresses
store_addresses-Stored start [] bytes = record {
  words = λ i less. absurd (omega arith);
  frame = λ a away. refl;
}
store_addresses-Stored start (x ∷ address) bytes =
    let bytes₁ = store_word start x bytes in
    let r = store_addresses-Stored (start + 8) address bytes₁ in
    record {
      words = elim [
        | zero ↦ λ _.
            subst (λ n. HasBytes (store_addresses (start + 8) address bytes₁) n (word x))
              (omega arith)
              (HasBytes-congr bytes₁ (store_addresses (start + 8) address bytes₁) start (word x)
                (λ a from below. r.frame a (inl (omega arith)))
                (copy_bytes-HasBytes start (word x) bytes))
        | suc i ↦ λ less.
            subst
              (λ n.
                HasBytes (store_addresses (start + 8) address bytes₁) n (word (get_or address i 0)))
              (omega arith) (r.words i (omega arith))
      ];
      frame = λ a away. elim away [
        | inl before ↦
            r.frame a (inl (omega arith)) ∙ copy_bytes-Outside start (word x) bytes a (inl before)
        | inr behind ↦
            r.frame a (inr (omega arith))
            ∙ copy_bytes-Outside start (word x) bytes a (inr (omega arith))
      ];
    }

-- The stack that `main` is given: the number of arguments, their addresses, a null pointer, and the strings.
pub record HoldsArguments (args : List (List ℕ)) (rsp : ℕ) (bytes : ℕ → ℕ) (address : List ℕ)
    : Type 0 where
  pub argc : HasBytes bytes rsp (word (length args))
  pub pointers :
      (i : ℕ) → i < length args → HasBytes bytes (rsp + 8 + 8 * i) (word (get_or address i 0))
  pub null : HasBytes bytes (rsp + 8 + 8 * length args) (word 0)
  pub strings : Placed bytes (rsp + 16 + 8 * length args) stack_top address args

-- If the strings of the arguments, each with its zero, and a word for each and two more fit the 16
-- KB of the stack: at the stack pointer is the number of arguments, above it their addresses in
-- order and a null pointer, and at each address, above those, is the argument's string with its
-- zero. The stack pointer lies in the stack, and memory outside the stack is as before.
pub push_arguments-HoldsArguments :
    (args : List (List ℕ)) (bytes : ℕ → ℕ)
    → total_size args + 8 * length args + 16 ≤ stack_top - stack_base
    → (address : List ℕ) × HoldsArguments args
        (push_arguments args bytes).0
        (push_arguments args bytes).1
        address
      × (stack_base ≤ (push_arguments args bytes).0)
      × ((a : ℕ) → (a < stack_base ⊎ (stack_top ≤ a)) → (push_arguments args bytes).1 a ≡ bytes a)
unfolding push_arguments
push_arguments-HoldsArguments args bytes fits =
    let (address, last, bytes₁) = push_strings args stack_top bytes in
    let p : Pushed args stack_top bytes address last bytes₁ =
      push_strings-Pushed args stack_top bytes (omega arith) in
    let n = length address in
    let size = p.size in
    let count = p.count in
    let start = last - 8 - 8 * n in
    let bytes₂ = store_word (last - 8) 0 bytes₁ in
    let bytes₃ = store_addresses start address bytes₂ in
    let w : Stored start address bytes₂ bytes₃ = store_addresses-Stored start address bytes₂ in
    let bytes₄ = store_word (start - 8) n bytes₃ in
    let rsp = start - 8 in
    let last_frame : (a : ℕ) → start ≤ a → bytes₄ a ≡ bytes₃ a =
      λ a from. copy_bytes-Outside rsp (word n) bytes₃ a (inr (omega arith)) in
    let strings_frame : (a : ℕ) → last ≤ a → bytes₄ a ≡ bytes₁ a = λ a from.
      last_frame a (omega arith)
      ∙ w.frame a (inr (omega arith))
      ∙ copy_bytes-Outside (last - 8) (word 0) bytes₁ a (inr (omega arith)) in
    (
      address,
      record {
        argc =
            subst (λ k. HasBytes bytes₄ rsp (word k)) count
              (copy_bytes-HasBytes rsp (word n) bytes₃);
        pointers = λ i less.
            subst (λ k. HasBytes bytes₄ k (word (get_or address i 0))) (omega arith)
              (HasBytes-congr bytes₃ bytes₄ (start + 8 * i) (word (get_or address i 0))
                (λ a from below. last_frame a (omega arith)) (w.words i (omega arith)));
        null =
            subst (λ k. HasBytes bytes₄ k (word 0)) (omega arith)
              (HasBytes-congr bytes₂ bytes₄ (last - 8) (word 0)
                (λ a from below. last_frame a (omega arith) ∙ w.frame a (inr (omega arith)))
                (copy_bytes-HasBytes (last - 8) (word 0) bytes₁));
        strings =
            subst (λ k. Placed bytes₄ k stack_top address args) (omega arith)
              (Placed-congr bytes₁ bytes₄ last stack_top stack_top address args (omega arith)
                (λ a from below. strings_frame a from) p.placed);
      },
      omega arith,
      λ a away. elim away [
        | inl before ↦
            copy_bytes-Outside rsp (word n) bytes₃ a (inl (omega arith))
            ∙ w.frame a (inl (omega arith))
            ∙ copy_bytes-Outside (last - 8) (word 0) bytes₁ a (inl (omega arith))
            ∙ p.frame a (inl (omega arith))
        | inr behind ↦ strings_frame a (omega arith) ∙ p.frame a (inr behind)
      ],
    )
