-- ===== src/Elf/Bytes.antt =====
-- source/Elf.cpp: bytes that are copied to memory.
use flix.Base.{
  ℕ, zero, suc, ◌+◌, ◌<◌, ◌≤◌, ◌≡◌, ◌⊎◌, inl, inr, refl, ◌∙◌, ap, List, [], ◌∷◌, assign,
  assign_self, assign_ne, arith, length, get_or,
}
use flix.Elf.{copy_bytes}

-- Memory at `start` has the bytes of a list.
pub record HasBytes (bytes : ℕ → ℕ) (start : ℕ) (bs : List ℕ) : Type 0 where
  pub at : (i : ℕ) → i < length bs → bytes (start + i) ≡ get_or bs i 0

-- An area that an address is not in.
abbrev pub Outside : ℕ → ℕ → ℕ → Type 0
Outside start size a = (a < start) ⊎ (start + size ≤ a)

pub copy_bytes-Outside :
    (start : ℕ) (bs : List ℕ) (bytes : ℕ → ℕ) (a : ℕ)
    → Outside start (length bs) a
    → copy_bytes start bs bytes a ≡ bytes a
unfolding copy_bytes
copy_bytes-Outside start [] bytes a away = refl
copy_bytes-Outside start (b ∷ bs) bytes a away =
    copy_bytes-Outside (start + 1) bs (assign bytes start b) a (later away)
    ∙ assign_ne bytes start a b (λ e. apart away e)
  where
    later : Outside start (length (b ∷ bs)) a → Outside (start + 1) (length bs) a
    later (inl before) = inl (omega arith)
    later (inr behind) = inr (omega arith)

    apart : Outside start (length (b ∷ bs)) a → a ≡ start → ⊥
    apart (inl before) e = omega arith
    apart (inr behind) e = omega arith

pub copy_bytes-HasBytes :
    (start : ℕ) (bs : List ℕ) (bytes : ℕ → ℕ) → HasBytes (copy_bytes start bs bytes) start bs
unfolding copy_bytes
copy_bytes-HasBytes start [] bytes = record { at = λ i less. absurd (omega arith) }
copy_bytes-HasBytes start (b ∷ bs) bytes = record {
  at = elim [
    | zero ↦ λ _.
        ap (copy_bytes (start + 1) bs (assign bytes start b)) (omega arith)
        ∙ copy_bytes-Outside (start + 1) bs (assign bytes start b) start (inl (omega arith))
        ∙ assign_self bytes start b
    | suc i ↦ λ less.
        ap (copy_bytes (start + 1) bs (assign bytes start b)) (omega arith)
        ∙ (copy_bytes-HasBytes (start + 1) bs (assign bytes start b)).at i (omega arith)
  ];
}

-- Memory that agrees on an area has the same bytes there.
pub HasBytes-congr :
    (bytes bytes' : ℕ → ℕ) (start : ℕ) (bs : List ℕ)
    → ((a : ℕ) → start ≤ a → a < start + length bs → bytes' a ≡ bytes a)
    → HasBytes bytes start bs
    → HasBytes bytes' start bs
HasBytes-congr bytes bytes' start bs same h = record {
  at = λ i less. same (start + i) (omega arith) (omega arith) ∙ h.at i less;
}
