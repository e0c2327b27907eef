-- ===== src/DescTables/Gates.antt =====
-- source/DescTables.cpp, `initIdt`: the interrupt gates as the processor reads them.
use flix.Base.{
  ℕ, ◌+◌, ◌*◌, ◌/◌, ◌%◌, ◌^◌, ◌<◌, ◌≤◌, ◌≡◌, ◌≢◌, refl, ◌∙◌, sym, ap, Bool, true, false, zero, suc,
  ◌==◌, if◌then◌else◌, arith, inl, inr, Bool-cases,
}
use flix.DescTables.{IdtEntry, no_gate, make_idt_gate, idt_rounds, init_idt}

-- A 64-bit interrupt gate: bit 15 of the flags is the presence, bits 13 and 14 the privilege from which `int` may
-- call it, bits 8 to 12 its kind, and the lowest bits the stack.
pub record IsGate (target privilege : ℕ) (e : IdtEntry) : Type 0 where
  pub address : e.target_high * 2 ^ 32 + e.target_mid * 2 ^ 16 + e.target_low ≡ target
  pub selector : e.target_selector ≡ 0x08
  pub present : e.flags / 2 ^ 15 % 2 ≡ 1
  pub privilege_level : e.flags / 2 ^ 13 % 4 ≡ privilege
  pub interrupt : e.flags / 2 ^ 8 % 2 ^ 5 ≡ 0xe
  pub stack : e.flags % 2 ^ 3 ≡ 1

make_idt_gate-IsGate :
    (offset : ℕ) (public : Bool)
    → offset < 2 ^ 64
    → IsGate offset (if public then 3 else 0) (make_idt_gate offset 0x08 public)
unfolding make_idt_gate
make_idt_gate-IsGate offset true small = record {
  address = omega arith;
  selector = refl;
  present = refl;
  privilege_level = refl;
  interrupt = refl;
  stack = refl;
}
make_idt_gate-IsGate offset false small = record {
  address = omega arith;
  selector = refl;
  present = refl;
  privilege_level = refl;
  interrupt = refl;
  stack = refl;
}

idt_rounds-before :
    (v : ℕ → ℕ) (n i : ℕ) (idt : ℕ → IdtEntry) (j : ℕ) → j < i → idt_rounds v n i idt j ≡ idt j
unfolding idt_rounds
idt_rounds-before v zero i idt j h = refl
idt_rounds-before v (suc n) i idt j h =
    let off : (j == i) ≡ false = ground arith in
    idt_rounds-before v n (i + 1) _ j (omega arith) ∙ rw off refl

idt_rounds-after :
    (v : ℕ → ℕ) (n i : ℕ) (idt : ℕ → IdtEntry) (j : ℕ) → i + n ≤ j → idt_rounds v n i idt j ≡ idt j
unfolding idt_rounds
idt_rounds-after v zero i idt j h = refl
idt_rounds-after v (suc n) i idt j h =
    let off : (j == i) ≡ false = ground arith in
    idt_rounds-after v n (i + 1) _ j (omega arith) ∙ rw off refl

idt_rounds-within :
    (v : ℕ → ℕ) (n i : ℕ) (idt : ℕ → IdtEntry) (j : ℕ)
    → i ≤ j
    → j < i + n
    → idt_rounds v n i idt j ≡ make_idt_gate (v j) 0x08 false
unfolding idt_rounds
idt_rounds-within v zero i idt j h h' = absurd (omega arith)
idt_rounds-within v (suc n) i idt j h h' = elim (Bool-cases (j == i)) [
  | inl same ↦
      let place : j ≡ i = ground arith in
      idt_rounds-before v n (i + 1) _ j (omega arith)
      ∙ rw same (ap (λ x. make_idt_gate (v x) 0x08 false) (sym place))
  | inr other ↦ idt_rounds-within v n (i + 1) _ j (ground arith) (omega arith)
]

-- The gates that are there, and the privilege that they ask for.
pub record HasGates (v : ℕ → ℕ) (idt : ℕ → IdtEntry) : Type 0 where
  pub interrupts : (j : ℕ) → j < 48 → IsGate (v j) 0 (idt j)
  pub syscall : IsGate (v 48) 3 (idt 0x80)
  pub others : (j : ℕ) → 48 ≤ j → j ≢ 0x80 → idt j ≡ no_gate

-- With the handlers at 64-bit addresses, initIdt leaves interrupt gates for the kernel alone to the
-- first 48 of them, a gate that programs may call at 0x80 to the handler 48, and no other gate, as
-- the processor decodes the entries.
pub init_idt-HasGates : (v : ℕ → ℕ) → ((j : ℕ) → j ≤ 48 → v j < 2 ^ 64) → HasGates v (init_idt v)
unfolding init_idt
init_idt-HasGates v small = record {
  interrupts = λ j h.
      let off : (j == 0x80) ≡ false = ground arith in
      let gate = idt_rounds-within v 48 0 (λ i. no_gate) j (omega arith) h in
      rw (off, gate) (make_idt_gate-IsGate (v j) false (small j (omega arith)));
  syscall = make_idt_gate-IsGate (v 48) true (small 48 (omega arith));
  others = λ j h ne.
      let off : (j == 0x80) ≡ false = ground arith in
      rw off (idt_rounds-after v 48 0 (λ i. no_gate) j h);
}
