-- ===== src/DescTables.antt =====
-- source/DescTables.cpp: the descriptor of the task state segment, and the interrupt gates. The loading of the tables
-- into the processor is left out; `intVectors` and the address of the task state segment are parameters.
pub mod Gates
pub mod Tss
mod Tests
use flix.Base.{
  ℕ, ◌+◌, ◌*◌, ◌/◌, ◌%◌, ◌^◌, Bool, true, false, List, [], ◌∷◌, zero, suc, if◌then◌else◌, assign,
  set,
}

-- `IdtEntry`
pub record IdtEntry : Type 0 where
  pub target_low : ℕ
  pub target_selector : ℕ
  pub flags : ℕ
  pub target_mid : ℕ
  pub target_high : ℕ
  pub reserved : ℕ

abbrev pub no_gate : IdtEntry
no_gate = record {
  target_low = 0;
  target_selector = 0;
  flags = 0;
  target_mid = 0;
  target_high = 0;
  reserved = 0;
}

-- `makeIdtGate`; the two sets of flags share no bit.
unfoldable pub make_idt_gate : ℕ → ℕ → Bool → IdtEntry
make_idt_gate offset selector public = record {
  target_low = offset % 2 ^ 16;
  target_selector = selector;
  flags = if public then 0x8e01 + 0x6000 else 0x8e01;
  target_mid = offset / 2 ^ 16 % 2 ^ 16;
  target_high = offset / 2 ^ 32 % 2 ^ 32;
  reserved = 0;
}

-- The loop of `initIdt`, from gate `i` on.
unfoldable pub idt_rounds : (ℕ → ℕ) → ℕ → ℕ → (ℕ → IdtEntry) → ℕ → IdtEntry
idt_rounds int_vectors zero i idt = idt
idt_rounds int_vectors (suc n) i idt =
    idt_rounds int_vectors n (i + 1) (assign idt i (make_idt_gate (int_vectors i) 0x08 false))

unfoldable pub init_idt : (ℕ → ℕ) → ℕ → IdtEntry
init_idt int_vectors =
    let exceptions = idt_rounds int_vectors 48 0 (λ i. no_gate) in
    assign exceptions 0x80 (make_idt_gate (int_vectors 48) 0x08 true)

-- `SystemEntry`, without the bits that stay 0.
pub record SystemEntry : Type 0 where
  pub segment_limit0 : ℕ
  pub base_address0 : ℕ
  pub base_address1 : ℕ
  pub type : ℕ
  pub dpl : ℕ
  pub present : ℕ
  pub segment_limit1 : ℕ
  pub granularity : ℕ
  pub base_address2 : ℕ
  pub base_address3 : ℕ

-- `value`: the fields at their bits.
abbrev pub value_low : SystemEntry → ℕ
value_low e =
    e.segment_limit0
    + e.base_address0 * 2 ^ 16
    + e.base_address1 * 2 ^ 32
    + e.type * 2 ^ 40
    + e.dpl * 2 ^ 45
    + e.present * 2 ^ 47
    + e.segment_limit1 * 2 ^ 48
    + e.granularity * 2 ^ 55
    + e.base_address2 * 2 ^ 56

abbrev pub value_high : SystemEntry → ℕ
value_high e = e.base_address3

-- `g_gdtEntries`
abbrev pub gdt_entries : List ℕ
gdt_entries =
    0x0000000000000000 ∷ 0x0020980000000000 ∷ 0x0000920000000000 ∷ 0x0000F20000000000
    ∷ 0x0020F80000000000 ∷ 0 ∷ 0 ∷ []

-- `TSS`
abbrev pub tss_selector : ℕ
tss_selector = 0x28

abbrev pub tss_entry : ℕ → SystemEntry
tss_entry tss = record {
  segment_limit0 = 0x67;
  base_address0 = tss % 2 ^ 16;
  base_address1 = tss / 2 ^ 16 % 2 ^ 8;
  type = 0x9;
  dpl = 0;
  present = 1;
  segment_limit1 = 0;
  granularity = 0;
  base_address2 = tss / 2 ^ 24 % 2 ^ 8;
  base_address3 = tss / 2 ^ 32 % 2 ^ 32;
}

-- `initTr`
unfoldable pub init_tr : ℕ → List ℕ → List ℕ
init_tr tss gdt =
    set (set gdt (tss_selector / 8) (value_low (tss_entry tss))) (tss_selector / 8 + 1)
      (value_high (tss_entry tss))
