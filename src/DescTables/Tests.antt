-- ===== src/DescTables/Tests.antt =====
-- source/DescTables.cpp: the tables of the kernel.
use flix.Base.{ℕ, ◌+◌, ◌*◌, ◌/◌, ◌%◌, ◌<◌, ◌≡◌, refl, [], ◌∷◌, length, get_or, arith}
use flix.DescTables.{gdt_entries, tss_selector, init_idt, init_tr}
use flix.DescTables.Gates.{HasGates, init_idt-HasGates}
use flix.DescTables.Tss.{IsTss, init_tr-IsTss}

-- Handlers of 16 bytes each, at the kernel's base.
abbrev vectors : ℕ → ℕ
vectors i = 0xffffffffc0100000 + 16 * (i % 64)

init_idt-HasGates_example : HasGates vectors (init_idt vectors)
init_idt-HasGates_example = init_idt-HasGates vectors (λ j h. omega arith)

init_tr-IsTss_example :
    IsTss 0xffffffffc0123456 0x67
      (get_or (init_tr 0xffffffffc0123456 gdt_entries) (tss_selector / 8) 0)
      (get_or (init_tr 0xffffffffc0123456 gdt_entries) (tss_selector / 8 + 1) 0)
    × ((i : ℕ)
        → i < tss_selector / 8
        → get_or (init_tr 0xffffffffc0123456 gdt_entries) i 0 ≡ get_or gdt_entries i 0)
    × (length (init_tr 0xffffffffc0123456 gdt_entries) ≡ 7)
init_tr-IsTss_example = init_tr-IsTss 0xffffffffc0123456 gdt_entries (omega arith) refl

init_tr_test :
    init_tr 0xffffffffc0123456 gdt_entries
    ≡ 0 ∷ 0x0020980000000000 ∷ 0x0000920000000000 ∷ 0x0000F20000000000 ∷ 0x0020F80000000000
      ∷ 0xc000891234560067 ∷ 0xffffffff ∷ []
unfolding init_tr
init_tr_test = refl
