-- ===== src/Tests/Tables.antt =====
-- kernel/arch/arm64/mmu.c and the printing of kernel/arch/arm64/cpu.c, with static tables and pages at
-- addresses of their own.
use lettuce_os.Base.{
  ℕ, ◌+◌, ◌-◌, ◌*◌, ◌^◌, ◌≤◌, ◌≡◌, ◌≢◌, ◌⊎◌, refl, arith, Table, List, [], ◌∷◌, ◌++◌, fill, length,
}
use lettuce_os.Arch.Console.{
  print_dec, print_hex, collect, drain, putc, enough, puts, put_text, put_nibbles, hex_digit,
}
use lettuce_os.Arch.Console.Hexadecimal.{print_hex_lem, hexadecimal}
use lettuce_os.Arch.Console.Numbers.{print_dec_lem, decimal}
use lettuce_os.Arch.Mmu.Tables.{
  Layout, Tables, init_tables, init_domain_tables, init_l2_device, table_descriptor,
  page_descriptor,
}
use lettuce_os.Arch.Mmu.Tables.Isolation.{
  IsAddressable, IsSeparate, page_number, IsClosed, access_of, no_execute, no_privileged_execute,
  non_global, frame_of, init_tables_isolated, init_tables_lem,
}

abbrev layout : Layout
layout = record {
  l2_device = 0x40100000;
  l2 = λ k. 0x40110000 + k * 0x1000;
  l3 = λ k. 0x40120000 + k * 0x1000;
  private_page = λ k. 0x40130000 + k * 0x2000;
  stack_page = λ k. 0x40131000 + k * 0x2000;
  shared_buffer_page = 0x400f1000;
  ro_test_page = 0x400f2000;
  el0_service_code_start = 0x400f3000;
}

abbrev old : Table Tables
old k = record { l1 = λ i. 9; l2 = λ i. 9; l3 = λ i. 9 }

layout-IsAddressable : IsAddressable layout
layout-IsAddressable = record {
  private_lt = λ k h. ground arith;
  stack_lt = λ k h. omega arith;
  shared_lt = omega arith;
  ro_lt = omega arith;
  code_lt = omega arith;
}

layout-IsSeparate : IsSeparate layout
layout-IsSeparate = record {
  private_ne = λ j k hj hk ne. ground arith;
  stack_ne = λ j k hj hk ne. omega arith;
  private-stack_ne = λ j k hj hk. ground arith;
  private-code_ne = λ j h. ground arith;
  stack-code_ne = λ j h. omega arith;
  private-test_ne = λ j h. ground arith;
  stack-test_ne = λ j h. omega arith;
}

-- Domain A's private page and its read-only page, and what domain B has at the same addresses
entries :
    ((init_tables layout old 0).l3 0 ≡ 0x0040000041000f43)
    × ((init_tables layout old 1).l3 0 ≡ 0)
    × (access_of ((init_tables layout old 0).l3 480) ≡ 3)
    × ((init_tables layout old 1).l3 480 ≡ 0)
unfolding init_tables init_domain_tables page_descriptor fill
entries = (refl, refl, refl, refl)

init_tables_isolated_example :
    let e = (init_tables layout old 0).l3 0 in
    let f = (init_tables layout old 1).l3 256 in
    (e ≡ 0)
    ⊎ (f ≡ 0)
    ⊎ (page_number e ≢ page_number f)
    ⊎ (page_number e ≡ frame_of layout.shared_buffer_page)
    ⊎ ((page_number e ≡ frame_of layout.el0_service_code_start)
        × (access_of e ≡ 3)
        × (access_of f ≡ 3))
init_tables_isolated_example =
    init_tables_isolated layout old 0 1 0 256 layout-IsAddressable layout-IsSeparate (omega arith)
      (omega arith) (omega arith) (omega arith) (omega arith)

init_tables_lem_example :
    let d = init_tables layout old 2 in
    let e = d.l3 384 in
    let dev = init_l2_device (λ i. 9) 384 in
    ((d.l1 384 ≡ 0)
      ⊎ (d.l1 384 ≡ table_descriptor layout.l2_device)
      ⊎ (d.l1 384 ≡ table_descriptor (layout.l2 2)))
    × ((d.l2 384 ≡ 0) ⊎ IsClosed (d.l2 384) ⊎ (d.l2 384 ≡ table_descriptor (layout.l3 2)))
    × ((dev ≡ 0) ⊎ (IsClosed dev × (no_privileged_execute dev ≡ 1)))
    × ((e ≡ 0)
        ⊎ ((non_global e ≡ 1)
            × (((access_of e ≡ 3) × ((no_execute e ≡ 1) ⊎ (no_privileged_execute e ≡ 1)))
                ⊎ ((access_of e ≡ 1) × (no_execute e ≡ 1)))))
init_tables_lem_example =
    init_tables_lem layout old (λ i. 9) 2 384 layout-IsAddressable (omega arith) (omega arith)

-- "0x00000000000000ff"
printed_hex :
    print_hex [] 255
    ≡ 48 ∷ 120 ∷ 48 ∷ 48 ∷ 48 ∷ 48 ∷ 48 ∷ 48 ∷ 48 ∷ 48 ∷ 48 ∷ 48 ∷ 48 ∷ 48 ∷ 48 ∷ 48 ∷ 102 ∷ 102
      ∷ []
unfolding print_hex puts put_text put_nibbles putc hex_digit
printed_hex = refl

-- "4096", after a line feed
printed_dec : print_dec (10 ∷ []) (λ i. 7) 4096 ≡ 10 ∷ 52 ∷ 48 ∷ 57 ∷ 54 ∷ []
unfolding print_dec collect drain putc
printed_dec = refl

print_dec_lem_example :
    (cs : List ℕ) × (print_dec [] (λ i. 7) (2 ^ 64 - 1) ≡ [] ++ cs)
    × (length cs ≤ 20)
    × (decimal cs ≡ 2 ^ 64 - 1)
    × ((collect enough (λ i. 7) 0 (2 ^ 64 - 1)).1 ≤ 20)
    × (collect (enough + 4) (λ i. 7) 0 (2 ^ 64 - 1) ≡ collect enough (λ i. 7) 0 (2 ^ 64 - 1))
print_dec_lem_example = print_dec_lem [] (λ i. 7) (2 ^ 64 - 1) 4 (omega arith)

print_hex_lem_example :
    (cs : List ℕ) × (print_hex [] (2 ^ 64 - 1) ≡ [] ++ (48 ∷ 120 ∷ cs))
    × (length cs ≡ 16)
    × (hexadecimal cs ≡ 2 ^ 64 - 1)
print_hex_lem_example = print_hex_lem [] (2 ^ 64 - 1) (omega arith)
