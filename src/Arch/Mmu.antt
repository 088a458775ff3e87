-- ===== src/Arch/Mmu.antt =====
-- kernel/arch/arm64/mmu.c: the protection domains, and which one the translation root stands for. The
-- barriers and the invalidations of the translation cache have no effect on this state; Setup has the
-- latter.
pub mod Domains
pub mod Setup
pub mod Tables
use lettuce_os.Base.{
  ℕ, ◌+◌, ◌*◌, ◌/◌, ◌%◌, ◌^◌, Bool, true, false, Option, none, some, Table, update, fill, ◌==◌,
  ◌||◌, if◌then◌else◌,
}
use lettuce_os.Abi.{domain_id_invalid}

abbrev pub domain_a : ℕ
domain_a = 100

abbrev pub domain_b : ℕ
domain_b = 200

abbrev pub domain_c : ℕ
domain_c = 300

abbrev pub domain_a_stack_top : ℕ
domain_a_stack_top = 0x41002000

abbrev pub domain_b_stack_top : ℕ
domain_b_stack_top = 0x41102000

abbrev pub domain_c_stack_top : ℕ
domain_c_stack_top = 0x41182000

-- The fields of `LettuceArchDomain` that are read after boot; the others are the arguments with
-- which `lettuce_mmu_init` builds the tables.
pub record ArchDomain : Type 0 where
  pub ttbr0_val : ℕ
  pub l1_root : ℕ
  pub asid : ℕ

-- The expected-fault and trap-observation state
pub record Faults : Type 0 where
  pub expecting_fault : Bool
  pub fault_observed : Bool
  pub expected_far : ℕ
  pub last_fault_far : ℕ
  pub last_fault_esr : ℕ
  pub last_fault_elr : ℕ
  pub expecting_sysreg_trap : Bool
  pub sysreg_trap_observed : Bool

-- `arch_domains`, `current_domain`, the fault state, and the register TTBR0
pub record Mmu : Type 0 where
  pub domains : Table ArchDomain
  pub current_domain : ℕ
  pub ttbr0 : ℕ
  pub faults : Faults

unfoldable pub domain_stack_top : ℕ → ℕ
domain_stack_top domain =
    if domain == domain_a
    then domain_a_stack_top
    else if domain == domain_b
    then domain_b_stack_top
    else if domain == domain_c
    then domain_c_stack_top
    else 0

-- `arch_domain_lookup`: the index into `arch_domains`
unfoldable pub lookup : ℕ → Option ℕ
lookup id =
    if id == domain_a
    then some 0
    else if id == domain_b
    then some 1
    else if id == domain_c
    then some 2
    else none

unfoldable pub domain_ttbr0_val : Mmu → ℕ → ℕ
domain_ttbr0_val m domain = elim (lookup domain) [ none ↦ 0 | some i ↦ (m.domains i).ttbr0_val ]

-- `(asid << 48) | (l1_root & 0x0000FFFFFFFFF000)`: the two do not overlap.
unfoldable pub root_value : ArchDomain → ℕ
root_value d = d.asid * 2 ^ 48 + d.l1_root % 2 ^ 48 / 2 ^ 12 * 2 ^ 12

-- The part of `lettuce_mmu_init` that fills in the roots and installs domain A's
unfoldable pub init_roots : Mmu → Mmu
unfolding root_value
init_roots m =
    let domains = fill 3 (λ i d. record d { ttbr0_val = root_value d }) m.domains in
    record m { domains = domains; ttbr0 = (domains 0).ttbr0_val; current_domain = domain_a }

-- `lettuce_mmu_enter`: the previous domain, and the state
unfoldable pub enter : Mmu → ℕ → ℕ × Mmu
enter m domain =
    if domain == m.current_domain || domain == domain_id_invalid
    then (m.current_domain, m)
    else elim (lookup domain) [
      | none ↦ (m.current_domain, m)
      | some i ↦
          (m.current_domain, record m { ttbr0 = (m.domains i).ttbr0_val; current_domain = domain })
    ]

unfoldable pub leave : Mmu → ℕ → Mmu
leave m previous_domain = (enter m previous_domain).1

unfoldable pub set_current_domain : Mmu → ℕ → Mmu
set_current_domain m domain = record m { current_domain = domain }

-- `lettuce_mmu_active_asid`
unfoldable pub active_asid : Mmu → ℕ
active_asid m = m.ttbr0 / 2 ^ 48 % 2 ^ 16

unfoldable pub expect_fault : Faults → ℕ → Faults
expect_fault f expected_far = record f {
  expecting_fault = true;
  fault_observed = false;
  expected_far = expected_far;
  last_fault_far = 0;
  last_fault_esr = 0;
  last_fault_elr = 0;
}

unfoldable pub expect_data_abort : Faults → Faults
expect_data_abort f = expect_fault f 0

unfoldable pub handle_expected_data_abort : Faults → Bool × Faults
handle_expected_data_abort f =
    if f.expecting_fault
    then (true, record f { expecting_fault = false; fault_observed = true })
    else (false, f)

unfoldable pub handle_fault : Faults → ℕ → ℕ → ℕ → Bool × Faults
handle_fault f esr far elr =
    let f' = record f { last_fault_esr = esr; last_fault_far = far; last_fault_elr = elr } in
    if f.expecting_fault
    then (true, record f' { expecting_fault = false; fault_observed = true })
    else (false, f')

unfoldable pub expect_sysreg_trap : Faults → Faults
expect_sysreg_trap f = record f { expecting_sysreg_trap = true; sysreg_trap_observed = false }

unfoldable pub handle_sysreg_trap : Faults → ℕ → ℕ → Bool × Faults
handle_sysreg_trap f esr elr =
    let f' = record f { last_fault_esr = esr; last_fault_elr = elr } in
    if f.expecting_sysreg_trap
    then (true, record f' { expecting_sysreg_trap = false; sysreg_trap_observed = true })
    else (false, f')
