-- ===== src/Kernel/Protection.antt =====
-- kernel/main/protection.c and kernel/main/context.c in the ARM64 build, where the protection domain is
-- that of the page tables.
pub mod Agrees
use lettuce_os.Base.{ℕ}
use lettuce_os.Arch.Mmu
use lettuce_os.Arch.Mmu.{Mmu}
use lettuce_os.Kernel.Context.{Context}

unfoldable pub protection_enter : Mmu → ℕ → ℕ × Mmu
protection_enter m target_domain = Mmu.enter m target_domain

unfoldable pub protection_leave : Mmu → ℕ → Mmu
protection_leave m previous_domain = Mmu.leave m previous_domain

unfoldable pub protection_current_domain : Mmu → ℕ
protection_current_domain m = m.current_domain

-- `g_current_service_id`, and the state of the page tables
pub record State : Type 0 where
  pub service_id : ℕ
  pub mmu : Mmu

-- The saved context beside the new state
unfoldable pub context_enter : State → ℕ → ℕ → Context × State
unfolding protection_enter protection_current_domain
context_enter s target_service_id target_domain_id =
    let previous : Context = record {
      service_id = s.service_id;
      domain_id = protection_current_domain s.mmu;
    } in
    (
      previous,
      record { service_id = target_service_id; mmu = (protection_enter s.mmu target_domain_id).1 },
    )

unfoldable pub context_leave : State → Context → State
unfolding protection_leave
context_leave s previous = record {
  mmu = protection_leave s.mmu previous.domain_id;
  service_id = previous.service_id;
}
