-- ===== src/Kernel/Context.antt =====
-- kernel/main/context.c and kernel/main/protection.c (the build without an MMU): who runs, and in
-- which protection domain.
use lettuce_os.Base.{ℕ, ◌/=◌, if◌then◌else◌}
use lettuce_os.Abi.{domain_id_invalid}

-- `g_current_service_id` and `g_current_domain`; `LettuceExecutionContext` holds the same two.
pub record Context : Type 0 where
  pub service_id : ℕ
  pub domain_id : ℕ

unfoldable pub set_current_service_id : Context → ℕ → Context
set_current_service_id c service_id = record c { service_id = service_id }

unfoldable pub protection_enter : Context → ℕ → ℕ × Context
protection_enter c target_domain =
    let domain = if target_domain /= domain_id_invalid then target_domain else c.domain_id in
    (c.domain_id, record c { domain_id = domain })

unfoldable pub protection_leave : Context → ℕ → Context
protection_leave c previous_domain = record c { domain_id = previous_domain }

-- The saved context beside the new one
unfoldable pub context_enter : Context → ℕ → ℕ → Context × Context
unfolding set_current_service_id protection_enter
context_enter c target_service_id target_domain_id =
    let previous : Context = record { service_id = c.service_id; domain_id = c.domain_id } in
    let c' = set_current_service_id c target_service_id in
    (previous, (protection_enter c' target_domain_id).1)

unfoldable pub context_leave : Context → Context → Context
unfolding set_current_service_id protection_leave
context_leave c previous =
    set_current_service_id (protection_leave c previous.domain_id) previous.service_id
