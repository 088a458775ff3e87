-- ===== src/Kernel/Protection/Agrees.antt =====
-- kernel/main/protection.c: the two builds of the protection domain agree.
use lettuce_os.Base.{ℕ, ◌≡◌, ◌≢◌, ◌⊎◌, refl, sym, ap, ◌∙◌, none, arith, if◌then◌else◌, ◌/=◌}
use lettuce_os.Arch.Mmu
use lettuce_os.Arch.Mmu.{Mmu, lookup}
use lettuce_os.Arch.Mmu.Domains.{IsValid, enter-IsValid, enter_leave_lem, enter-Enters}
use lettuce_os.Kernel.Context
use lettuce_os.Kernel.Context.{Context}
use lettuce_os.Kernel.Protection.{
  State, context_enter, context_leave, protection_enter, protection_leave,
  protection_current_domain,
}

-- The two builds are in the same context.
abbrev pub Same : State → Context → Type 0
unfolding protection_current_domain
Same s c = (s.service_id ≡ c.service_id) × (protection_current_domain s.mmu ≡ c.domain_id)

enter-current :
    (m : Mmu) (domain : ℕ)
    → (lookup domain ≢ none) ⊎ (domain ≡ 0)
    → (Mmu.enter m domain).1.current_domain ≡ (if domain /= 0 then domain else m.current_domain)
unfolding Mmu.enter lookup
enter-current m domain h = ground (arith, h)

-- From the same context, entering a service in one of the three protection domains, or in none, gives
-- the same saved context and leads to the same context in the ARM64 build as in the build without an
-- MMU; and leaving by the saved context brings both back to where they were, with the page tables'
-- state exactly as it was.
pub context_enter-context_leave :
    (s : State) (c : Context) (service domain : ℕ)
    → IsValid s.mmu
    → Same s c
    → (lookup domain ≢ none) ⊎ (domain ≡ 0)
    → let (saved, inside) = context_enter s service domain in
      let (saved', inside') = Context.context_enter c service domain in
      (saved ≡ saved')
      × Same inside inside'
      × IsValid inside.mmu
      × (context_leave inside saved ≡ s)
      × (Context.context_leave inside' saved' ≡ c)
unfolding context_enter context_leave protection_enter protection_leave protection_current_domain
    Context.context_enter Context.context_leave
context_enter-context_leave s c service domain v (who, place) known =
    let inside = (Mmu.enter s.mmu domain).1 in
    let back : Mmu.leave inside s.mmu.current_domain ≡ s.mmu =
      ap (Mmu.leave inside) (sym (enter-Enters s.mmu domain v).0)
      ∙ (enter_leave_lem s.mmu domain v).0 in
    (
      ground (arith, who, place),
      (refl, enter-current s.mmu domain known ∙ ground (arith, place)),
      enter-IsValid s.mmu domain v,
      ap (λ w. record { service_id = s.service_id; mmu = w }) back,
      ground arith,
    )
