-- ===== src/Arch/Mmu/Domains.antt =====
-- kernel/arch/arm64/mmu.c: the root register follows the current domain.
use lettuce_os.Base.{
  ℕ, ◌*◌, ◌/◌, ◌%◌, ◌^◌, ◌<◌, ◌≡◌, ◌≢◌, ◌⊎◌, inl, inr, none, arith, fill_lem, Option-cases,
}
use lettuce_os.Arch.Mmu.{Mmu, lookup, domain_ttbr0_val, enter, leave, init_roots, root_value}

-- The current domain is one of the three, and the root register holds its root.
pub record IsValid (m : Mmu) : Type 0 where
  pub known : lookup m.current_domain ≢ none
  pub root : m.ttbr0 ≡ domain_ttbr0_val m m.current_domain

lookup-ne_zero : (d : ℕ) → lookup d ≢ none → d ≢ 0
unfolding lookup
lookup-ne_zero d h = ground arith

pub enter-IsValid : (m : Mmu) (domain : ℕ) → IsValid m → IsValid (enter m domain).1
unfolding enter domain_ttbr0_val
enter-IsValid m domain v = record { known = ground (arith, v.known); root = ground (arith, v.root) }

-- What entering a domain leaves: the state as it was, for a domain that is not known; or the domain
-- as the current one, with its root.
abbrev pub Enters : Mmu → ℕ → Mmu → Type 0
Enters m domain inside =
    ((lookup domain ≡ none) × (inside ≡ m))
    ⊎ ((lookup domain ≢ none)
        × (inside ≡ record m { current_domain = domain; ttbr0 = domain_ttbr0_val m domain }))

pub enter-Enters :
    (m : Mmu) (domain : ℕ)
    → IsValid m
    → ((enter m domain).0 ≡ m.current_domain) × Enters m domain (enter m domain).1
unfolding enter domain_ttbr0_val
enter-Enters m domain v = (
  ground arith,
  elim (Option-cases (lookup domain)) [
    | inl unknown ↦ inl (unknown, ground arith)
    | inr (i, found) ↦
        inr (ground arith, ground (arith, lookup-ne_zero domain (ground arith), v.root))
  ],
)

-- From a state whose root register holds the current domain's root, `lettuce_mmu_enter` makes the
-- domain current and installs its root, or, for a domain that is not known, does nothing; and
-- `lettuce_mmu_leave` of the domain that it returned brings the first state back.
pub enter_leave_lem :
    (m : Mmu) (domain : ℕ)
    → IsValid m
    → let (previous, inside) = enter m domain in
      (leave inside previous ≡ m) × Enters m domain inside
unfolding leave
enter_leave_lem m domain v = (back, (enter-Enters m domain v).1)
  where
    back : leave (enter m domain).1 (enter m domain).0 ≡ m
    back =
        let ne = lookup-ne_zero m.current_domain v.known in
        unfold enter domain_ttbr0_val in ground (arith, v.root, v.known)

-- After boot, domain A is current, and the root
-- that each domain will install carries its own address-space number over the address of its table.
pub init_roots_lem :
    (m : Mmu)
    → IsValid (init_roots m)
      × ((i : ℕ)
          → i < 3
          → (((init_roots m).domains i).ttbr0_val / 2 ^ 48 ≡ (m.domains i).asid)
            × (((init_roots m).domains i).ttbr0_val % 2 ^ 48
                ≡ (m.domains i).l1_root % 2 ^ 48 / 2 ^ 12 * 2 ^ 12))
unfolding init_roots domain_ttbr0_val root_value lookup
init_roots_lem m = (
  record { known = ground arith; root = ground arith },
  λ i h. (
    ground (arith, fill_lem 3 (λ k d. record d { ttbr0_val = root_value d }) m.domains i),
    ground (arith, fill_lem 3 (λ k d. record d { ttbr0_val = root_value d }) m.domains i),
  ),
)

-- The root register holds the current domain's root, which is 0 for a domain that is not known.
abbrev pub Follows : Mmu → Type 0
Follows m = m.ttbr0 ≡ domain_ttbr0_val m m.current_domain

pub enter-Follows : (m : Mmu) (domain : ℕ) → Follows m → Follows (enter m domain).1
unfolding enter domain_ttbr0_val
enter-Follows m domain v = ground arith

-- Leaving for a domain that is known makes it current, with its root.
pub leave_lem :
    (m : Mmu) (domain : ℕ)
    → Follows m
    → lookup domain ≢ none
    → leave m domain ≡ record m { current_domain = domain; ttbr0 = domain_ttbr0_val m domain }
unfolding leave enter domain_ttbr0_val
leave_lem m domain v known = ground (arith, lookup-ne_zero domain known)
