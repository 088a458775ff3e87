-- ===== src/Arch/System/Leads.antt =====
-- kernel/arch/arm64/cpu.c: what no exception changes, and what every exception keeps.
use lettuce_os.Base.{ℕ, ◌≤◌, ◌≡◌, refl, sym, subst, ◌∙◌, Option, arith}
use lettuce_os.Sched.State.{Sched}
use lettuce_os.Sched.Mechanism.{TrapFrame, tick, yield, sleep_current}
use lettuce_os.Sched.Mechanism.Solo.{Solo, tick-yield-sleep_current-Solo}
use lettuce_os.Sched.Mechanism.Root.{tick-kept, yield-kept, sleep_current-kept}
use lettuce_os.Posix.Fd.{Io}
use lettuce_os.Arch.System.Image.{SameImage, IsConsole}
use lettuce_os.Arch.Mmu.{Mmu, enter, domain_ttbr0_val, Faults}
use lettuce_os.Arch.Mmu.Domains.{Follows, enter-Follows}
use lettuce_os.Arch.Cpu.{Cpu, context_max}
use lettuce_os.Arch.Machine.{Machine, mmu_of, set_identity, set_faults}

-- The state is sound: the root register holds the root of the current domain, the saved callers fit
-- on their stack, and no task but the current one runs.
pub record IsSound (m : Machine) : Type 0 where
  pub follows : Follows (mmu_of m)
  pub depth_le : m.cpu.depth ≤ context_max
  pub solo : Solo m.sched

-- The machine n has the authority of m, that is, its capabilities, services and descriptors and the
-- roots of its domains; its kernel image is that of m, if the descriptors are those of the console; and
-- it is sound if m is.
pub record Leads (m n : Machine) : Type 0 where
  pub caps_eq : n.caps ≡ m.caps
  pub services_eq : n.services ≡ m.services
  pub fds_eq : n.fds ≡ m.fds
  pub domains_eq : (mmu_of n).domains ≡ (mmu_of m).domains
  pub image : IsConsole m.fds → SameImage m.io n.io
  pub sound : IsSound m → IsSound n

pub Leads-refl : (m : Machine) → Leads m m
Leads-refl m = record {
  caps_eq = refl;
  services_eq = refl;
  fds_eq = refl;
  domains_eq = refl;
  image = λ c a lo hi. refl;
  sound = λ v. v;
}

pub Leads-trans : {m n p : Machine} → Leads m n → Leads n p → Leads m p
Leads-trans a b = record {
  caps_eq = b.caps_eq ∙ a.caps_eq;
  services_eq = b.services_eq ∙ a.services_eq;
  fds_eq = b.fds_eq ∙ a.fds_eq;
  domains_eq = b.domains_eq ∙ a.domains_eq;
  image = λ c i lo hi. b.image (subst IsConsole (sym a.fds_eq) c) i lo hi ∙ a.image c i lo hi;
  sound = λ v. b.sound (a.sound v);
}

-- The scheduler's part changed
module _ (m : Machine) (s : Sched) where
  pub with_sched-Leads :
      s.mmu.domains ≡ (mmu_of m).domains
      → (Follows (mmu_of m) → Follows s.mmu)
      → (Solo m.sched → Solo s)
      → Leads m (record m { sched = s })
  with_sched-Leads same follows solo = record {
    caps_eq = refl;
    services_eq = refl;
    fds_eq = refl;
    domains_eq = same;
    image = λ c a lo hi. refl;
    sound = λ v. record { follows = follows v.follows; depth_le = v.depth_le; solo = solo v.solo };
  }

-- The translation state and the current service changed, and the stack of callers
pub identity-Leads :
    (m : Machine) (cpu : Cpu) (service : ℕ) (mmu : Mmu)
    → mmu.domains ≡ (mmu_of m).domains
    → (Follows (mmu_of m) → Follows mmu)
    → (m.cpu.depth ≤ context_max → cpu.depth ≤ context_max)
    → Leads m (set_identity (record m { cpu = cpu }) service mmu)
identity-Leads m cpu service mmu same follows depth = record {
  caps_eq = refl;
  services_eq = refl;
  fds_eq = refl;
  domains_eq = same;
  image = λ c a lo hi. refl;
  sound = λ v. record { follows = follows v.follows; depth_le = depth v.depth_le; solo = v.solo };
}

-- The state of the expected faults changed
pub faults-Leads : (m : Machine) (faults : Faults) → Leads m (set_faults m faults)
faults-Leads m faults =
    with_sched-Leads m (set_faults m faults).sched refl (λ v. unfold domain_ttbr0_val in v) (λ v. v)

pub io-Leads :
    (m : Machine) (io : Io) → (IsConsole m.fds → SameImage m.io io) → Leads m (record m { io = io })
io-Leads m io image = record {
  caps_eq = refl;
  services_eq = refl;
  fds_eq = refl;
  domains_eq = refl;
  image = image;
  sound = λ v. record { follows = v.follows; depth_le = v.depth_le; solo = v.solo };
}

enter-domains : (u : Mmu) (domain : ℕ) → (enter u domain).1.domains ≡ u.domains
unfolding enter
enter-domains u domain = ground arith

-- What a schedule keeps of the translation state u
abbrev From : Mmu → Mmu → Type 0
From u w = (w.domains ≡ u.domains) × (Follows u → Follows w)

enter-From : (u w : Mmu) (domain : ℕ) → From u w → From u (enter w domain).1
enter-From u w domain (same, follows) =
    (enter-domains w domain ∙ same, λ v. enter-Follows w domain (follows v))

pub tick-Leads :
    (m : Machine) (frame : Option TrapFrame) → Leads m (record m { sched = (tick m.sched frame).0 })
tick-Leads m frame =
    let (same, follows) =
      tick-kept (From (mmu_of m)) (enter-From (mmu_of m)) m.sched frame (refl, λ v. v) in
    with_sched-Leads m (tick m.sched frame).0 same follows
      (λ v. (tick-yield-sleep_current-Solo m.sched 0 frame v).0)

pub yield-Leads :
    (m : Machine) (frame : Option TrapFrame)
    → Leads m (record m { sched = (yield m.sched frame).0 })
yield-Leads m frame =
    let (same, follows) =
      yield-kept (From (mmu_of m)) (enter-From (mmu_of m)) m.sched frame (refl, λ v. v) in
    with_sched-Leads m (yield m.sched frame).0 same follows
      (λ v. (tick-yield-sleep_current-Solo m.sched 0 frame v).1)

pub sleep-Leads :
    (m : Machine) (ticks : ℕ) (frame : Option TrapFrame)
    → Leads m (record m { sched = (sleep_current m.sched ticks frame).0 })
sleep-Leads m ticks frame =
    let (same, follows) =
      sleep_current-kept (From (mmu_of m)) (enter-From (mmu_of m)) m.sched ticks frame
        (refl, λ v. v) in
    with_sched-Leads m (sleep_current m.sched ticks frame).0 same follows
      (λ v. (tick-yield-sleep_current-Solo m.sched ticks frame v).2)
