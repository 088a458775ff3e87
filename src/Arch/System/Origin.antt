-- ===== src/Arch/System/Origin.antt =====
-- kernel/: where the authority of a call that is started comes from.
use lettuce_os.Base.{ℕ, ◌≡◌, ◌≢◌, sym, ap, subst, ◌∙◌, ◌⊎◌, inl, inr, some}
use lettuce_os.Capability
use lettuce_os.Capability.Valid.{IsValid, init-IsValid}
use lettuce_os.Capability.Grants.{Grant, Allows, grant_of, check_iff}
use lettuce_os.Capability.Refine.{grant_of-init}
use lettuce_os.Capability.Provenance.{creation, grant_of-step}
use lettuce_os.Capability.Stale.{Call, step, step-IsValid}
use lettuce_os.Sched.Mechanism.{TrapFrame}
use lettuce_os.Arch.Cpu.{Pac}
use lettuce_os.Arch.Machine.{Machine, service_of}
use lettuce_os.Arch.Svc.{CallKind, message_of, svc_call}
use lettuce_os.Arch.Svc.Laws.{permission_of, svc_call-Starts}
use lettuce_os.Arch.System.{Exception, handle}
use lettuce_os.Arch.System.Sound.{handle-Leads}

-- The machines that come about after `lettuce_capability_init`, by exceptions, by calls that create and
-- revoke capabilities, and by anything else that the kernel's own code does to the other parts
pub data Evolves (pac : Pac) : Machine → Type 0 where
  inits : (m : Machine) → Evolves pac (record m { caps = Capability.init m.caps })
  handles :
      {m n : Machine} (x : Exception) → Evolves pac m → handle pac m x ≡ some n → Evolves pac n
  calls : {m : Machine} (c : Call) → Evolves pac m → Evolves pac (record m { caps = step m.caps c })
  others : {m n : Machine} → Evolves pac m → n.caps ≡ m.caps → Evolves pac n

-- On the way to the machine, since the last initialization, a capability was created with this grant.
abbrev pub Created : {pac : Pac} {m : Machine} → Evolves pac m → Grant → Type 0
Created (inits m) g = ⊥
Created (handles x r e) g = Created r g
Created (calls c r) g = (creation g ≡ c) ⊎ Created r g
Created (others r e) g = Created r g

caps-IsValid : {pac : Pac} {m : Machine} → Evolves pac m → IsValid m.caps
caps-IsValid (inits m) = (init-IsValid m.caps).0
caps-IsValid {pac} (handles {m} {n} x r e) =
    subst IsValid (sym (handle-Leads pac m n x e).caps_eq) (caps-IsValid r)
caps-IsValid (calls {m} c r) = step-IsValid m.caps c (caps-IsValid r)
caps-IsValid (others r e) = subst IsValid (sym e) (caps-IsValid r)

grant_of-Created :
    {pac : Pac} {m : Machine} (r : Evolves pac m) (h : ℕ) (g : Grant)
    → grant_of m.caps h ≡ some g
    → Created r g
grant_of-Created (inits m) h g e = (let nothing = grant_of-init m.caps h in cc (e, nothing))
grant_of-Created {pac} (handles {m} {n} x r p) h g e =
    grant_of-Created r h g (ap (λ s. grant_of s h) (sym (handle-Leads pac m n x p).caps_eq) ∙ e)
grant_of-Created (calls {m} c r) h g e = elim (grant_of-step m.caps c h g (caps-IsValid r) e) [
  | inl before ↦ inr (grant_of-Created r h g before)
  | inr now ↦ inl now
]
grant_of-Created (others r p) h g e = grant_of-Created r h g (ap (λ s. grant_of s h) (sym p) ∙ e)

-- A protected call that is let in, so that the number of saved callers changes, at any moment after the
-- capability table was initialized, goes back to a capability: the handle in x3 stands for it, it was
-- created since, its owner is the service that called, its target, operation and resource are those of
-- the call, and it carries the permissions that the kind of call needs.
pub svc_call-Created :
    {pac : Pac} {m : Machine} (r : Evolves pac m) (kind : CallKind) (f : TrapFrame)
    → (svc_call pac kind m f).0.cpu.depth ≢ m.cpu.depth
    → let msg = message_of f in
      (g : Grant) × Created r g
      × (grant_of m.caps msg.capability_handle ≡ some g)
      × Allows g
          (service_of m)
          msg.target_service_id
          msg.operation_id
          (permission_of kind)
          msg.resource_id
svc_call-Created {pac} {m} r kind f entered = elim (svc_call-Starts pac kind m f) [
  | inl (s, _, refused) ↦ absurd (entered (ap (λ o. o.0.cpu.depth) refused))
  | inr (_, _, a, _, _, _, _) ↦
      let msg = message_of f in
      let (_, (g, stands, allows)) =
        (check_iff m.caps (service_of m) msg.capability_handle msg.target_service_id
            msg.operation_id (permission_of kind) msg.resource_id).0
          a.allowed in
      (g, grant_of-Created r msg.capability_handle g stands, stands, allows)
]
