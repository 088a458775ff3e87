-- ===== src/Capability/Provenance.antt =====
-- Histories of the table of kernel/main/capability.c: where grants come from.
use lettuce_os.Base.{
  ℕ, ◌≡◌, sym, ap, subst, ◌∙◌, ◌⊎◌, inl, inr, true, some, List, [], ◌∷◌, arith, ◌==◌, Bool-cases,
}
use mathlib.Core.List.{Mem, mem-cons_self, mem-cons_of_mem}
use mathlib.Core.Option.{some-injective}
use lettuce_os.Capability.{Caps, init, create, check}
use lettuce_os.Capability.Valid.{IsValid, init-IsValid}
use lettuce_os.Capability.Grants.{Grant, Allows, grant_of, check_iff}
use lettuce_os.Capability.Refine.{create_refines, revoke_refines, grant_of-init}
use lettuce_os.Capability.Stale.{Call, creates, revokes, step, run, step-IsValid}

-- The call that makes a grant
abbrev pub creation : Grant → Call
creation g = creates g.owner g.target g.operation g.permissions g.resource

-- After one call, a handle stands for what it stood for, or for what the call made.
pub grant_of-step :
    (s : Caps) (c : Call) (handle : ℕ) (g : Grant)
    → IsValid s
    → grant_of (step s c) handle ≡ some g
    → (grant_of s handle ≡ some g) ⊎ (creation g ≡ c)
unfolding step
grant_of-step s (creates owner target operation permissions resource) handle g v e =
    elim (create_refines s v owner target operation permissions resource) [
      | inl (same, _) ↦ inl (sym (ap (λ r. grant_of r.1 handle) same) ∙ e)
      | inr (new, _, _, holds) ↦
          let made = create s owner target operation permissions resource in
          elim (Bool-cases (handle == made.0)) [
            | inl same ↦
                inr (sym (ap creation (some-injective _ _ (ground (arith, same, holds handle, e)))))
            | inr other ↦ inl (ground (arith, other, holds handle, e))
          ]
    ]
grant_of-step s (revokes handle') handle g v e =
    let (_, holds) = revoke_refines s handle' in inl (ground (arith, holds handle, e))

-- Where the grant of a handle after a history comes from
run-made :
    (s : Caps) (cs : List Call) (handle : ℕ) (g : Grant)
    → IsValid s
    → grant_of (run s cs) handle ≡ some g
    → (grant_of s handle ≡ some g) ⊎ Mem (creation g) cs
unfolding run
run-made s [] handle g v e = inl e
run-made s (c ∷ cs) handle g v e = elim (run-made (step s c) cs handle g (step-IsValid s c v) e) [
  | inr later ↦ inr (mem-cons_of_mem c later)
  | inl before ↦ elim (grant_of-step s c handle g v before) [
    | inl old ↦ inl old
    | inr now ↦ inr (subst (λ x. Mem x (c ∷ cs)) (sym now) mem-cons_self)
  ]
]

-- No authority is forged: if, after an initialization and any history of `create` and `revoke` calls,
-- the check of a request says yes, then one of the calls was the creation of a capability that the
-- caller owns, for that target, operation and resource, with the permissions asked for among its own.
pub check-creation :
    (s : Caps) (cs : List Call) (caller handle target operation permission resource : ℕ)
    → check (run (init s) cs) caller handle target operation permission resource ≡ true
    → (g : Grant) × Mem (creation g) cs × Allows g caller target operation permission resource
check-creation s cs caller handle target operation permission resource said =
    let (_, (g, stands, allows)) =
      (check_iff (run (init s) cs) caller handle target operation permission resource).0 said in
    elim (run-made (init s) cs handle g (init-IsValid s).0 stands) [
      | inl before ↦ absurd (let nothing = grant_of-init s handle in cc (before, nothing))
      | inr made ↦ (g, made, allows)
    ]
