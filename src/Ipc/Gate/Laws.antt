-- ===== src/Ipc/Gate/Laws.antt =====
-- The three gates of ipc/, whatever code the services run.
use lettuce_os.Base.{
  ℕ, ◌≡◌, ◌≢◌, refl, ◌⊎◌, inl, inr, true, false, Option, none, some, arith, ◌/=◌, if◌then◌else◌,
}
use lettuce_os.Abi.{Status, ok, is_ok, invalid_target_entry}
use lettuce_os.Kernel.Context.{Context}
use lettuce_os.Ipc.State.{Kernel, Message, Resolution, Validation}
use lettuce_os.Ipc.SameLayer
use lettuce_os.Ipc.CrossLayer
use lettuce_os.Ipc.Elevator
use lettuce_os.Ipc.Gate.{
  Code, run_target, enter, mediate, same_layer_gate, cross_layer_gate, elevator_gate,
}

-- The context in which a target runs: its own identifier, and its own domain unless that is 0.
abbrev pub target_context : Context → Resolution → Context
target_context c r = record {
  service_id = r.target.id;
  domain_id = if r.target.domain /= 0 then r.target.domain else c.domain_id;
}

module _ (call : Code) (k : Kernel) where
  -- The result of one run of the code at an address, in the target's context and back in k's
  abbrev pub ran : Resolution → ℕ → Status × Kernel
  ran r code =
      let (result, k') = call code (record k { context = target_context k.context r }) in
      (result, record k' { context = k.context })

  -- What a mediated call may do after the validation v: refuse and change nothing; find no entry
  -- point and change nothing; or run the resolved code once.
  abbrev pub Mediates : Validation → Status × Kernel → Type 0
  Mediates v out =
      ((is_ok v.0 ≡ false) × (out ≡ (v.0, k)))
      ⊎ ((r : Resolution) × (v ≡ (ok, some r))
          × (((r.entry.entry ≡ none) × (out ≡ (invalid_target_entry, k)))
              ⊎ ((code : ℕ) × (r.entry.entry ≡ some code) × (out ≡ ran r code))))

  -- A status of OK comes with a resolution, so `mediate` never meets its second clause.
  same_layer_resolves :
      (m : Message)
      → is_ok (SameLayer.validate true k m).0 ≡ true
      → (SameLayer.validate true k m).1 ≢ none
  unfolding SameLayer.validate
  same_layer_resolves m h = ground arith

  cross_layer_resolves :
      (o : Option Message)
      → is_ok (CrossLayer.validate true k o).0 ≡ true
      → (CrossLayer.validate true k o).1 ≢ none
  unfolding CrossLayer.validate
  cross_layer_resolves none h = ground arith
  cross_layer_resolves (some m) h = ground arith

  elevator_resolves :
      (o : Option Message)
      → is_ok (Elevator.policy true k o).0 ≡ true
      → (Elevator.policy true k o).1 ≢ none
  unfolding Elevator.policy
  elevator_resolves none h = ground arith
  elevator_resolves (some m) h = ground arith

  enter-Mediates :
      (r : Resolution) (e : Option ℕ) → r.entry.entry ≡ e → Mediates (ok, some r) (enter call k r e)
  unfolding enter run_target
  enter-Mediates r none h = inr (r, refl, inl (h, refl))
  enter-Mediates r (some code) h = inr (r, refl, inr (code, h, refl))

  mediate-Mediates :
      (v : Validation) → (is_ok v.0 ≡ true → v.1 ≢ none) → Mediates v (mediate call k v)
  unfolding mediate
  mediate-Mediates (ok, some r) h = enter-Mediates r r.entry.entry refl
  mediate-Mediates (ok, none) h = absurd (h refl refl)
  mediate-Mediates (status, r) h = inl (refl, refl)

  -- Each gate does one of three things: it returns the status of a failed validation, or
  -- INVALID_TARGET_ENTRY for an operation without an entry point, and changes nothing; or it runs the
  -- resolved entry point once, with the target's identifier and domain as the current ones, returns
  -- its status, and puts the caller's context back into the state that the code left.
  pub gates_mediate :
      (m : Message) (o : Option Message)
      → Mediates (SameLayer.validate true k m) (same_layer_gate call k m)
        × Mediates (CrossLayer.validate true k o) (cross_layer_gate call k o)
        × Mediates (Elevator.policy true k o) (elevator_gate call k o)
  unfolding same_layer_gate cross_layer_gate elevator_gate
  gates_mediate m o = (
    mediate-Mediates _ (same_layer_resolves m),
    mediate-Mediates _ (cross_layer_resolves o),
    mediate-Mediates _ (elevator_resolves o),
  )
