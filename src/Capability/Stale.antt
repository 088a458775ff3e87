-- ===== src/Capability/Stale.antt =====
-- Histories of the table of kernel/main/capability.c: how long a revoked handle stays dead.
use lettuce_os.Base.{
  ℕ, ◌+◌, ◌-◌, ◌%◌, ◌^◌, ◌<◌, ◌≡◌, ◌≢◌, sym, subst, ◌⊎◌, inl, inr, ◌∙◌, ap, Bool, true, none, arith,
  List, [], ◌∷◌, length, Bool-cases, ◌==◌, if◌then◌else◌,
}
use lettuce_os.Capability.{Caps, create, revoke, make_handle, next_generation, table_size}
use lettuce_os.Capability.Handle.{decode_handle-make_handle}
use lettuce_os.Capability.Valid.{IsValid, given_back}
use lettuce_os.Capability.Keeps.{create-IsValid, revoke-IsValid, revoke-Revokes}
use lettuce_os.Capability.Grants.{grant_of}

-- A call of the interface
pub data Call : Type 0 where
  creates : ℕ → ℕ → ℕ → ℕ → ℕ → Call
  revokes : ℕ → Call

unfoldable pub step : Caps → Call → Caps
step s (creates owner target operation permissions resource) =
    (create s owner target operation permissions resource).1
step s (revokes handle) = (revoke s handle).1

unfoldable pub run : Caps → List Call → Caps
run s [] = s
run s (c ∷ cs) = run (step s c) cs

pub step-IsValid : (s : Caps) (c : Call) → IsValid s → IsValid (step s c)
unfolding step
step-IsValid s (creates owner target operation permissions resource) v =
    create-IsValid s owner target operation permissions resource v
step-IsValid s (revokes handle) v = revoke-IsValid s handle v

-- No history of `create` and `revoke` calls breaks the capability table's invariant.
pub run-IsValid : (s : Caps) (cs : List Call) → IsValid s → IsValid (run s cs)
unfolding run
run-IsValid s [] v = v
run-IsValid s (c ∷ cs) v = run-IsValid (step s c) cs (step-IsValid s c v)

abbrev generation_of : Caps → ℕ → ℕ
generation_of s slot = (s.table slot).generation

generation-given_back :
    (s : Caps) (slot i n : ℕ)
    → generation_of (given_back s slot n) i ≡ (if i == slot then n else generation_of s i)
unfolding given_back
generation-given_back s slot i n = ground arith

module _ (s : Caps) (slot : ℕ) where
  generation-create :
      (owner target operation permissions resource : ℕ)
      → generation_of (create s owner target operation permissions resource).1 slot
        ≡ generation_of s slot
  unfolding create
  generation-create owner target operation permissions resource = ground arith

  -- One call leaves the generation of a slot, or steps it.
  generation-step :
      (c : Call)
      → (generation_of (step s c) slot ≡ generation_of s slot)
        ⊎ (generation_of (step s c) slot ≡ next_generation (generation_of s slot))
  unfolding step given_back
  generation-step (creates owner target operation permissions resource) =
      inl (generation-create owner target operation permissions resource)
  generation-step (revokes handle) = elim (revoke-Revokes s handle) [
    | inl e ↦ inl (ap after e)
    | inr (slot', h, on, m, e) ↦ elim (Bool-cases (slot == slot')) [
      | inl same ↦ inr (
          ap after e
          ∙ ground
              (arith, generation-given_back s slot' slot (next_generation (generation_of s slot'))))
      | inr other ↦ inl (
          ap after e
          ∙ ground
              (arith, generation-given_back s slot' slot (next_generation (generation_of s slot'))))
    ]
  ]
    where
      after : Bool × Caps → ℕ
      after r = generation_of r.1 slot

-- How many steps lead from the generation g to the generation c
abbrev distance : ℕ → ℕ → ℕ
distance g c = (c + 65535 - g) % 65535

distance-next :
    (g c : ℕ)
    → 0 < g
    → g < 2 ^ 16
    → 0 < c
    → c < 2 ^ 16
    → distance g c + 1 < 65535
    → distance g (next_generation c) ≡ distance g c + 1
unfolding next_generation
distance-next g c hg lg hc lc h = ground arith

-- One call moves a generation on by at most one.
distance-step :
    (s : Caps) (slot g : ℕ) (c : Call)
    → IsValid s
    → slot < table_size
    → 0 < g
    → g < 2 ^ 16
    → distance g (generation_of s slot) + 1 < 65535
    → (distance g (generation_of (step s c) slot) ≡ distance g (generation_of s slot))
      ⊎ (distance g (generation_of (step s c) slot) ≡ distance g (generation_of s slot) + 1)
distance-step s slot g c v h hg lg lt = elim (generation-step s slot c) [
  | inl e ↦ inl (ap (distance g) e)
  | inr e ↦ inr (
      ap (distance g) e
      ∙ distance-next g _ hg lg (v.generation_pos slot h) (v.generation_lt slot h) lt)
]

generation-run :
    (s : Caps) (slot g : ℕ) (cs : List Call)
    → IsValid s
    → slot < table_size
    → 0 < g
    → g < 2 ^ 16
    → 0 < distance g (generation_of s slot)
    → distance g (generation_of s slot) + length cs < 65535
    → generation_of (run s cs) slot ≢ g
unfolding run
generation-run s slot g [] v h hg lg pos lt = λ e. omega arith
generation-run s slot g (c ∷ cs) v h hg lg pos lt =
    generation-run (step s c) slot g cs (step-IsValid s c v) h hg lg
      (omega (arith, distance-step s slot g c v h hg lg (omega arith)))
      (omega (arith, distance-step s slot g c v h hg lg (omega arith)))

grant_of-other_generation :
    (s : Caps) (slot g : ℕ)
    → slot < table_size
    → generation_of s slot ≢ g
    → grant_of s (make_handle slot g) ≡ none
unfolding grant_of
grant_of-other_generation s slot g h ne = rw ((decode_handle-make_handle slot g h).0) (ground arith)

-- A handle that was revoked stands for nothing after any history of fewer than 65534 further calls,
-- however often its slot is handed out again.
pub revoked_stays_dead :
    (s : Caps) (handle : ℕ) (cs : List Call)
    → IsValid s
    → (revoke s handle).0 ≡ true
    → length cs < 65534
    → grant_of (run (revoke s handle).1 cs) handle ≡ none
revoked_stays_dead s handle cs v done short = elim (revoke-Revokes s handle) [
  | inl e ↦ absurd (ground (arith, ap (λ r. r.0) e))
  | inr (slot, h, on, m, e) ↦
      let g = generation_of s slot in
      let s' = (revoke s handle).1 in
      let next : distance g (generation_of s' slot) ≡ 1 = ground (
        arith,
        ap (λ r. generation_of r.1 slot) e,
        generation-given_back s slot slot (next_generation g),
        distance-next g g (v.generation_pos slot h) (v.generation_lt slot h)
            (v.generation_pos slot h) (v.generation_lt slot h),
      ) in
      subst (λ x. grant_of (run s' cs) x ≡ none) (sym m)
        (grant_of-other_generation (run s' cs) slot g h (
          generation-run s' slot g cs (revoke-IsValid s handle v) h (v.generation_pos slot h)
            (v.generation_lt slot h) (omega arith) (omega arith)))
]
