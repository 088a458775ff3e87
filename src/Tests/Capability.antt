-- ===== src/Tests/Capability.antt =====
-- kernel/main/capability.c at a table with one grant: service 1 may call operation 3 of service 2 on
-- the resource 4.
use lettuce_os.Base.{
  ℕ, ◌<◌, ◌≡◌, ◌≢◌, ◌⊎◌, ◌↔◌, refl, true, false, none, some, List, [], ◌∷◌, ◌==◌, if◌then◌else◌,
  arith, fill,
}
use lettuce_os.Abi.{op_call}
use lettuce_os.Capability.{
  Caps, init, init_entry, create, revoke, revoke_slot, check, check_slot, is_refused, make_handle,
  decode_handle, table_size,
}
use lettuce_os.Capability.Valid.{IsValid, init-IsValid}
use lettuce_os.Capability.Keeps.{create-IsValid}
use lettuce_os.Capability.Grants.{Grant, Allows, grant_of, check_iff}
use lettuce_os.Capability.Refine.{grant_of-init, create_refines, revoke_refines, is_some, IsBad}
use mathlib.Core.List.{Mem}
use lettuce_os.Capability.Provenance.{creation, check-creation}
use lettuce_os.Capability.Stale.{Call, creates, revokes, step, run, revoked_stays_dead}

abbrev blank : Caps
blank = record { table = λ i. init_entry; free_slots = λ i. 0; free_count = 0 }

abbrev started : Caps
started = init blank

started-IsValid : IsValid started
started-IsValid = (init-IsValid blank).0

-- The table after the grant, and the handle that it has
abbrev granted_one : Caps
granted_one = (create started 1 2 3 1 4).1

abbrev handle_one : ℕ
handle_one = 65537

granted_one-IsValid : IsValid granted_one
granted_one-IsValid = create-IsValid started 1 2 3 1 4 started-IsValid

first_handle : (create started 1 2 3 1 4).0 ≡ handle_one
unfolding create is_refused make_handle init fill
first_handle = refl

allowed : check granted_one 1 handle_one 2 3 1 4 ≡ true
unfolding check check_slot decode_handle create is_refused make_handle init fill
allowed = refl

other_caller : check granted_one 5 handle_one 2 3 1 4 ≡ false
unfolding check check_slot decode_handle create is_refused make_handle init fill
other_caller = refl

unknown_permission : (create started 1 2 3 64 4).0 ≡ 0
unfolding create is_refused
unknown_permission = refl

revoked_once : (revoke granted_one handle_one).0 ≡ true
unfolding revoke revoke_slot decode_handle create is_refused make_handle init fill
revoked_once = refl

check_iff_example : (check granted_one 1 handle_one 2 3 1 4 ≡ true) ↔ (
    (op_call ≢ 0) × ((g : Grant) × (grant_of granted_one handle_one ≡ some g) × Allows g 1 2 3 1 4))
check_iff_example = check_iff granted_one 1 handle_one 2 3 1 4

create_refines_example :
    let r = create started 1 2 3 1 4 in
    ((r ≡ (0, started))
      × ((IsBad 1 2 3 1 4) ⊎ ((i : ℕ) → i < table_size → (started.table i).active ≡ true)))
    ⊎ ((r.0 ≢ 0)
        × (¬ IsBad 1 2 3 1 4)
        × (grant_of started r.0 ≡ none)
        × ((handle : ℕ)
            → grant_of r.1 handle ≡ (
                if handle == r.0
                then some
                    (record { owner = 1; target = 2; operation = 3; resource = 4; permissions = 1 })
                else grant_of started handle)))
create_refines_example = create_refines started started-IsValid 1 2 3 1 4

revoke_refines_example :
    let (done, s') = revoke granted_one handle_one in
    (done ≡ is_some (grant_of granted_one handle_one))
    × ((handle' : ℕ)
        → grant_of s' handle'
          ≡ (if handle' == handle_one then none else grant_of granted_one handle'))
revoke_refines_example = revoke_refines granted_one handle_one

-- The slot is handed out again, and the old handle stands for nothing.
abbrev later : List Call
later = creates 5 6 7 1 8 ∷ revokes 3 ∷ []

revoked_stays_dead_example :
    grant_of (run (revoke granted_one handle_one).1 later) handle_one ≡ none
revoked_stays_dead_example =
    revoked_stays_dead granted_one handle_one later granted_one-IsValid revoked_once (omega arith)

grant_of-init_example : grant_of (init granted_one) handle_one ≡ none
grant_of-init_example = grant_of-init granted_one handle_one

abbrev history : List Call
history = creates 1 2 3 1 4 ∷ creates 5 2 3 1 4 ∷ revokes 65538 ∷ []

still_allowed : check (run (init blank) history) 1 handle_one 2 3 1 4 ≡ true
unfolding run step check check_slot decode_handle create revoke revoke_slot is_refused make_handle
    init fill
still_allowed = refl

check-creation_example : (g : Grant) × Mem (creation g) history × Allows g 1 2 3 1 4
check-creation_example = check-creation blank history 1 handle_one 2 3 1 4 still_allowed
