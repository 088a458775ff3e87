-- ===== src/Tests/Buffers.antt =====
-- memory/shared/buffer.c at a table in which service 2 has a buffer for the resource 4, which
-- service 1 may read.
use lettuce_os.Base.{◌≡◌, ◌↔◌, refl, true, false, some, update, fill}
use lettuce_os.Abi.{ok, capability_denied, denied}
use lettuce_os.Capability
use lettuce_os.Capability.{Caps, Entry, init_entry}
use lettuce_os.Memory.Buffers.{
  Buffers, init, create, create_at, find_inactive, make_handle, decode_handle, access, access_slot,
  revoke, revoke_slot,
}
use lettuce_os.Memory.Buffers.Laws.{MakesBuffer, create-MakesBuffer}
use lettuce_os.Memory.Buffers.Access.{Reaches, access_iff, RevokesBuffer, revoke-RevokesBuffer}

abbrev reader : Entry
reader = record {
  generation = 1;
  active = true;
  owner = 1;
  target = 2;
  operation = 256;
  resource = 4;
  permissions = 2;
}

-- Handle 65537 is for reading, and 65538 for nothing.
abbrev caps : Caps
caps = record { table = update (λ i. init_entry) 0 reader; free_slots = λ i. 0; free_count = 0 }

abbrev empty : Buffers
empty = init λ i. record {
  size = 0;
  resource = 0;
  read_capability = 0;
  write_capability = 0;
  owner = 0;
  generation = 0;
  active = false;
  payload = λ b. 9;
}

abbrev one : Buffers
one = (create empty 2 2 4 100 65537 65538 true).2

created : (create empty 2 2 4 100 65537 65538 true).1 ≡ some 65537
unfolding create create_at find_inactive make_handle init fill
created = refl

reads : access one caps 1 65537 65537 false true ≡ (ok, some (0, 100))
unfolding access access_slot decode_handle create create_at find_inactive init fill Capability.check
    Capability.check_slot Capability.decode_handle
reads = refl

writes_not : (access one caps 1 65537 65538 true true).0 ≡ capability_denied
unfolding access access_slot decode_handle create create_at find_inactive init fill Capability.check
    Capability.check_slot Capability.decode_handle
writes_not = refl

only_owner_revokes : (revoke one 1 65537).0 ≡ denied
unfolding revoke revoke_slot decode_handle create create_at find_inactive init fill
only_owner_revokes = refl

create-MakesBuffer_example :
    MakesBuffer empty 2 2 4 100 65537 65538 true (create empty 2 2 4 100 65537 65538 true)
create-MakesBuffer_example = create-MakesBuffer empty 2 2 4 100 65537 65538 true

access_iff_example :
    (access one caps 1 65537 65537 false true ≡ (ok, some (0, 100)))
    ↔ (Reaches one caps 1 65537 65537 false 0 × (100 ≡ (one 0).size))
access_iff_example = access_iff one caps 1 65537 65537 false 0 100

revoke-RevokesBuffer_example : RevokesBuffer one 2 65537 (revoke one 2 65537)
revoke-RevokesBuffer_example = revoke-RevokesBuffer one 2 65537
