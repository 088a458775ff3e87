-- ===== src/Capability/Handle.antt =====
-- Handles of kernel/main/capability.c: what `make_handle` packs, `decode_handle` takes apart.
use lettuce_os.Base.{ℕ, ◌^◌, ◌<◌, ◌≡◌, ◌≢◌, ap, none, some, arith}
use lettuce_os.Capability.{make_handle, decode_handle, table_size, next_generation}

-- A handle that is made for a slot of the table decodes to that slot and generation, is not the
-- invalid handle, and is a 32-bit word when the generation is a 16-bit one.
pub decode_handle-make_handle :
    (slot generation : ℕ)
    → slot < table_size
    → (decode_handle (make_handle slot generation) ≡ some (slot, generation))
      × (make_handle slot generation ≢ 0)
      × (generation < 2 ^ 16 → make_handle slot generation < 2 ^ 32)
unfolding decode_handle make_handle
decode_handle-make_handle slot generation h = (ground arith, omega arith, omega arith)

-- A handle that decodes is the one that is made for its slot and generation, and the slot is in the
-- table.
pub make_handle-decode_handle :
    (handle slot generation : ℕ)
    → decode_handle handle ≡ some (slot, generation)
    → (handle ≡ make_handle slot generation) × (slot < table_size)
unfolding decode_handle make_handle
make_handle-decode_handle handle slot generation h = ground arith

pub next_generation_lem :
    (g : ℕ)
    → (0 < next_generation g) × (next_generation g < 2 ^ 16) × (g < 2 ^ 16 → next_generation g ≢ g)
unfolding next_generation
next_generation_lem g = (ground arith, ground arith, λ h. ground arith)

pub make_handle-injective :
    (a g b k : ℕ)
    → a < table_size
    → b < table_size
    → make_handle a g ≡ make_handle b k
    → (a ≡ b) × (g ≡ k)
unfolding make_handle
make_handle-injective a g b k ha hb e = omega arith

-- A handle that decodes to nothing is not made for a slot of the table.
pub make_handle-ne :
    (handle slot g : ℕ)
    → decode_handle handle ≡ none
    → slot < table_size
    → handle ≢ make_handle slot g
make_handle-ne handle slot g e h m =
    cc (e, ap decode_handle m, (decode_handle-make_handle slot g h).0)
