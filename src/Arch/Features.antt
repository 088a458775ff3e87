-- ===== src/Arch/Features.antt =====
-- kernel/arch/arm64/mte.c and poe.c: which features the processor has, by its identification registers.
use Prim.Native.String.{String}
use lettuce_os.Base.{ℕ, ◌/◌, ◌%◌, ◌^◌, Bool, ◌||◌, some, List, leb, if◌then◌else◌}
use lettuce_os.Arch.Console.{codes, puts}

-- `(uint32_t)((val >> shift) & 0xf)`
abbrev feature_field : ℕ → ℕ → ℕ
feature_field val shift = val / 2 ^ shift % 16

-- The value of ID_AA64PFR1_EL1
unfoldable pub has_mte : ℕ → Bool
has_mte val = leb 1 (feature_field val 8)

-- The value of ID_AA64MMFR3_EL1
unfoldable pub has_poe : ℕ → Bool
has_poe val = leb 1 (feature_field val 36)

-- The value of ID_AA64ISAR1_EL1
unfoldable pub has_pac : ℕ → Bool
has_pac val = leb 1 (feature_field val 4) || leb 1 (feature_field val 8)

abbrev put : List ℕ → String → List ℕ
put out text = puts out (some (codes text))

unfoldable pub probe_and_print : List ℕ → ℕ → ℕ → ℕ → List ℕ
unfolding has_pac has_mte has_poe
probe_and_print out isar1 pfr1 mmfr3 =
    let a = put (put out "Architecture Feature Status:\n") "  PAC: " in
    let b = put a (if has_pac isar1 then "YES (active continuation signing)\n" else "NO\n") in
    let c = put (put b "  MTE: ") (
      if has_mte pfr1
      then "YES (instructions present; unbacked tag RAM in default virt; optional)\n"
      else "NO (operating normally without MTE)\n") in
    put (put c "  POE: ")
      (if has_poe mmfr3 then "YES\n" else "NO (fallback to optimized MMU/ASID backend)\n")
