-- ===== src/Arch/Gic.antt =====
-- kernel/arch/arm64/gic.c: the interrupt controller, as the writes to its registers in their order.
pub mod Banks
use lettuce_os.Base.{ℕ, ◌+◌, ◌*◌, ◌/◌, ◌%◌, ◌^◌, List, [], ◌∷◌}

abbrev pub gicd_base : ℕ
gicd_base = 0x08000000

abbrev pub gicc_base : ℕ
gicc_base = 0x08010000

-- The offsets of the registers
abbrev pub gicd_ctlr : ℕ
gicd_ctlr = 0x000

abbrev pub gicd_isenabler : ℕ
gicd_isenabler = 0x100

abbrev pub gicd_icenabler : ℕ
gicd_icenabler = 0x180

abbrev pub gicd_ipriorityr : ℕ
gicd_ipriorityr = 0x400

abbrev pub gicc_ctlr : ℕ
gicc_ctlr = 0x000

abbrev pub gicc_pmr : ℕ
gicc_pmr = 0x004

abbrev pub gicc_eoir : ℕ
gicc_eoir = 0x010

-- A write of a value to an address
pub record Write : Type 0 where
  pub address : ℕ
  pub value : ℕ

abbrev gicd_reg : ℕ → ℕ → Write
gicd_reg off value = record { address = gicd_base + off; value = value }

abbrev gicc_reg : ℕ → ℕ → Write
gicc_reg off value = record { address = gicc_base + off; value = value }

unfoldable pub init : List Write
init =
    gicd_reg gicd_ctlr 0
    ∷ gicd_reg (gicd_icenabler + 0) 0xffffffff
    ∷ gicd_reg (gicd_icenabler + 4) 0xffffffff
    ∷ gicc_reg gicc_pmr 0xff
    ∷ gicc_reg gicc_ctlr 1
    ∷ gicd_reg gicd_ctlr 1
    ∷ []

-- The offset is a 32-bit sum.
unfoldable pub enable_interrupt : ℕ → Write
enable_interrupt intid = gicd_reg ((gicd_isenabler + intid / 32 * 4) % 2 ^ 32) (2 ^ (intid % 32))

unfoldable pub disable_interrupt : ℕ → Write
disable_interrupt intid = gicd_reg ((gicd_icenabler + intid / 32 * 4) % 2 ^ 32) (2 ^ (intid % 32))

unfoldable pub set_priority : ℕ → ℕ → Write
set_priority intid priority = gicd_reg (gicd_ipriorityr + intid) priority

-- `iar` is what the acknowledge register reads as.
unfoldable pub acknowledge : ℕ → ℕ
acknowledge iar = iar % 1024

unfoldable pub end_of_interrupt : ℕ → Write
end_of_interrupt intid = gicc_reg gicc_eoir (intid % 1024)
