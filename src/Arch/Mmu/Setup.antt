-- ===== src/Arch/Mmu/Setup.antt =====
-- kernel/arch/arm64/mmu.c: the other steps of lettuce_mmu_init, and the invalidations of cached
-- translations, as the instruction that each executes.
pub mod Laws
use lettuce_os.Base.{
  ℕ, zero, suc, ◌+◌, ◌*◌, ◌%◌, ◌^◌, Option, none, some, Table, fill, update, ◌==◌, if◌then◌else◌,
}
use lettuce_os.Arch.Mmu.{Mmu, lookup}

-- The pages for private data, stacks and sharing, by their order in the loop, with their 512 words:
-- the loop over the first n words
unfoldable pub zero_words : Table (Table ℕ) → ℕ → Table (Table ℕ)
zero_words pages zero = pages
zero_words pages (suc n) = fill 8 (λ page words. update words n 0) (zero_words pages n)

abbrev pub words_per_page : ℕ
words_per_page = 512

unfoldable pub zero_pages : Table (Table ℕ) → Table (Table ℕ)
zero_pages pages = zero_words pages words_per_page

abbrev pub mair : ℕ
mair = 0xff + 0x00 * 2 ^ 8

abbrev pub tcr_el1 : ℕ
tcr_el1 = 25 + 2 ^ 8 + 2 ^ 10 + 3 * 2 ^ 12 + 0 * 2 ^ 14 + 2 ^ 23 + 2 * 2 ^ 32 + 2 ^ 36

abbrev pub tcr_el2 : ℕ
tcr_el2 = 25 + 2 ^ 8 + 2 ^ 10 + 3 * 2 ^ 12 + 0 * 2 ^ 14 + 2 * 2 ^ 16 + 2 ^ 23 + 2 ^ 31

-- An instruction that invalidates cached translations: `tlbi alle2is`, `tlbi vmalle1is`, and
-- `tlbi aside1is` with its argument
pub data Invalidation : Type 0 where
  alle2is vmalle1is : Invalidation
  aside1is : ℕ → Invalidation

-- `el` is the current exception level; `asid` is a 16-bit number.
unfoldable pub invalidate_asid : ℕ → ℕ → Invalidation
invalidate_asid el asid = if el == 2 then alle2is else aside1is (asid * 2 ^ 48)

unfoldable pub invalidate_domain : Mmu → ℕ → ℕ → Option Invalidation
invalidate_domain m el domain = elim (lookup domain) [
  | none ↦ none
  | some i ↦ some (invalidate_asid el (m.domains i).asid)
]

unfoldable pub invalidate_all : ℕ → Invalidation
invalidate_all el = if el == 2 then alle2is else vmalle1is
