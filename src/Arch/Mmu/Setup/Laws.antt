-- ===== src/Arch/Mmu/Setup/Laws.antt =====
-- kernel/arch/arm64/mmu.c: what the set-up clears, and whom an invalidation concerns.
use lettuce_os.Base.{
  ℕ, zero, suc, ◌*◌, ◌/◌, ◌^◌, ◌<◌, ◌≡◌, ◌≢◌, refl, ap, some, Table, fill_lem, update, arith, ltb,
  if◌then◌else◌, ◌&&◌,
}
use lettuce_os.Arch.Mmu.{Mmu, lookup, init_roots, root_value}
use lettuce_os.Arch.Mmu.Domains.{init_roots_lem}
use lettuce_os.Arch.Mmu.Setup.{
  zero_words, zero_pages, words_per_page, aside1is, invalidate_asid, invalidate_domain,
}

zero_words_lem :
    (pages : Table (Table ℕ)) (n page word : ℕ)
    → zero_words pages n page word ≡ (if ltb page 8 && ltb word n then 0 else pages page word)
unfolding zero_words
zero_words_lem pages zero page word = ground arith
zero_words_lem pages (suc n) page word = ground (
  arith,
  zero_words_lem pages n page word,
  ap (λ w. w word) (fill_lem 8 (λ p words. update words n 0) (zero_words pages n) page),
)

-- Before translation starts, every word of the eight pages is 0, and nothing else has changed.
pub zero_pages_lem :
    (pages : Table (Table ℕ)) (page word : ℕ)
    → zero_pages pages page word
      ≡ (if ltb page 8 && ltb word words_per_page then 0 else pages page word)
unfolding zero_pages
zero_pages_lem pages page word = zero_words_lem pages words_per_page page word

lookup_lt : (domain i : ℕ) → lookup domain ≡ some i → i < 3
unfolding lookup
lookup_lt domain i e = ground (arith, e)

asid-init_roots : (m : Mmu) (i : ℕ) → i < 3 → ((init_roots m).domains i).asid ≡ (m.domains i).asid
unfolding init_roots
asid-init_roots m i h =
    ground (arith, fill_lem 3 (λ k d. record d { ttbr0_val = root_value d }) m.domains i)

-- After the boot, at EL1, invalidating a known domain names the address-space number that the domain's
-- root carries, and not that of a domain with another number.
pub invalidate_domain_lem :
    (m : Mmu) (domain other i j : ℕ)
    → lookup domain ≡ some i
    → lookup other ≡ some j
    → (m.domains i).asid ≢ (m.domains j).asid
    → (arg : ℕ) × (invalidate_domain (init_roots m) 1 domain ≡ some (aside1is arg))
      × (arg / 2 ^ 48 ≡ ((init_roots m).domains i).ttbr0_val / 2 ^ 48)
      × (arg / 2 ^ 48 ≢ ((init_roots m).domains j).ttbr0_val / 2 ^ 48)
unfolding invalidate_domain invalidate_asid
invalidate_domain_lem m domain other i j at at' apart =
    let own = ((init_roots_lem m).1 i (lookup_lt domain i at)).0 in
    let others = ((init_roots_lem m).1 j (lookup_lt other j at')).0 in
    let asid = asid-init_roots m i (lookup_lt domain i at) in
    (
      ((init_roots m).domains i).asid * 2 ^ 48,
      rw (at, invalidate_domain) refl,
      omega (arith, own, asid),
      λ e. apart (omega (arith, e, others, asid)),
    )
