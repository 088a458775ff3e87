-- ===== src/Arch/Mmu/Tables/Isolation.antt =====
-- kernel/arch/arm64/mmu.c: what a service may reach through the tables of its domain.
use lettuce_os.Base.{ℕ, ◌/◌, ◌%◌, ◌^◌, ◌<◌, ◌≡◌, ◌≢◌, ◌⊎◌, inl, inr, Table, fill_lem, arith}
use lettuce_os.Arch.Mmu.Tables.{
  Layout, Tables, init_l2_device, device_block_descriptor, kernel_ram_block_descriptor, init_domain,
  init_domain_tables, init_tables, page_descriptor, table_descriptor, table_entries, private_pa,
  data_attributes, code_attributes, ro_attributes,
}

-- The fields of a descriptor, as the architecture defines them: the number of the page, the access
-- of EL0 (1 for reading and writing, 3 for reading), the bits against execution in EL0 and in EL1, and
-- the bit that ties the entry to the address space
abbrev pub page_number : ℕ → ℕ
page_number e = e / 2 ^ 12 % 2 ^ 36

abbrev pub access_of : ℕ → ℕ
access_of e = e / 2 ^ 6 % 4

abbrev pub no_execute : ℕ → ℕ
no_execute e = e / 2 ^ 54 % 2

abbrev pub no_privileged_execute : ℕ → ℕ
no_privileged_execute e = e / 2 ^ 53 % 2

abbrev pub non_global : ℕ → ℕ
non_global e = e / 2 ^ 11 % 2

-- Addresses of 48 bits
pub record IsAddressable (lay : Layout) : Type 0 where
  pub private_lt : (k : ℕ) → k < 3 → private_pa lay k < 2 ^ 48
  pub stack_lt : (k : ℕ) → k < 3 → lay.stack_page k < 2 ^ 48
  pub shared_lt : lay.shared_buffer_page < 2 ^ 48
  pub ro_lt : lay.ro_test_page < 2 ^ 48
  pub code_lt : lay.el0_service_code_start < 2 ^ 48

abbrev pub frame_of : ℕ → ℕ
frame_of physical = physical / 2 ^ 12

-- A page that EL0 reads and writes, and does not run
abbrev IsData : ℕ → ℕ → Type 0
IsData e page = (page_number e ≡ page) × (access_of e ≡ 1) × (no_execute e ≡ 1) × (non_global e ≡ 1)

abbrev IsReadOnly : ℕ → ℕ → Type 0
IsReadOnly e page =
    (page_number e ≡ page)
    × (access_of e ≡ 3)
    × (non_global e ≡ 1)
    × ((no_execute e ≡ 1) ⊎ (no_privileged_execute e ≡ 1))

page_descriptor-IsData :
    (physical : ℕ)
    → physical < 2 ^ 48
    → IsData (page_descriptor physical data_attributes) (physical / 2 ^ 12)
unfolding page_descriptor
page_descriptor-IsData physical h = (omega arith, omega arith, omega arith, omega arith)

code_page :
    (physical : ℕ)
    → physical < 2 ^ 48
    → IsReadOnly (page_descriptor physical code_attributes) (physical / 2 ^ 12)
unfolding page_descriptor
code_page physical h = (omega arith, omega arith, omega arith, inr (omega arith))

ro_page :
    (physical : ℕ)
    → physical < 2 ^ 48
    → IsReadOnly (page_descriptor physical ro_attributes) (physical / 2 ^ 12)
unfolding page_descriptor
ro_page physical h = (omega arith, omega arith, omega arith, inl (omega arith))

-- What an entry of a domain's last table is
l3-cases :
    (lay : Layout) (t : Table Tables) (k i : ℕ)
    → k < 3
    → i < table_entries
    → let e = (init_tables lay t k).l3 i in
      (e ≡ 0)
      ⊎ (e ≡ page_descriptor (private_pa lay k) data_attributes)
      ⊎ (e ≡ page_descriptor (lay.stack_page k) data_attributes)
      ⊎ (e ≡ page_descriptor lay.shared_buffer_page data_attributes)
      ⊎ (e ≡ page_descriptor lay.el0_service_code_start code_attributes)
      ⊎ ((k ≡ 0) × (e ≡ page_descriptor lay.ro_test_page ro_attributes))
unfolding init_tables init_domain_tables
l3-cases lay t k i hk hi =
    ground (arith, fill_lem 3 (init_domain lay) t k, fill_lem table_entries (λ j x. 0) (t k).l3 i)

-- What a domain's last table maps, by the numbers of the pages
abbrev Maps : Layout → ℕ → ℕ → Type 0
Maps lay k e =
    (e ≡ 0)
    ⊎ IsData e (frame_of (private_pa lay k))
    ⊎ IsData e (frame_of (lay.stack_page k))
    ⊎ IsData e (frame_of lay.shared_buffer_page)
    ⊎ IsReadOnly e (frame_of lay.el0_service_code_start)
    ⊎ ((k ≡ 0) × IsReadOnly e (frame_of lay.ro_test_page))

l3-Maps :
    (lay : Layout) (t : Table Tables) (k i : ℕ)
    → IsAddressable lay
    → k < 3
    → i < table_entries
    → Maps lay k ((init_tables lay t k).l3 i)
l3-Maps lay t k i a hk hi = elim (l3-cases lay t k i hk hi) [
  | inl e ↦ inl e
  | inr (inl e) ↦ inr (inl (rw e (page_descriptor-IsData _ (a.private_lt k hk))))
  | inr (inr (inl e)) ↦ inr (inr (inl (rw e (page_descriptor-IsData _ (a.stack_lt k hk)))))
  | inr (inr (inr (inl e))) ↦ inr (inr (inr (inl (rw e (page_descriptor-IsData _ a.shared_lt)))))
  | inr (inr (inr (inr (inl e)))) ↦ inr (inr (inr (inr (inl (rw e (code_page _ a.code_lt))))))
  | inr (inr (inr (inr (inr (z, e))))) ↦ inr (inr (inr (inr (inr (z, rw e (ro_page _ a.ro_lt))))))
]

-- The pages that different domains map are apart from each other, and from the code and the test page,
-- as different arrays are. For the private page of domain A, at the fixed address 0x41000000, this says
-- that the linker puts none of the arrays there.
pub record IsSeparate (lay : Layout) : Type 0 where
  pub private_ne :
      (j k : ℕ) → j < 3 → k < 3 → j ≢ k → frame_of (private_pa lay j) ≢ frame_of (private_pa lay k)
  pub stack_ne :
      (j k : ℕ) → j < 3 → k < 3 → j ≢ k → frame_of (lay.stack_page j) ≢ frame_of (lay.stack_page k)
  pub private-stack_ne :
      (j k : ℕ) → j < 3 → k < 3 → frame_of (private_pa lay j) ≢ frame_of (lay.stack_page k)
  pub private-code_ne :
      (j : ℕ) → j < 3 → frame_of (private_pa lay j) ≢ frame_of lay.el0_service_code_start
  pub stack-code_ne :
      (j : ℕ) → j < 3 → frame_of (lay.stack_page j) ≢ frame_of lay.el0_service_code_start
  pub private-test_ne : (j : ℕ) → j < 3 → frame_of (private_pa lay j) ≢ frame_of lay.ro_test_page
  pub stack-test_ne : (j : ℕ) → j < 3 → frame_of (lay.stack_page j) ≢ frame_of lay.ro_test_page

-- Provided that the linker's addresses are apart from each other and from the fixed address 0x41000000
-- of domain A's private page, two different domains share nothing but the shared buffer and the code of the services, which
-- neither can write: an entry of the last table of the one and an entry of the other's, if both are
-- in use, map different pages, or the shared buffer's, or the code's for reading.
pub init_tables_isolated :
    (lay : Layout) (t : Table Tables) (j k a b : ℕ)
    → IsAddressable lay
    → IsSeparate lay
    → j < 3
    → k < 3
    → j ≢ k
    → a < table_entries
    → b < table_entries
    → let e = (init_tables lay t j).l3 a in
      let f = (init_tables lay t k).l3 b in
      (e ≡ 0)
      ⊎ (f ≡ 0)
      ⊎ (page_number e ≢ page_number f)
      ⊎ (page_number e ≡ frame_of lay.shared_buffer_page)
      ⊎ ((page_number e ≡ frame_of lay.el0_service_code_start)
          × (access_of e ≡ 3)
          × (access_of f ≡ 3))
init_tables_isolated lay t j k a b ad s hj hk ne ha hb = ground (
  arith,
  l3-Maps lay t j a ad hj ha,
  l3-Maps lay t k b ad hk hb,
  s.private_ne j k hj hk ne,
  s.stack_ne j k hj hk ne,
  s.private-stack_ne j k hj hk,
  s.private-stack_ne k j hk hj,
  s.private-code_ne j hj,
  s.private-code_ne k hk,
  s.stack-code_ne j hj,
  s.stack-code_ne k hk,
  s.private-test_ne j hj,
  s.private-test_ne k hk,
  s.stack-test_ne j hj,
  s.stack-test_ne k hk,
)

-- An entry that gives EL0 nothing: neither reading nor writing, nor execution
abbrev pub IsClosed : ℕ → Type 0
IsClosed e = (access_of e ≡ 0) × (no_execute e ≡ 1)

-- A service reaches memory through the last table of its domain only, and there never a page that it
-- can both write and run: of the first table, an entry is 0 or leads to the second table or to that
-- of the devices; of those two, an entry is 0, or closed to EL0 for reading, writing and execution,
-- or leads to the last table, and no device can be run from EL1 either; and an entry of the last table
-- is 0, or bound to the address space and either read-only and not for execution in one of EL0 and
-- EL1, or writable and not for execution in EL0.
pub init_tables_lem :
    (lay : Layout) (t : Table Tables) (device : Table ℕ) (k i : ℕ)
    → IsAddressable lay
    → k < 3
    → i < table_entries
    → let d = init_tables lay t k in
      let e = d.l3 i in
      let dev = init_l2_device device i in
      ((d.l1 i ≡ 0)
        ⊎ (d.l1 i ≡ table_descriptor lay.l2_device)
        ⊎ (d.l1 i ≡ table_descriptor (lay.l2 k)))
      × ((d.l2 i ≡ 0) ⊎ IsClosed (d.l2 i) ⊎ (d.l2 i ≡ table_descriptor (lay.l3 k)))
      × ((dev ≡ 0) ⊎ (IsClosed dev × (no_privileged_execute dev ≡ 1)))
      × ((e ≡ 0)
          ⊎ ((non_global e ≡ 1)
              × (((access_of e ≡ 3) × ((no_execute e ≡ 1) ⊎ (no_privileged_execute e ≡ 1)))
                  ⊎ ((access_of e ≡ 1) × (no_execute e ≡ 1)))))
unfolding init_tables init_domain_tables init_l2_device device_block_descriptor
    kernel_ram_block_descriptor
init_tables_lem lay t device k i a hk hi = (
  ground (arith, fill_lem 3 (init_domain lay) t k, fill_lem table_entries (λ j x. 0) (t k).l1 i),
  ground (arith, fill_lem 3 (init_domain lay) t k, fill_lem table_entries (λ j x. 0) (t k).l2 i),
  ground (arith, fill_lem table_entries (λ j x. 0) device i),
  ground (arith, l3-Maps lay t k i a hk hi),
)
