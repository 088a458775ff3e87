-- ===== src/Arch/Mmu/Tables.antt =====
-- kernel/arch/arm64/mmu.c: the translation tables that `lettuce_mmu_init` builds. Where the linker puts
-- the tables and the pages is a parameter. The flags of a descriptor do not overlap with each other
-- nor with an address whose low bits are cleared, so `|` is a sum.
pub mod Isolation
use lettuce_os.Base.{
  ℕ, ◌+◌, ◌*◌, ◌/◌, ◌%◌, ◌^◌, Bool, true, false, Table, update, fill, ◌==◌, if◌then◌else◌,
}

abbrev pub table_entries : ℕ
table_entries = 512

abbrev pub page_size : ℕ
page_size = 4096

abbrev pub gic_pa : ℕ
gic_pa = 0x08000000

abbrev pub uart_pa : ℕ
uart_pa = 0x09000000

abbrev pub kernel_ram_pa : ℕ
kernel_ram_pa = 0x40000000

abbrev pub private_a_va : ℕ
private_a_va = 0x41000000

abbrev pub private_b_va : ℕ
private_b_va = 0x41100000

abbrev pub private_c_va : ℕ
private_c_va = 0x41180000

abbrev pub shared_page_va : ℕ
shared_page_va = 0x411c0000

abbrev pub ro_test_page_va : ℕ
ro_test_page_va = 0x411e0000

abbrev pub service_code_va : ℕ
service_code_va = 0x41050000

abbrev pub domain_a_stack_va : ℕ
domain_a_stack_va = 0x41001000

abbrev pub domain_b_stack_va : ℕ
domain_b_stack_va = 0x41101000

abbrev pub domain_c_stack_va : ℕ
domain_c_stack_va = 0x41181000

-- The flags of a descriptor; those that are 0 are left out of the sums.
abbrev pub desc_valid : ℕ
desc_valid = 1

-- `DESC_TABLE` and `DESC_PAGE`
abbrev pub desc_table : ℕ
desc_table = 2

abbrev pub desc_attr_device : ℕ
desc_attr_device = 2 ^ 2

abbrev pub desc_ap_el0_rw : ℕ
desc_ap_el0_rw = 1 * 2 ^ 6

abbrev pub desc_ap_el0_ro : ℕ
desc_ap_el0_ro = 3 * 2 ^ 6

abbrev pub desc_sh_inner : ℕ
desc_sh_inner = 3 * 2 ^ 8

abbrev pub desc_af : ℕ
desc_af = 2 ^ 10

abbrev pub desc_ng : ℕ
desc_ng = 2 ^ 11

abbrev pub desc_pxn : ℕ
desc_pxn = 2 ^ 53

abbrev pub desc_uxn : ℕ
desc_uxn = 2 ^ 54

-- The addresses of the static tables and pages and of the code of the services; a table has the
-- index 0 for domain A, 1 for B and 2 for C. The private page of A is none of these.
pub record Layout : Type 0 where
  pub l2_device : ℕ
  pub l2 : Table ℕ
  pub l3 : Table ℕ
  pub private_page : Table ℕ
  pub stack_page : Table ℕ
  pub shared_buffer_page : ℕ
  pub ro_test_page : ℕ
  pub el0_service_code_start : ℕ

-- The three tables of a domain
pub record Tables : Type 0 where
  pub l1 : Table ℕ
  pub l2 : Table ℕ
  pub l3 : Table ℕ

-- `table & ~0xfff` and `physical & ~0x1fffff`
abbrev pub page_of : ℕ → ℕ
page_of a = a / 2 ^ 12 * 2 ^ 12

abbrev pub block_of : ℕ → ℕ
block_of a = a / 2 ^ 21 * 2 ^ 21

unfoldable pub table_descriptor : ℕ → ℕ
table_descriptor table = page_of table + desc_valid + desc_table

unfoldable pub device_block_descriptor : ℕ → ℕ
device_block_descriptor physical =
    block_of physical + desc_valid + desc_af + desc_attr_device + desc_uxn + desc_pxn

unfoldable pub kernel_ram_block_descriptor : ℕ → ℕ
kernel_ram_block_descriptor physical =
    block_of physical + desc_valid + desc_af + desc_sh_inner + desc_uxn

unfoldable pub page_descriptor : ℕ → ℕ → ℕ
page_descriptor physical attributes =
    page_of physical + desc_valid + desc_table + desc_af + desc_sh_inner + attributes

-- `(va >> 12u) & 0x1ffu` and `(va >> 21u) & 0x1ffu`
abbrev pub l3_index : ℕ → ℕ
l3_index va = va / 2 ^ 12 % 512

abbrev pub l2_index : ℕ → ℕ
l2_index va = va / 2 ^ 21 % 512

-- The attributes of data pages, and of read-only ones
abbrev pub data_attributes : ℕ
data_attributes = desc_ap_el0_rw + desc_uxn + desc_ng

abbrev pub code_attributes : ℕ
code_attributes = desc_ap_el0_ro + desc_pxn + desc_ng

abbrev pub ro_attributes : ℕ
ro_attributes = desc_ap_el0_ro + desc_uxn + desc_ng

abbrev zeroed : Table ℕ → Table ℕ
zeroed t = fill table_entries (λ i e. 0) t

unfoldable pub init_domain_tables : Layout → Tables → ℕ → ℕ → ℕ → ℕ → ℕ → ℕ → Bool → Tables
init_domain_tables lay t l2 l3 private_va private_pa stack_va stack_pa include_ro_test_page =
    let l3' =
      update (zeroed t.l3) (l3_index private_va) (page_descriptor private_pa data_attributes) in
    let l3' = update l3' (l3_index stack_va) (page_descriptor stack_pa data_attributes) in
    let l3' =
      update l3' (l3_index service_code_va)
        (page_descriptor lay.el0_service_code_start code_attributes) in
    let l3' =
      update l3' (l3_index shared_page_va)
        (page_descriptor lay.shared_buffer_page data_attributes) in
    record {
      l1 = update (update (zeroed t.l1) 0 (table_descriptor lay.l2_device)) 1 (table_descriptor l2);
      l2 =
          update (update (zeroed t.l2) 0 (kernel_ram_block_descriptor kernel_ram_pa))
            (l2_index private_a_va) (table_descriptor l3);
      l3 =
          if include_ro_test_page
          then update l3' (l3_index ro_test_page_va)
              (page_descriptor lay.ro_test_page ro_attributes)
          else l3';
    }

-- The tables of `lettuce_mmu_init`: `kernel_l2_device`, and those of the three domains
unfoldable pub init_l2_device : Table ℕ → Table ℕ
init_l2_device t =
    update (update (zeroed t) (l2_index gic_pa) (device_block_descriptor gic_pa)) (l2_index uart_pa)
      (device_block_descriptor uart_pa)

-- `.private_va` and `.stack_va` of `arch_domains[k]`
abbrev pub private_va : ℕ → ℕ
private_va k = if k == 0 then private_a_va else if k == 1 then private_b_va else private_c_va

abbrev pub stack_va : ℕ → ℕ
stack_va k =
    if k == 0 then domain_a_stack_va else if k == 1 then domain_b_stack_va else domain_c_stack_va

-- `PRIVATE_A_PA`, which is no array: `domain_a_private_page` is mapped nowhere.
abbrev pub private_a_pa : ℕ
private_a_pa = 0x41000000

-- `PRIVATE_A_PA`, `PRIVATE_B_PA` and `PRIVATE_C_PA`
abbrev pub private_pa : Layout → ℕ → ℕ
private_pa lay k = if k == 0 then private_a_pa else lay.private_page k

-- The call for domain k: the read-only page is for domain A.
abbrev pub init_domain : Layout → ℕ → Tables → Tables
init_domain lay k t =
    init_domain_tables lay t (lay.l2 k) (lay.l3 k) (private_va k) (private_pa lay k) (stack_va k)
      (lay.stack_page k) (k == 0)

unfoldable pub init_tables : Layout → Table Tables → Table Tables
init_tables lay t = fill 3 (init_domain lay) t
