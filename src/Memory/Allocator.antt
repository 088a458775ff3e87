-- ===== src/Memory/Allocator.antt =====
-- memory/allocator/fixed.c: a pool of 64 pages, with one allocation record for each page.
pub mod Valid
pub mod Span
pub mod Calls
pub mod Handles
pub mod Release
use lettuce_os.Base.{
  ℕ, zero, suc, ◌+◌, ◌-◌, ◌*◌, ◌/◌, ◌%◌, ◌^◌, Bool, true, false, ◌&&◌, ◌||◌, not, Option, none,
  some, Table, update, fill, ltb, leb, ◌==◌, ◌/=◌, if◌then◌else◌,
}
use lettuce_os.Abi.{
  Status, ok, invalid_argument, not_found, denied, unavailable, overflow, domain_id_invalid,
}

abbrev pub page_size : ℕ
page_size = 4096

-- The number of entries of `allocations`, `LETTUCE_MEMORY_POOL_SIZE / LETTUCE_MEMORY_PAGE_SIZE`
abbrev pub total_pages : ℕ
total_pages = 64

abbrev pub u16_max : ℕ
u16_max = 2 ^ 16 - 1

-- `Allocation`, without its padding
pub record Allocation : Type 0 where
  pub first_page : ℕ
  pub page_count : ℕ
  pub domain : ℕ
  pub generation : ℕ
  pub active : Bool

abbrev pub Pages : Type 0
Pages = Table Allocation

-- `(Allocation){.generation = generation}`
abbrev pub free_page : ℕ → Allocation
free_page generation = record {
  first_page = 0;
  page_count = 0;
  domain = 0;
  generation = generation;
  active = false;
}

-- `generation << 16 | (start + 1)`: a page number is below 64, so the halves do not overlap.
unfoldable pub make_handle : ℕ → ℕ → ℕ
make_handle start generation = generation * 2 ^ 16 + (start + 1)

-- The first page and the generation of a handle
unfoldable pub decode_handle : ℕ → Option (ℕ × ℕ)
decode_handle handle =
    let first_page = handle % 2 ^ 16 - 1 in
    if handle == 0 || handle % 2 ^ 16 == 0
    then none
    else if ltb first_page total_pages
    then some (first_page, handle / 2 ^ 16)
    else none

-- `gen == 0u ? 1u : gen`
abbrev pub non_zero : ℕ → ℕ
non_zero g = if g == 0 then 1 else g

unfoldable pub init : Pages → Pages
init t = fill total_pages (λ i a. free_page (non_zero a.generation)) t

-- The inner loop of `allocate`: is none of the n pages from `start` on active?
unfoldable pub span_free : Pages → ℕ → ℕ → Bool
span_free t start zero = true
span_free t start (suc n) = not (t start).active && span_free t (suc start) n

-- The outer loop of `allocate`, from `start` on: the first free span
unfoldable pub find_span : ℕ → Pages → ℕ → ℕ → Option ℕ
find_span zero t pages start = none
find_span (suc fuel) t pages start =
    let rest = find_span fuel t pages (start + 1) in
    if leb (start + pages) total_pages
    then (if span_free t start pages then some start else rest)
    else none

-- `for (page = 0; page < n; ++page) allocations[start + page] = a;`
unfoldable pub write_span : Pages → ℕ → ℕ → Allocation → Pages
write_span t start zero a = t
write_span t start (suc n) a = update (write_span t start n a) (start + n) a

-- `(size + LETTUCE_MEMORY_PAGE_SIZE - 1u) / LETTUCE_MEMORY_PAGE_SIZE`, in a 64-bit `size_t`
unfoldable pub pages_for : ℕ → ℕ
pages_for size = ((size + page_size - 1) % 2 ^ 64) / page_size

-- The rest of `allocate` when the span has been looked for
unfoldable pub allocate_at : Pages → ℕ → ℕ → Option ℕ → Status × Option ℕ × Pages
allocate_at t domain pages none = (unavailable, none, t)
allocate_at t domain pages (some start) =
    let gen = non_zero (t start).generation in
    let alloc : Allocation = record {
      first_page = start % 2 ^ 16;
      page_count = pages % 2 ^ 16;
      domain = domain;
      generation = gen;
      active = true;
    } in
    (ok, some (make_handle start gen), write_span t start pages alloc)

-- `lettuce_memory_allocate`: the status, what is written through `handle`, and the pages. The last
-- argument says whether `handle` is not NULL. There are at most 64 starts, so the fuel suffices.
unfoldable pub allocate : Pages → ℕ → ℕ → Bool → Status × Option ℕ × Pages
allocate t domain size given =
    let pages = pages_for size in
    if domain == domain_id_invalid || size == 0 || not given
    then (invalid_argument, none, t)
    else if ltb u16_max pages
    then (overflow, none, t)
    else allocate_at t domain pages (find_span (suc total_pages) t pages 0)

-- `(uint16_t)(generation + 1u)`, and 1 in place of 0
unfoldable pub next_generation : ℕ → ℕ
next_generation g = non_zero ((g + 1) % 2 ^ 16)

unfoldable pub release_page : Pages → ℕ → Option (ℕ × ℕ) → Status × Pages
release_page t domain none = (invalid_argument, t)
release_page t domain (some (start, generation)) =
    let a = t start in
    if not a.active || a.generation /= generation
    then (not_found, t)
    else if a.first_page /= start
    then (not_found, t)
    else if a.domain /= domain
    then (denied, t)
    else (ok, write_span t start a.page_count (free_page (next_generation a.generation)))

unfoldable pub release : Pages → ℕ → ℕ → Status × Pages
release t handle domain =
    if domain == domain_id_invalid
    then (invalid_argument, t)
    else release_page t domain (decode_handle handle)

unfoldable pub page_offset : Pages → ℕ → Option (ℕ × ℕ) → Option ℕ
page_offset t domain none = none
page_offset t domain (some (start, generation)) =
    let a = t start in
    if not a.active || a.generation /= generation
    then none
    else if a.first_page /= start
    then none
    else if a.domain /= domain
    then none
    else some (start * page_size)

-- `lettuce_memory_data`: the offset of the pointer into `memory_pool`, `none` for NULL
unfoldable pub offset : Pages → ℕ → ℕ → Option ℕ
offset t handle domain =
    if domain == domain_id_invalid then none else page_offset t domain (decode_handle handle)
