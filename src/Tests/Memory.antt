-- ===== src/Tests/Memory.antt =====
-- memory/allocator/fixed.c at a pool in which domain 1 has two pages, with the handle 65537.
use lettuce_os.Base.{
  ℕ, ◌+◌, ◌*◌, ◌^◌, ◌≤◌, ◌<◌, ◌≡◌, ◌≢◌, refl, subst, true, none, some, fill, arith,
}
use lettuce_os.Abi.{ok, overflow}
use lettuce_os.Memory.Allocator.{
  Pages, free_page, init, allocate, allocate_at, release, release_page, make_handle, decode_handle,
  write_span, offset, page_offset, page_size, span_free, find_span, next_generation, pages_for,
}
use lettuce_os.Memory.Allocator.Valid.{IsValid, init-IsValid}
use lettuce_os.Memory.Allocator.Calls.{allocate-IsValid}
use lettuce_os.Memory.Allocator.Handles.{Heads, offset_iff, IsNew, allocate_lem}
use lettuce_os.Memory.Allocator.Release.{release_lem}

abbrev fresh : Pages
fresh = init (λ i. free_page 0)

fresh-IsValid : IsValid fresh
fresh-IsValid = (init-IsValid (λ i. free_page 0) (λ i h. omega arith)).0

abbrev two_pages : Pages
two_pages = (allocate fresh 1 5000 true).2

two_pages-IsValid : IsValid two_pages
two_pages-IsValid = allocate-IsValid fresh-IsValid 1 5000 true

allocated : allocate fresh 1 5000 true ≡ (ok, some 65537, two_pages)
unfolding allocate allocate_at find_span span_free pages_for make_handle init fill write_span
allocated = refl

readable : offset two_pages 65537 1 ≡ some 0
unfolding offset page_offset decode_handle allocate allocate_at find_span span_free pages_for
    make_handle init fill write_span
readable = refl

other_domain : offset two_pages 65537 2 ≡ none
unfolding offset page_offset decode_handle allocate allocate_at find_span span_free pages_for
    make_handle init fill write_span
other_domain = refl

too_large : (allocate fresh 1 (2 ^ 40) true).0 ≡ overflow
unfolding allocate pages_for
too_large = refl

offset-Heads : (s : ℕ) × Heads two_pages 65537 1 s × (0 ≡ s * page_size)
offset-Heads = (offset_iff two_pages 65537 1 0).0 readable

Heads-zero : Heads two_pages 65537 1 0
Heads-zero =
    (let (s, at, e) = offset-Heads in subst (λ i. Heads two_pages 65537 1 i) (omega arith) at)

allocate_lem_example :
    (s n : ℕ) × (5000 ≤ n * page_size)
    × (n * page_size < 5000 + page_size)
    × IsNew fresh 1 65537 s n two_pages
allocate_lem_example = allocate_lem 1 5000 65537 two_pages fresh-IsValid (omega arith) allocated

release_lem_example :
    let (status, t') = release two_pages 65537 1 in
    (status ≡ ok)
    × ((j : ℕ)
        → 0 ≤ j
        → j < 0 + (two_pages 0).page_count
        → t' j ≡ free_page (next_generation (two_pages 0).generation))
    × ((d s' : ℕ) → ¬ Heads t' 65537 d s')
    × ((handle' domain' s' : ℕ)
        → s' ≢ 0
        → Heads two_pages handle' domain' s'
        → Heads t' handle' domain' s' × (t' s' ≡ two_pages s'))
release_lem_example = release_lem two_pages 65537 1 0 two_pages-IsValid Heads-zero

-- Behind page 0, page 1 is taken and freed three times, so its generation is 4 and its handle of
-- generation 3 is stale. Page 0 is freed, with generation 2; a span of both pages takes that
-- generation, and when it is freed both have generation 3: the next allocation of page 1 is given
-- the stale handle, with which domain 2 was left.
abbrev page : ℕ → ℕ → Pages → Pages
page domain size t = (allocate t domain size true).2

abbrev freed : ℕ → ℕ → Pages → Pages
freed handle domain t = (release t handle domain).1

abbrev stale_handle : ℕ
stale_handle = 196610

abbrev page_one_thrice : Pages
page_one_thrice = page 2 1 (freed 131074 2 (page 2 1 (freed 65538 2 (page 2 1 (page 1 1 fresh)))))

abbrev before : Pages
before = freed 65537 1 (freed stale_handle 2 page_one_thrice)

abbrev after : Pages
after = page 2 1 (page 2 1 (freed 131073 3 (page 3 8192 before)))

was_good : offset page_one_thrice stale_handle 2 ≡ some 4096
unfolding offset page_offset decode_handle allocate allocate_at find_span span_free pages_for
    make_handle init fill write_span release release_page next_generation
was_good = refl

became_stale : offset before stale_handle 2 ≡ none
unfolding offset page_offset decode_handle allocate allocate_at find_span span_free pages_for
    make_handle init fill write_span release release_page next_generation
became_stale = refl

good_again : offset after stale_handle 2 ≡ some 4096
unfolding offset page_offset decode_handle allocate allocate_at find_span span_free pages_for
    make_handle init fill write_span release release_page next_generation
good_again = refl
