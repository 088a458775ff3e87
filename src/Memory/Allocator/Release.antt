-- ===== src/Memory/Allocator/Release.antt =====
-- memory/allocator/fixed.c: what `lettuce_memory_release` frees, and what a wrapped size does.
use lettuce_os.Base.{
  ℕ, suc, ◌+◌, ◌^◌, ◌≤◌, ◌<◌, ◌≡◌, ◌≢◌, refl, sym, subst, ap, ◌∙◌, ◌⊎◌, inl, inr, Bool, true,
  Option, none, some, arith, ◌==◌, Bool-cases, ==→ne, ◌&&◌,
}
use lettuce_os.Abi.{Status, ok}
use lettuce_os.Memory.Allocator.{
  Pages, Allocation, allocate, allocate_at, release, release_page, make_handle, decode_handle,
  write_span, page_size, span_free, find_span, free_page, non_zero, next_generation, total_pages,
  pages_for,
}
use lettuce_os.Memory.Allocator.Span.{write_span_lem}
use lettuce_os.Memory.Allocator.Valid.{IsValid, given_back-IsValid}
use lettuce_os.Memory.Allocator.Calls.{make_handle-decode_handle, allocate-IsValid}
use lettuce_os.Memory.Allocator.Handles.{Heads, Heads-unique, Heads-kept, Heads-Heads-Apart}

next_generation_lem :
    (g : ℕ)
    → (0 < next_generation g) × (next_generation g < 2 ^ 16) × (g < 2 ^ 16 → next_generation g ≢ g)
unfolding next_generation
next_generation_lem g = (ground arith, ground arith, λ h. ground arith)

-- The pages after the allocation headed by page s is freed
abbrev pub freed : Pages → ℕ → Pages
freed t s = write_span t s (t s).page_count (free_page (next_generation (t s).generation))

module _ (t : Pages) (handle domain : ℕ) where
  release_page-cases :
      (d : Option (ℕ × ℕ))
      → decode_handle handle ≡ d
      → domain ≢ 0
      → (((release_page t domain d).0 ≢ ok) × ((release_page t domain d).1 ≡ t))
        ⊎ ((s : ℕ) × Heads t handle domain s × (release_page t domain d ≡ (ok, freed t s)))
  unfolding release_page
  release_page-cases none e own = inl (ground arith, refl)
  release_page-cases (some (s, g)) e own =
      elim (Bool-cases (
        (t s).active
        && ((t s).generation == g)
        && ((t s).first_page == s)
        && ((t s).domain == domain))) [
          | inl good ↦
              let lt = (make_handle-decode_handle handle s g e).1 in
              inr (s, ground arith, ground arith)
          | inr bad ↦ inl (ground arith, ground arith)
        ]

  -- `lettuce_memory_release` frees the allocation that the handle heads for the domain, or fails
  -- and changes nothing.
  pub release-cases :
      (((release t handle domain).0 ≢ ok) × ((release t handle domain).1 ≡ t))
      ⊎ ((s : ℕ) × Heads t handle domain s × (release t handle domain ≡ (ok, freed t s)))
  unfolding release
  release-cases = elim (Bool-cases (domain == 0)) [
    | inl z ↦ rw z (inl (ground arith, refl))
    | inr p ↦ rw p (release_page-cases (decode_handle handle) refl (==→ne _ _ p))
  ]

  release-ok : (s : ℕ) → Heads t handle domain s → (release t handle domain).0 ≡ ok
  unfolding release release_page
  release-ok s at = ground (arith, at)

  release-IsValid : IsValid t → IsValid (release t handle domain).1
  release-IsValid v = elim release-cases [
    | inl (_, e) ↦ rw e v
    | inr (s, at, e) ↦
        let n = next_generation_lem (t s).generation in
        rw e (given_back-IsValid v s _ _ at.in_table at.active at.head refl (refl, n.0, n.1))
  ]

  -- `lettuce_memory_allocate` and `lettuce_memory_release` keep the invariant, whatever they are
  -- given.
  pub allocate-release-IsValid :
      (size : ℕ) (given : Bool)
      → IsValid t
      → IsValid (allocate t domain size given).2 × IsValid (release t handle domain).1
  allocate-release-IsValid size given v = (allocate-IsValid v domain size given, release-IsValid v)

  -- Releasing a good handle of a valid pool succeeds: every page of the allocation is free, under
  -- the next generation of its first page; the handle is good for no domain; and every other handle
  -- that was good stays good for the same pages.
  pub release_lem :
      (s : ℕ)
      → IsValid t
      → Heads t handle domain s
      → let (status, t') = release t handle domain in
        (status ≡ ok)
        × ((j : ℕ)
            → s ≤ j
            → j < s + (t s).page_count
            → t' j ≡ free_page (next_generation (t s).generation))
        × ((d s' : ℕ) → ¬ Heads t' handle d s')
        × ((handle' domain' s' : ℕ)
            → s' ≢ s
            → Heads t handle' domain' s'
            → Heads t' handle' domain' s' × (t' s' ≡ t s'))
  release_lem s v at = subst Released (sym done) (refl, pages, stale, others)
    where
      Released : Status × Pages → Type 0
      Released (status, t') =
          (status ≡ ok)
          × ((j : ℕ)
              → s ≤ j
              → j < s + (t s).page_count
              → t' j ≡ free_page (next_generation (t s).generation))
          × ((d s' : ℕ) → ¬ Heads t' handle d s')
          × ((handle' domain' s' : ℕ)
              → s' ≢ s
              → Heads t handle' domain' s'
              → Heads t' handle' domain' s' × (t' s' ≡ t s'))

      done : release t handle domain ≡ (ok, freed t s)
      done = elim release-cases [
        | inl (fails, _) ↦ absurd (fails (release-ok s at))
        | inr (s', at', e) ↦ e ∙ ap (λ i. (ok, freed t i)) (Heads-unique t handle domain at' at)
      ]

      free : Allocation
      free = free_page (next_generation (t s).generation)

      pages : (j : ℕ) → s ≤ j → j < s + (t s).page_count → freed t s j ≡ free
      pages j lo hi = ground (arith, write_span_lem t s (t s).page_count free j)

      stale : (d s' : ℕ) → ¬ Heads (freed t s) handle d s'
      stale d s' h =
          ground (arith, h.decodes, at.decodes, h.active, v.inside s at.in_table at.active, pages s)

      others :
          (handle' domain' s' : ℕ)
          → s' ≢ s
          → Heads t handle' domain' s'
          → Heads (freed t s) handle' domain' s' × (freed t s s' ≡ t s')
      others handle' domain' s' ne h =
          let apart = Heads-Heads-Apart v at h ne in
          (
            Heads-kept v h s (t s).page_count free apart,
            ground (
              arith,
              h,
              v.inside s' h.in_table h.active,
              write_span_lem t s (t s).page_count free s',
            ),
          )

find_no_pages :
    (t : Pages) (domain : ℕ)
    → allocate_at t domain 0 (find_span (suc total_pages) t 0 0)
      ≡ (ok, some (make_handle 0 (non_zero (t 0).generation)), t)
unfolding allocate_at find_span span_free write_span
find_no_pages t domain = refl

-- A size within a page of 2^64 wraps round to no pages at all: the call succeeds without marking a
-- page, and returns the handle of page 0, whoever has that page.
pub allocate_wraps :
    (t : Pages) (domain size : ℕ)
    → domain ≢ 0
    → 2 ^ 64 < size + page_size
    → size < 2 ^ 64
    → allocate t domain size true ≡ (ok, some (make_handle 0 (non_zero (t 0).generation)), t)
unfolding allocate
allocate_wraps t domain size hd lo hi =
    let none_at_all : pages_for size ≡ 0 = unfold pages_for in omega arith in
    let accepted : allocate t domain size true
        ≡ allocate_at t domain (pages_for size) (find_span (suc total_pages) t (pages_for size) 0) =
      ground arith in
    accepted ∙ rw none_at_all (find_no_pages t domain)
