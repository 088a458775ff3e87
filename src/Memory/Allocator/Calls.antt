-- ===== src/Memory/Allocator/Calls.antt =====
-- What the calls of memory/allocator/fixed.c do to the pages and to the handles that are out.
use lettuce_os.Base.{
  ℕ, zero, suc, not, ◌+◌, ◌%◌, ◌^◌, ◌≤◌, ◌<◌, ◌≡◌, ◌≢◌, refl, sym, subst, ◌⊎◌, inl, inr, Bool, true,
  false, ◌||◌, Option, none, some, arith, ltb, ◌==◌, Bool-cases,
}
use lettuce_os.Abi.{Status, ok, unavailable, overflow, invalid_argument, domain_id_invalid}
use lettuce_os.Memory.Allocator.{
  Pages, Allocation, allocate, allocate_at, make_handle, decode_handle, write_span, span_free,
  find_span, non_zero, total_pages, pages_for, u16_max,
}
use lettuce_os.Memory.Allocator.Span.{find_span_sound, find_span_complete}
use lettuce_os.Memory.Allocator.Valid.{IsValid, taken-IsValid}

pub decode_handle-make_handle :
    (start generation : ℕ)
    → start < total_pages
    → decode_handle (make_handle start generation) ≡ some (start, generation)
unfolding decode_handle make_handle
decode_handle-make_handle start generation h = ground arith

pub make_handle-decode_handle :
    (handle start generation : ℕ)
    → decode_handle handle ≡ some (start, generation)
    → (handle ≡ make_handle start generation) × (start < total_pages)
unfolding decode_handle make_handle
make_handle-decode_handle handle start generation h = ground arith

-- The record of a new allocation
abbrev pub record_of : Pages → ℕ → ℕ → ℕ → Allocation
record_of t domain s n = record {
  first_page = s;
  page_count = n;
  domain = domain;
  generation = non_zero (t s).generation;
  active = true;
}

-- What an acceptable request for n pages leads to: no room, although every span was tried, or the
-- first free span.
abbrev pub Allocates : Pages → ℕ → ℕ → Status × Option ℕ × Pages → Type 0
Allocates t domain n out =
    (((i : ℕ) → i + n ≤ total_pages → span_free t i n ≡ false) × (out ≡ (unavailable, none, t)))
    ⊎ ((s : ℕ) × (s + n ≤ total_pages)
        × (span_free t s n ≡ true)
        × ((i : ℕ) → i < s → span_free t i n ≡ false)
        × (out ≡ (
          ok,
          some (make_handle s (non_zero (t s).generation)),
          write_span t s n (record_of t domain s n),
        )))

module _ (t : Pages) (domain : ℕ) where
  allocate_at-Allocates :
      (n : ℕ) (o : Option ℕ)
      → find_span (suc total_pages) t n 0 ≡ o
      → n < 2 ^ 16
      → Allocates t domain n (allocate_at t domain n o)
  unfolding allocate_at
  allocate_at-Allocates n none e small = inl (
    λ i fits. find_span_complete (suc total_pages) t n 0 (omega arith) e i (omega arith) fits,
    refl,
  )
  allocate_at-Allocates n (some s) e small =
      let (lo, fits, free, first) = find_span_sound (suc total_pages) t n 0 e in
      let start_fits : s % 2 ^ 16 ≡ s = omega arith in
      let count_fits : n % 2 ^ 16 ≡ n = omega arith in
      inr (s, fits, free, λ i h. first i (omega arith) h, rw (start_fits, count_fits))

  -- `lettuce_memory_allocate` on an acceptable request: with too many pages it reports an overflow;
  -- else it takes the first free span of that many pages and returns the handle of its head, or, when
  -- every span has an active page, reports that and changes nothing.
  pub allocate-Allocates :
      (size : ℕ)
      → domain ≢ 0
      → size ≢ 0
      → ((u16_max < pages_for size) × (allocate t domain size true ≡ (overflow, none, t)))
        ⊎ ((pages_for size ≤ u16_max)
            × Allocates t domain (pages_for size) (allocate t domain size true))
  unfolding allocate
  allocate-Allocates size hd hs = elim (Bool-cases (ltb u16_max (pages_for size))) [
    | inl big ↦ inl (ground arith, ground arith)
    | inr fits ↦
        let accepted : allocate t domain size true
            ≡ allocate_at t domain (pages_for size)
                (find_span (suc total_pages) t (pages_for size) 0) =
          ground arith in
        inr (
          ground arith,
          subst (Allocates t domain (pages_for size)) (sym accepted)
              (allocate_at-Allocates (pages_for size) _ refl (ground arith)),
        )
  ]

  allocate-refused :
      (size : ℕ) (given : Bool)
      → (domain == domain_id_invalid || size == 0 || not given) ≡ true
      → allocate t domain size given ≡ (invalid_argument, none, t)
  unfolding allocate
  allocate-refused size given h = ground arith

  allocate-given :
      (size : ℕ) (given : Bool)
      → (domain == domain_id_invalid || size == 0 || not given) ≡ false
      → (domain ≢ 0) × (size ≢ 0) × (given ≡ true)
  allocate-given size given h = ground arith

  -- The first free span starts in the table, also when it is empty.
  first_free_lt :
      (s n : ℕ)
      → s + n ≤ total_pages
      → ((i : ℕ) → i < s → span_free t i n ≡ false)
      → s < total_pages
  unfolding span_free
  first_free_lt s (suc n) fits first = omega arith
  first_free_lt zero zero fits first = omega arith
  first_free_lt (suc s) zero fits first = absurd (ground (arith, first 0 (omega arith)))

module _ {t : Pages} (v : IsValid t) where
  Allocates-IsValid :
      (domain n : ℕ) (out : Status × Option ℕ × Pages)
      → domain ≢ 0
      → Allocates t domain n out
      → IsValid out.2
  Allocates-IsValid domain n out hd (inl (_, e)) = rw e v
  Allocates-IsValid domain n out hd (inr (s, fits, free, first, e)) = rw e (
      taken-IsValid v s n _ fits free (refl, refl, hd)
        (ground arith, ground (arith, v.generation_lt s (first_free_lt t domain s n fits first))))

  pub allocate-IsValid : (domain size : ℕ) (given : Bool) → IsValid (allocate t domain size given).2
  allocate-IsValid domain size given =
      elim (Bool-cases (domain == domain_id_invalid || size == 0 || not given)) [
        | inl bad ↦ rw (allocate-refused t domain size given bad) v
        | inr good ↦
            let (hd, hs, hg) = allocate-given t domain size given good in
            rw hg (elim (allocate-Allocates t domain size hd hs) [
              | inl (_, e) ↦ rw e v
              | inr (_, out) ↦ Allocates-IsValid domain (pages_for size) _ hd out
            ])
      ]
