-- ===== src/Memory/Allocator/Valid.antt =====
-- The invariant of memory/allocator/fixed.c: active pages fall into whole, disjoint spans inside the
-- pool, whose pages all carry the same record.
use lettuce_os.Base.{
  ℕ, ◌+◌, ◌^◌, ◌≤◌, ◌<◌, ◌≡◌, ◌≢◌, ap, inl, inr, true, false, ◌&&◌, arith, fill_lem, lt→ltb, leb,
  ltb, Bool-cases,
}
use lettuce_os.Memory.Allocator.{
  Pages, Allocation, init, write_span, span_free, free_page, non_zero, total_pages,
}
use lettuce_os.Memory.Allocator.Span.{write_span_lem, span_free_sound}

pub record IsValid (t : Pages) : Type 0 where
  pub generation_pos : (i : ℕ) → i < total_pages → 0 < (t i).generation
  pub generation_lt : (i : ℕ) → i < total_pages → (t i).generation < 2 ^ 16
  pub inside :
      (i : ℕ)
      → i < total_pages
      → (t i).active ≡ true
      → ((t i).first_page ≤ i)
        × (i < (t i).first_page + (t i).page_count)
        × ((t i).first_page + (t i).page_count ≤ total_pages)
        × ((t i).domain ≢ 0)
  pub uniform :
      (i j : ℕ)
      → i < total_pages
      → (t i).active ≡ true
      → (t i).first_page ≤ j
      → j < (t i).first_page + (t i).page_count
      → t j ≡ t i

-- `lettuce_memory_init` establishes the invariant with every page free, and keeps each page's
-- generation unless it was 0.
pub init-IsValid :
    (t : Pages)
    → ((i : ℕ) → i < total_pages → (t i).generation < 2 ^ 16)
    → IsValid (init t)
      × ((i : ℕ) → i < total_pages → init t i ≡ free_page (non_zero (t i).generation))
unfolding init
init-IsValid t words = (
  record {
    generation_pos = λ i h. ground (arith, at i h);
    generation_lt = λ i h. ground (arith, at i h, words i h);
    inside = λ i h on. absurd (ground (arith, at i h));
    uniform = λ i j h on lo hi. absurd (ground (arith, at i h));
  },
  at,
)
  where
    at : (i : ℕ) → i < total_pages → init t i ≡ free_page (non_zero (t i).generation)
    at i h = rw (fill_lem total_pages _ t i, lt→ltb i total_pages h)

module _ {t : Pages} (v : IsValid t) (s n : ℕ) (a : Allocation) where
  -- Marking a free span with one record of its own
  pub taken-IsValid :
      s + n ≤ total_pages
      → span_free t s n ≡ true
      → (a.first_page ≡ s) × (a.page_count ≡ n) × (a.domain ≢ 0)
      → (0 < a.generation) × (a.generation < 2 ^ 16)
      → IsValid (write_span t s n a)
  taken-IsValid fits free own gen = record {
    generation_pos = λ i h. ground (arith, v.generation_pos i h, write_span_lem t s n a i);
    generation_lt = λ i h. ground (arith, v.generation_lt i h, write_span_lem t s n a i);
    inside = λ i h on. ground (arith, v.inside i h, write_span_lem t s n a i);
    uniform = λ i j h on lo hi. elim (Bool-cases (leb s i && ltb i (s + n))) [
      | inl new ↦ ground (arith, write_span_lem t s n a i, write_span_lem t s n a j)
      | inr old ↦
          let kept : write_span t s n a i ≡ t i = ground (arith, write_span_lem t s n a i) in
          let same : t j ≡ t i = v.uniform i j h (ground arith) (ground arith) (ground arith) in
          ground (
            arith,
            span_free_sound t s n j free,
            ap (λ p. p.active) same,
            ap (λ p. p.active) kept,
            write_span_lem t s n a j,
          )
    ];
  }

  -- Freeing a whole span
  pub given_back-IsValid :
      s < total_pages
      → (t s).active ≡ true
      → (t s).first_page ≡ s
      → (t s).page_count ≡ n
      → (a.active ≡ false) × (0 < a.generation) × (a.generation < 2 ^ 16)
      → IsValid (write_span t s n a)
  given_back-IsValid h on head count own = record {
    generation_pos = λ i hi. ground (arith, v.generation_pos i hi, write_span_lem t s n a i);
    generation_lt = λ i hi. ground (arith, v.generation_lt i hi, write_span_lem t s n a i);
    inside = λ i hi on'. ground (arith, v.inside i hi, write_span_lem t s n a i);
    uniform = λ i j hi on' lo hj. elim (Bool-cases (leb s i && ltb i (s + n))) [
      | inl freed ↦ absurd (ground (arith, write_span_lem t s n a i))
      | inr old ↦
          let kept : write_span t s n a i ≡ t i = ground (arith, write_span_lem t s n a i) in
          let same : t j ≡ t i = v.uniform i j hi (ground arith) (ground arith) (ground arith) in
          -- a page of the freed span carries the record of its head, and so would i
          ground (arith, v.uniform s j h on, v.inside i hi, write_span_lem t s n a j)
    ];
  }
