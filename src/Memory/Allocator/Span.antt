-- ===== src/Memory/Allocator/Span.antt =====
-- The loops of memory/allocator/fixed.c over spans of pages.
use lettuce_os.Base.{
  ℕ, zero, suc, ◌+◌, ◌≤◌, ◌<◌, ◌≡◌, refl, ap, inl, inr, true, false, ◌&&◌, none, some, arith, ltb,
  leb, ◌==◌, if◌then◌else◌, Bool-cases, ==→eq, ==→ne,
}
use lettuce_os.Memory.Allocator.{Pages, Allocation, span_free, find_span, write_span, total_pages}

-- Writing a span changes its pages and no other.
pub write_span_lem :
    (t : Pages) (start n : ℕ) (a : Allocation) (j : ℕ)
    → write_span t start n a j ≡ (if leb start j && ltb j (start + n) then a else t j)
unfolding write_span
write_span_lem t start zero a j = ground arith
write_span_lem t start (suc n) a j = ground (arith, write_span_lem t start n a j)

-- The inner loop says yes exactly when no page of the span is active.
pub span_free_sound :
    (t : Pages) (start n j : ℕ)
    → span_free t start n ≡ true
    → start ≤ j
    → j < start + n
    → (t j).active ≡ false
unfolding span_free
span_free_sound t start zero j h lo hi = absurd (omega arith)
span_free_sound t start (suc n) j h lo hi = ground (arith, span_free_sound t (suc start) n j)

pub span_free_complete :
    (t : Pages) (start n : ℕ)
    → ((j : ℕ) → start ≤ j → j < start + n → (t j).active ≡ false)
    → span_free t start n ≡ true
unfolding span_free
span_free_complete t start zero h = refl
span_free_complete t start (suc n) h = ground (
  arith,
  h start (omega arith) (omega arith),
  span_free_complete t (suc start) n (λ j lo hi. h j (omega arith) (omega arith)),
)

-- A span that is found lies in the table and is free, and no earlier one is.
pub find_span_sound :
    (fuel : ℕ) (t : Pages) (pages start : ℕ) {s : ℕ}
    → find_span fuel t pages start ≡ some s
    → (start ≤ s)
      × (s + pages ≤ total_pages)
      × (span_free t s pages ≡ true)
      × ((i : ℕ) → start ≤ i → i < s → span_free t i pages ≡ false)
unfolding find_span
find_span_sound zero t pages start h = absurd (ground arith)
find_span_sound (suc fuel) t pages start {s} h = elim (Bool-cases (span_free t start pages)) [
  | inl free ↦
      let here : (start ≡ s) × (start + pages ≤ total_pages) = ground arith in
      (
        omega arith,
        omega arith,
        ground (arith, ap (λ k. span_free t k pages) here.0),
        λ i lo hi. absurd (omega arith),
      )
  | inr busy ↦
      let later : find_span fuel t pages (start + 1) ≡ some s = ground arith in
      let (lo, fits, free, first) = find_span_sound fuel t pages (start + 1) later in
      (omega arith, fits, free, λ i lo' hi. not_before i busy lo' (first i) hi)
]
  where
    not_before :
        (i : ℕ)
        → span_free t start pages ≡ false
        → start ≤ i
        → (start + 1 ≤ i → i < s → span_free t i pages ≡ false)
        → i < s
        → span_free t i pages ≡ false
    not_before i busy lo later hi = elim (Bool-cases (i == start)) [
      | inl here ↦ rw (==→eq i start here) busy
      | inr there ↦ later (omega (arith, ==→ne i start there)) hi
    ]

-- With enough fuel for the starts that are left, no span is missed.
pub find_span_complete :
    (fuel : ℕ) (t : Pages) (pages start : ℕ)
    → total_pages < start + fuel
    → find_span fuel t pages start ≡ none
    → (i : ℕ) → start ≤ i
    → i + pages ≤ total_pages
    → span_free t i pages ≡ false
unfolding find_span
find_span_complete zero t pages start f h i lo hi = absurd (omega arith)
find_span_complete (suc fuel) t pages start f h i lo hi = elim (Bool-cases (i == start)) [
  | inl here ↦ rw (==→eq i start here) (ground arith)
  | inr later ↦
      let next : start + 1 ≤ i = ground arith in
      let rest : find_span fuel t pages (start + 1) ≡ none = ground arith in
      find_span_complete fuel t pages (start + 1) (omega arith) rest i next hi
]
