-- ===== src/Memory/Allocator/Handles.antt =====
-- memory/allocator/fixed.c seen through its handles: what `lettuce_memory_data` gives before and
-- after the other calls.
use lettuce_os.Base.{
  ℕ, ◌+◌, ◌*◌, ◌^◌, ◌≤◌, ◌<◌, ◌≡◌, ◌≢◌, refl, sym, subst, ap, ◌∙◌, ◌⊎◌, inl, inr, ◌↔◌, Bool, true,
  Option, none, some, arith,
}
use lettuce_os.Abi.{Status, ok}
use lettuce_os.Memory.Allocator.{
  Pages, Allocation, allocate, make_handle, decode_handle, write_span, offset, page_offset,
  page_size, span_free, non_zero, total_pages, pages_for,
}
use lettuce_os.Memory.Allocator.Span.{write_span_lem, span_free_sound}
use lettuce_os.Memory.Allocator.Valid.{IsValid}
use lettuce_os.Memory.Allocator.Calls.{
  decode_handle-make_handle, make_handle-decode_handle, allocate-Allocates, record_of,
}

-- The handle is that of the allocation headed by page s, which the domain owns.
pub record Heads (t : Pages) (handle domain s : ℕ) : Type 0 where
  pub in_table : s < total_pages
  pub decodes : decode_handle handle ≡ some (s, (t s).generation)
  pub active : (t s).active ≡ true
  pub head : (t s).first_page ≡ s
  pub owner : (t s).domain ≡ domain
  pub owned : domain ≢ 0

module _ (t : Pages) (handle domain : ℕ) where
  page_offset-Heads :
      (d : Option (ℕ × ℕ)) (o : ℕ)
      → decode_handle handle ≡ d
      → domain ≢ 0
      → page_offset t domain d ≡ some o
      → (s : ℕ) × Heads t handle domain s × (o ≡ s * page_size)
  unfolding page_offset
  page_offset-Heads none o e own h = absurd (ground arith)
  page_offset-Heads (some (s, g)) o e own h =
      let lt = (make_handle-decode_handle handle s g e).1 in
      let same : (t s).generation ≡ g = ground arith in (s, ground arith, ground arith)

  -- A pointer is given exactly for the handle of an allocation of the domain: to its first page.
  pub offset_iff :
      (o : ℕ)
      → (offset t handle domain ≡ some o)
        ↔ ((s : ℕ) × Heads t handle domain s × (o ≡ s * page_size))
  unfolding offset page_offset
  offset_iff o = (
    λ h. page_offset-Heads (decode_handle handle) o refl (ground arith) (ground arith),
    λ (s, at, e). ground (arith, at),
  )

  pub Heads-unique : {a b : ℕ} → Heads t handle domain a → Heads t handle domain b → a ≡ b
  Heads-unique p q = ground (arith, p.decodes, q.decodes)

-- The pages of two allocations with different heads do not meet.
abbrev pub Apart : ℕ → ℕ → ℕ → ℕ → Type 0
Apart a n b m = (a + n ≤ b) ⊎ (b + m ≤ a)

module _ {t : Pages} (v : IsValid t) {handle domain s : ℕ} (at : Heads t handle domain s) where
  -- An allocation does not meet a free span that is not empty.
  Heads-Apart : (b m : ℕ) → 0 < m → span_free t b m ≡ true → Apart s (t s).page_count b m
  Heads-Apart b m pos free = ground (
    arith,
    at,
    span_free_sound t b m s free,
    span_free_sound t b m b free,
    v.uniform s b at.in_table at.active,
  )

  -- Two allocations do not meet.
  pub Heads-Heads-Apart :
      {handle' domain' b : ℕ}
      → Heads t handle' domain' b
      → b ≢ s
      → Apart b (t b).page_count s (t s).page_count
  Heads-Heads-Apart {b = b} other ne = ground (
    arith,
    at,
    other,
    v.uniform s b at.in_table at.active,
    v.uniform b s other.in_table other.active,
  )

  -- A span written apart from an allocation leaves the allocation alone.
  pub Heads-kept :
      (b m : ℕ) (a : Allocation)
      → Apart s (t s).page_count b m
      → Heads (write_span t b m a) handle domain s
  Heads-kept b m a apart =
      ground (arith, at, v.inside s at.in_table at.active, write_span_lem t b m a s)

-- What a new allocation headed by page s owes its caller and the others: its domain has its pages,
-- and every handle that was good stays good, for the same pages, which lie apart from the new ones.
abbrev pub IsNew : Pages → ℕ → ℕ → ℕ → ℕ → Pages → Type 0
IsNew t domain handle s n t' =
    Heads t' handle domain s
    × ((t' s).page_count ≡ n)
    × (s + n ≤ total_pages)
    × ((handle' domain' s' : ℕ)
        → Heads t handle' domain' s'
        → Heads t' handle' domain' s' × (t' s' ≡ t s') × Apart s' (t s').page_count s n)

write_span-IsNew :
    {t : Pages} (domain s n : ℕ)
    → IsValid t
    → domain ≢ 0
    → 0 < n
    → s + n ≤ total_pages
    → span_free t s n ≡ true
    → IsNew t domain
        (make_handle s (non_zero (t s).generation))
        s
        n
        (write_span t s n (record_of t domain s n))
write_span-IsNew {t} domain s n v hd pos fits free = (own, count, fits, others)
  where
    new : Pages
    new = write_span t s n (record_of t domain s n)

    here : new s ≡ record_of t domain s n
    here = ground (arith, write_span_lem t s n (record_of t domain s n) s)

    count : (new s).page_count ≡ n
    count = ap (λ a. a.page_count) here

    own : Heads new (make_handle s (non_zero (t s).generation)) domain s
    own = record {
      in_table = omega arith;
      decodes = rw here (decode_handle-make_handle s (non_zero (t s).generation) (omega arith));
      active = ap (λ a. a.active) here;
      head = ap (λ a. a.first_page) here;
      owner = ap (λ a. a.domain) here;
      owned = hd;
    }

    others :
        (handle' domain' s' : ℕ)
        → Heads t handle' domain' s'
        → Heads new handle' domain' s' × (new s' ≡ t s') × Apart s' (t s').page_count s n
    others handle' domain' s' at =
        let apart = Heads-Apart v at s n pos free in
        (
          Heads-kept v at s n (record_of t domain s n) apart,
          ground (
            arith,
            v.inside s' at.in_table at.active,
            at,
            write_span_lem t s n (record_of t domain s n) s',
          ),
          apart,
        )

allocate-asked :
    (t : Pages) (domain size : ℕ) (given : Bool)
    → (allocate t domain size given).0 ≡ ok
    → (domain ≢ 0) × (size ≢ 0) × (given ≡ true)
unfolding allocate
allocate-asked t domain size given e = ground arith

-- A successful `lettuce_memory_allocate` whose size does not wrap gives the handle of a new
-- allocation of enough pages for the size: the domain has those pages inside the pool, and every
-- handle that was good stays good, for the same pages, which lie apart from the new ones.
pub allocate_lem :
    {t : Pages} (domain size handle : ℕ) (t' : Pages)
    → IsValid t
    → size + page_size ≤ 2 ^ 64
    → allocate t domain size true ≡ (ok, some handle, t')
    → (s n : ℕ) × (size ≤ n * page_size)
      × (n * page_size < size + page_size)
      × IsNew t domain handle s n t'
allocate_lem {t} domain size handle t' v fits e =
    let (hd, hs, _) = allocate-asked t domain size true (ap (λ o. o.0) e) in
    elim (allocate-Allocates t domain size hd hs) [
      | inl (_, out) ↦ absurd (ground arith)
      | inr (_, inl (_, out)) ↦ absurd (ground arith)
      | inr (_, inr (s, room, free, _, made)) ↦ (
        s,
        pages_for size,
        unfold pages_for in omega arith,
        unfold pages_for in omega arith,
        subst (λ (o : Status × Option ℕ × Pages). Made s o) (sym made ∙ e)
            (write_span-IsNew domain s (pages_for size) v hd (unfold pages_for in omega arith) room
              free),
      )
    ]
  where
    Made : ℕ → Status × Option ℕ × Pages → Type 0
    Made s (c, none, q) = ⊥
    Made s (c, some h, q) = IsNew t domain h s (pages_for size) q
