-- ===== src/Arch/Demo/Sort.antt =====
-- kernel/arch/arm64/main.c: the sort of the benchmark samples.
use lettuce_os.Base.{
  ℕ, zero, suc, ◌+◌, ◌-◌, ◌≤◌, ◌<◌, ◌≡◌, ◌≢◌, refl, ap, ◌∙◌, inl, inr, Table, update, arith, ltb,
  Bool-cases, ◌==◌,
}
use lettuce_os.Arch.Demo.{insert_at, sort_from, sort, bench_samples}

-- The sum of a weight over the first n samples
unfoldable pub total : (ℕ → ℕ) → Table ℕ → ℕ → ℕ
total f t zero = 0
total f t (suc n) = total f t n + f (t n)

-- The samples from the first to the one before n never fall.
abbrev pub Ordered : Table ℕ → ℕ → Type 0
Ordered t n = (k : ℕ) → suc k < n → t k ≤ t (suc k)

pub Ordered-le : (t : Table ℕ) (n i j : ℕ) → Ordered t n → i ≤ j → j < n → t i ≤ t j
Ordered-le t n i zero o h lt = let e : i ≡ 0 = omega arith in rw e (omega arith)
Ordered-le t n i (suc j) o h lt = elim (Bool-cases (i == suc j)) [
  | inl e ↦ ground arith
  | inr e ↦ omega (arith, Ordered-le t n i j o (ground arith) (omega arith), o j lt)
]

total_congr :
    (f : ℕ → ℕ) (t u : Table ℕ) (n : ℕ) → ((k : ℕ) → k < n → t k ≡ u k) → total f t n ≡ total f u n
unfolding total
total_congr f t u zero h = refl
total_congr f t u (suc n) h =
    rw (total_congr f t u n (λ k l. h k (omega arith)), h n (omega arith)) refl

-- Two neighbours exchanged
total-swap :
    (f : ℕ → ℕ) (t u : Table ℕ) (j n : ℕ)
    → u j ≡ t (suc j)
    → u (suc j) ≡ t j
    → ((k : ℕ) → k ≢ j → k ≢ suc j → u k ≡ t k)
    → suc j < n
    → total f u n ≡ total f t n
unfolding total
total-swap f t u j zero a b same h = absurd (omega arith)
total-swap f t u j (suc zero) a b same h = absurd (omega arith)
total-swap f t u j (suc (suc n)) a b same h = elim (Bool-cases (n == j)) [
  | inl e ↦
      let at : n ≡ j = ground arith in
      rw (at, a, b, total_congr f u t j (λ k l. same k (omega arith) (omega arith))) (omega arith)
  | inr e ↦
      let at : n ≢ j = ground arith in
      let rest : total f u (suc n) ≡ total f t (suc n) =
        total-swap f t u j (suc n) a b same (omega arith) in
      rw (same (suc n) (omega arith) (omega arith)) (ap (λ c. c + f (t (suc n))) rest)
]

-- The inner loop leaves the samples that its array holds once `key` is in the place j.
total-insert_at :
    (f : ℕ → ℕ) (t : Table ℕ) (key j n : ℕ)
    → j < n
    → total f (insert_at t key j) n ≡ total f (update t j key) n
unfolding insert_at
total-insert_at f t key zero n h = refl
total-insert_at f t key (suc j) n h = elim (Bool-cases (ltb key (t j))) [
  | inr small ↦ rw small refl
  | inl more ↦ rw more (
      total-insert_at f (update t (suc j) (t j)) key j n (omega arith)
      ∙ total-swap f (update t (suc j) key) (update (update t (suc j) (t j)) j key) j n
          (ground arith) (ground arith) (λ k a b. ground arith) h)
]

-- The samples up to i, with the place j free for `key`
record HasRoom (t : Table ℕ) (key j i : ℕ) : Type 0 where
  before : (k : ℕ) → suc k < j → t k ≤ t (suc k)
  after : (k : ℕ) → j < k → suc k < i → t k ≤ t (suc k)
  across : (k : ℕ) → suc k ≡ j → suc j < i → t k ≤ t (suc j)
  below : suc j < i → key ≤ t (suc j)

insert_at-Ordered :
    (t : Table ℕ) (key j i : ℕ) → j < i → HasRoom t key j i → Ordered (insert_at t key j) i
unfolding insert_at
insert_at-Ordered t key zero i h v = λ k lt. elim (Bool-cases (k == 0)) [
  | inl e ↦ let at : k ≡ 0 = ground arith in rw at (ground (arith, v.below (omega arith)))
  | inr e ↦ ground (arith, v.after k (ground arith) lt)
]
insert_at-Ordered t key (suc j) i h v = elim (Bool-cases (ltb key (t j))) [
  | inl more ↦ rw more (
      insert_at-Ordered (update t (suc j) (t j)) key j i (omega arith) (record {
        before = λ k l. ground (arith, v.before k (omega arith));
        after = λ k l m. elim (Bool-cases (k == suc j)) [
          | inl e ↦ ground (arith, v.across j refl)
          | inr e ↦ ground (arith, v.after k)
        ];
        across = λ k e l. ground (arith, v.before k (omega arith));
        below = λ l. ground arith;
      }))
  | inr small ↦ rw small λ k lt. elim (Bool-cases (k == j)) [
    | inl e ↦ ground arith
    | inr e ↦ elim (Bool-cases (k == suc j)) [
      | inl f ↦ let at : k ≡ suc j = ground arith in rw at (ground (arith, v.below))
      | inr f ↦ ground (arith, v.before k, v.after k)
    ]
  ]
]

sort_from-Ordered : (t : Table ℕ) (n i : ℕ) → Ordered t i → Ordered (sort_from t n i) (i + n)
unfolding sort_from
sort_from-Ordered t zero i o k lt = o k (omega arith)
sort_from-Ordered t (suc n) i o k lt =
    sort_from-Ordered (insert_at t (t i) i) n (suc i)
      (insert_at-Ordered t (t i) i (suc i) (omega arith) (record {
        before = λ k l. o k l;
        after = λ k l m. absurd (omega arith);
        across = λ k e l. absurd (omega arith);
        below = λ l. absurd (omega arith);
      }))
      k (omega arith)

total-sort_from :
    (f : ℕ → ℕ) (t : Table ℕ) (n i m : ℕ) → i + n ≤ m → total f (sort_from t n i) m ≡ total f t m
unfolding sort_from
total-sort_from f t zero i m h = refl
total-sort_from f t (suc n) i m h =
    total-sort_from f (insert_at t (t i) i) n (suc i) m (omega arith)
    ∙ total-insert_at f t (t i) i m (omega arith)
    ∙ total_congr f (update t i (t i)) t m (λ k l. ground arith)

-- The sort leaves the samples in order, with the same sum of any weight as before.
pub sort_lem :
    (samples : Table ℕ)
    → Ordered (sort samples) bench_samples
      × ((f : ℕ → ℕ) → total f (sort samples) bench_samples ≡ total f samples bench_samples)
unfolding sort
sort_lem samples = (
  λ k lt. sort_from-Ordered samples (bench_samples - 1) 1 (λ k l. absurd (omega arith)) k lt,
  λ f. total-sort_from f samples (bench_samples - 1) 1 bench_samples (omega arith),
)
