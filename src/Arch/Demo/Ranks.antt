-- ===== src/Arch/Demo/Ranks.antt =====
-- kernel/arch/arm64/main.c: what the figures of a benchmark say about its samples.
use lettuce_os.Base.{
  ℕ, zero, suc, ◌-◌, ◌*◌, ◌/◌, ◌%◌, ◌^◌, ◌≤◌, ◌<◌, ◌≡◌, inl, inr, Bool, true, false, Table, arith,
  ltb, leb, if◌then◌else◌, Bool-cases,
}
use lettuce_os.Arch.Demo.{sort, bench_samples, sum, figures, bench_stats}
use lettuce_os.Arch.Demo.Sort.{total, Ordered-le, sort_lem}

-- How many of the first n samples pass a test
unfoldable pub count : (ℕ → Bool) → Table ℕ → ℕ → ℕ
unfolding total
count p t n = total (λ x. if p x then 1 else 0) t n

-- The first m samples pass.
count_ge :
    (p : ℕ → Bool) (t : Table ℕ) (n m : ℕ)
    → m ≤ n
    → ((j : ℕ) → j < m → p (t j) ≡ true)
    → m ≤ count p t n
unfolding count total
count_ge p t zero m h all = omega arith
count_ge p t (suc n) m h all = elim (Bool-cases (leb m n)) [
  | inl e ↦ ground (arith, count_ge p t n m (ground arith) all)
  | inr e ↦
      let at : m ≡ suc n = ground arith in
      ground
        (arith, count_ge p t n n (omega arith) (λ j l. all j (omega arith)), all n (omega arith))
]

-- None from the sample m on passes.
count_le :
    (p : ℕ → Bool) (t : Table ℕ) (n m : ℕ)
    → ((j : ℕ) → m ≤ j → j < n → p (t j) ≡ false)
    → count p t n ≤ m
unfolding count total
count_le p t zero m all = omega arith
count_le p t (suc n) m all = elim (Bool-cases (leb m n)) [
  | inl e ↦
      ground (
        arith,
        count_le p t n m (λ j a b. all j a (omega arith)),
        all n (ground arith) (omega arith),
      )
  | inr e ↦ ground (arith, count_le p t n n (λ j a b. absurd (omega arith)))
]

count_size : (p : ℕ → Bool) (t : Table ℕ) (n : ℕ) → count p t n ≤ n
count_size p t n = count_le p t n n (λ j a b. absurd (omega arith))

-- All from the sample m on pass.
count_from :
    (p : ℕ → Bool) (t : Table ℕ) (n m : ℕ)
    → ((j : ℕ) → m ≤ j → j < n → p (t j) ≡ true)
    → n - m ≤ count p t n
unfolding count total
count_from p t zero m all = omega arith
count_from p t (suc n) m all = elim (Bool-cases (leb m n)) [
  | inl e ↦ ground (
    arith,
    count_from p t n m (λ j a b. all j a (omega arith)),
    all n (ground arith) (omega arith),
  )
  | inr e ↦ ground arith
]

-- Samples at most v, below v, and at least v
abbrev pub at_most : ℕ → Table ℕ → ℕ
at_most v t = count (λ x. leb x v) t bench_samples

abbrev pub below : ℕ → Table ℕ → ℕ
below v t = count (λ x. ltb x v) t bench_samples

abbrev pub at_least : ℕ → Table ℕ → ℕ
at_least v t = count (λ x. leb v x) t bench_samples

-- In the sorted samples, the one at index k is the one of rank k + 1 of the samples given.
ranked :
    (t : Table ℕ) (k : ℕ)
    → k < bench_samples
    → (suc k ≤ at_most (sort t k) t)
      × (below (sort t k) t ≤ k)
      × (bench_samples - k ≤ at_least (sort t k) t)
ranked t k h =
    let order = (sort_lem t).0 in
    let same : (p : ℕ → Bool) → count p (sort t) bench_samples ≡ count p t bench_samples =
      λ p. unfold count in (sort_lem t).1 (λ x. if p x then 1 else 0) in
    let s = sort t in
    let le =
      count_ge (λ x. leb x (s k)) s bench_samples (suc k) h
        (λ j l.
          let m = Ordered-le s bench_samples j k order (omega arith) h in ground (arith, m)) in
    let lt =
      count_le (λ x. ltb x (s k)) s bench_samples k
        (λ j a b. let m = Ordered-le s bench_samples k j order a b in ground (arith, m)) in
    let ge =
      count_from (λ x. leb (s k) x) s bench_samples k
        (λ j a b. let m = Ordered-le s bench_samples k j order a b in ground (arith, m)) in
    (
      omega (arith, le, same (λ x. leb x (s k))),
      omega (arith, lt, same (λ x. ltb x (s k))),
      omega (arith, ge, same (λ x. leb (s k) x)),
    )

-- The figures of a benchmark rank its samples as their names say. At least 48 of the 50 samples, 95 in
-- a hundred, are at most p95, and fewer than that are below it; so for p99, with all 50. Half of the
-- samples are at most p50, and half at least. No sample is below the minimum or above the maximum.
pub bench_stats-ranks :
    (samples : Table ℕ)
    → let s = bench_stats samples in
      (25 ≤ at_most s.p50 samples)
      × (25 ≤ at_least s.p50 samples)
      × (48 ≤ at_most s.p95 samples)
      × (below s.p95 samples < 48)
      × (50 ≤ at_most s.p99 samples)
      × (below s.p99 samples < 50)
      × (below s.min samples ≡ 0)
      × (at_most s.max samples ≡ 50)
unfolding bench_stats figures
bench_stats-ranks t =
    let middle = ranked t 25 (omega arith) in
    let high = ranked t 47 (omega arith) in
    let last = ranked t 49 (omega arith) in
    let first = ranked t 0 (omega arith) in
    let all = count_size (λ x. leb x (sort t 49)) t bench_samples in
    (
      omega (arith, middle.0),
      middle.2,
      high.0,
      omega (arith, high.1),
      last.0,
      omega (arith, last.1),
      omega (arith, first.1),
      omega (arith, last.0, all),
    )

sum_lem : (t : Table ℕ) (n : ℕ) → sum t n ≡ total (λ x. x) t n % 2 ^ 64
unfolding sum total
sum_lem t zero = omega arith
sum_lem t (suc n) = omega (arith, sum_lem t n)

-- The sum of n samples between two bounds
total_bounds :
    (t : Table ℕ) (n lo hi : ℕ)
    → ((k : ℕ) → k < n → (lo ≤ t k) × (t k ≤ hi))
    → (n * lo ≤ total (λ x. x) t n) × (total (λ x. x) t n ≤ n * hi)
unfolding total
total_bounds t zero lo hi h = (omega arith, omega arith)
total_bounds t (suc n) lo hi h =
    let (low, high) = total_bounds t n lo hi λ k l. h k (omega arith) in
    let (a, b) = h n (omega arith) in (grind (arith, low, a), grind (arith, high, b))

-- Where the samples sum to less than 2 ^ 64, the mean is their sum over 50, rounded down, and lies
-- between the minimum and the maximum; and the figures rise from the minimum over p50, p95 and p99
-- to the maximum.
pub bench_stats-mean :
    (samples : Table ℕ)
    → total (λ x. x) samples bench_samples < 2 ^ 64
    → let s = bench_stats samples in
      (s.mean ≡ total (λ x. x) samples bench_samples / 50)
      × (s.min ≤ s.mean)
      × (s.mean ≤ s.max)
      × (s.min ≤ s.p50)
      × (s.p50 ≤ s.p95)
      × (s.p95 ≤ s.p99)
      × (s.p99 ≤ s.max)
unfolding bench_stats figures
bench_stats-mean t fits =
    let (order, same) = sort_lem t in
    let s = sort t in
    let rises : (i j : ℕ) → i ≤ j → j < bench_samples → s i ≤ s j =
      λ i j a b. Ordered-le s bench_samples i j order a b in
    let (low, high) =
      total_bounds s bench_samples (s 0) (s 49)
        λ k l. (rises 0 k (omega arith) l, rises k 49 (omega arith) (omega arith)) in
    let exact = same (λ x. x) in
    let wrapped = sum_lem s bench_samples in
    (
      omega (arith, exact, wrapped, fits),
      omega (arith, exact, wrapped, fits, low),
      omega (arith, exact, wrapped, fits, high),
      rises 0 25 (omega arith) (omega arith),
      rises 25 47 (omega arith) (omega arith),
      rises 47 49 (omega arith) (omega arith),
      omega arith,
    )
