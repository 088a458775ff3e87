-- ===== src/Tests/Demo.antt =====
-- kernel/arch/arm64/main.c with samples that go up and down, and the name of a test.
use lettuce_os.Base.{ℕ, ◌+◌, ◌*◌, ◌/◌, ◌%◌, ◌^◌, ◌≤◌, ◌<◌, ◌≡◌, refl, Table, ◌++◌, arith}
use lettuce_os.Arch.Console.{codes, print_dec}
use lettuce_os.Arch.Demo.{
  parse_test_number, is_test, read_number, bench_stats, sort_from, insert_at, bench_samples,
}
use lettuce_os.Arch.Demo.Sort.{total}
use lettuce_os.Arch.Demo.Ranks.{at_most, at_least, below, bench_stats-ranks, bench_stats-mean}
use lettuce_os.Arch.Demo.Names.{print_dec-parse_test_number}

abbrev samples : Table ℕ
samples i = i * 7 % 50 + 3

few : sort_from samples 3 1 3 ≡ 24
unfolding sort_from insert_at
few = refl

bench_stats-ranks_example :
    let s = bench_stats samples in
    (25 ≤ at_most s.p50 samples)
    × (25 ≤ at_least s.p50 samples)
    × (48 ≤ at_most s.p95 samples)
    × (below s.p95 samples < 48)
    × (50 ≤ at_most s.p99 samples)
    × (below s.p99 samples < 50)
    × (below s.min samples ≡ 0)
    × (at_most s.max samples ≡ 50)
bench_stats-ranks_example = bench_stats-ranks samples

sum_fits : total (λ x. x) samples bench_samples < 2 ^ 64
unfolding total
sum_fits = omega arith

bench_stats-mean_example :
    let s = bench_stats samples in
    (s.mean ≡ total (λ x. x) samples bench_samples / 50)
    × (s.min ≤ s.mean)
    × (s.mean ≤ s.max)
    × (s.min ≤ s.p50)
    × (s.p50 ≤ s.p95)
    × (s.p95 ≤ s.p99)
    × (s.p99 ≤ s.max)
bench_stats-mean_example = bench_stats-mean samples sum_fits

test_12 : parse_test_number (codes "Test 12: EL0") ≡ 12
unfolding parse_test_number is_test read_number
test_12 = refl

not_a_test : parse_test_number (codes "Bench 12") ≡ 0
unfolding parse_test_number is_test read_number
not_a_test = refl

print_dec-parse_test_number_example :
    parse_test_number (print_dec (codes "Test ") (λ i. 0) 12 ++ codes ": EL0") ≡ 12
print_dec-parse_test_number_example =
    print_dec-parse_test_number (λ i. 0) 12 (codes ": EL0") (omega arith) refl
