-- ===== src/Arch/Demo.antt =====
-- kernel/arch/arm64/main.c: the parts of the demonstration that compute: its log of passed and failed
-- tests, the statistics of its benchmarks, and the start of a service. A text ends at its NUL.
pub mod Names
pub mod Services
pub mod Sort
pub mod Ranks
use lettuce_os.Base.{
  ℕ, zero, suc, ◌+◌, ◌-◌, ◌*◌, ◌/◌, ◌%◌, ◌^◌, Bool, true, false, ◌&&◌, ◌||◌, Option, none, some,
  Table, List, [], ◌∷◌, ◌++◌, update, ltb, leb, ◌==◌, if◌then◌else◌, ℤ,
}
use lettuce_os.Arch.Mmu.{enter, domain_stack_top}
use lettuce_os.Arch.Machine.{Machine, mmu_of, set_identity}
use lettuce_os.Arch.Console.{codes, puts, print_dec}

-- `test_name[i]`, with the NUL at the end
abbrev pub char_at : List ℕ → ℕ → ℕ
char_at [] i = 0
char_at (c ∷ cs) zero = c
char_at (c ∷ cs) (suc i) = char_at cs i

-- The loop of `parse_test_number` from a character on
unfoldable pub read_number : ℕ → List ℕ → ℕ
read_number num [] = num
read_number num (c ∷ cs) =
    let rest = read_number ((num * 10 + (c - 48)) % 2 ^ 64) cs in
    if leb 48 c && leb c 57 then rest else num

-- The first five characters are the given ones.
abbrev starts_with : List ℕ → ℕ → ℕ → ℕ → ℕ → ℕ → Bool
starts_with text a b c d e =
    (char_at text 0 == a && char_at text 1 == b)
    && (char_at text 2 == c && (char_at text 3 == d && char_at text 4 == e))

-- `text + i`
abbrev pub skip : ℕ → List ℕ → List ℕ
skip zero text = text
skip (suc i) [] = []
skip (suc i) (c ∷ cs) = skip i cs

-- The text begins with "Test ".
unfoldable pub is_test : List ℕ → Bool
is_test test_name = starts_with test_name b'T' b'e' b's' b't' b' '

unfoldable pub parse_test_number : List ℕ → ℕ
parse_test_number test_name = if is_test test_name then read_number 0 (skip 5 test_name) else 0

-- The console, and `g_tests_passed` and `g_tests_failed`
pub record Log : Type 0 where
  pub out : List ℕ
  pub passed : ℕ
  pub failed : ℕ

-- What a log entry prints; `buf` is what the array in `print_dec` holds at first.
unfoldable pub put_entry : List ℕ → Table ℕ → List ℕ → List ℕ → List ℕ → List ℕ
put_entry out buf tag verdict test_name =
    let out' = puts (puts (puts out (some tag)) (some test_name)) (some (codes "\n")) in
    let num = parse_test_number test_name in
    if ltb 0 num
    then puts (print_dec (puts out' (some (codes "TEST,"))) buf num) (some verdict)
    else out'

unfoldable pub log_pass : Log → Table ℕ → List ℕ → Log
log_pass l buf test_name = record l {
  passed = (l.passed + 1) % 2 ^ 32;
  out = put_entry l.out buf (codes "[PASS] ") (codes ",PASS\n") test_name;
}

unfoldable pub log_fail : Log → Table ℕ → List ℕ → Log
log_fail l buf test_name = record l {
  failed = (l.failed + 1) % 2 ^ 32;
  out = put_entry l.out buf (codes "[FAIL] ") (codes ",FAIL\n") test_name;
}

abbrev pub bench_samples : ℕ
bench_samples = 50

unfoldable pub print_bench_line : List ℕ → Table ℕ → List ℕ → ℕ → ℕ → List ℕ
print_bench_line out buf lbl t freq =
    let ns = if ltb 0 freq then t * 1000000000 % 2 ^ 64 / freq else 0 in
    let ticks = puts (print_dec (puts out (some lbl)) buf t) (some (codes " ticks (~")) in
    puts (print_dec ticks buf ns) (some (codes " ns)\n"))

-- The inner loop of the sort: the samples above `key` below index j move up by one, and `key` goes
-- into the place that is then free.
unfoldable pub insert_at : Table ℕ → ℕ → ℕ → Table ℕ
insert_at samples key zero = update samples zero key
insert_at samples key (suc j) =
    let rest = insert_at (update samples (suc j) (samples j)) key j in
    if ltb key (samples j) then rest else update samples (suc j) key

-- The outer loop, for n samples from index i on
unfoldable pub sort_from : Table ℕ → ℕ → ℕ → Table ℕ
sort_from samples zero i = samples
sort_from samples (suc n) i = sort_from (insert_at samples (samples i) i) n (suc i)

unfoldable pub sort : Table ℕ → Table ℕ
sort samples = sort_from samples (bench_samples - 1) 1

-- The sum of the first n samples, in 64 bits
unfoldable pub sum : Table ℕ → ℕ → ℕ
sum samples zero = 0
sum samples (suc n) = (sum samples n + samples n) % 2 ^ 64

pub record Stats : Type 0 where
  pub p50 : ℕ
  pub p95 : ℕ
  pub p99 : ℕ
  pub mean : ℕ
  pub min : ℕ
  pub max : ℕ

-- The figures, read from the sorted samples
unfoldable pub figures : Table ℕ → Stats
figures sorted = record {
  p50 = sorted (bench_samples / 2);
  p95 = sorted ((bench_samples * 95 + 99) / 100 - 1);
  p99 = sorted (bench_samples - 1);
  mean = sum sorted bench_samples / bench_samples;
  min = sorted 0;
  max = sorted (bench_samples - 1);
}

unfoldable pub bench_stats : Table ℕ → Stats
bench_stats samples = figures (sort samples)

-- The text begins with "Case ".
unfoldable pub is_case : List ℕ → Bool
is_case name = starts_with name b'C' b'a' b's' b'e' b' '

-- A number, and the text after it
abbrev put_field : Table ℕ → List ℕ → ℕ → List ℕ → List ℕ
put_field buf out value text = puts (print_dec out buf value) (some text)

unfoldable pub put_case : List ℕ → Table ℕ → List ℕ → Stats → List ℕ
put_case out buf name s =
    let letter = puts (puts out (some (codes "BENCH,"))) (some (char_at name 5 ∷ [])) in
    let comma = codes "," in
    let a = put_field buf (puts letter (some comma)) s.p50 comma in
    let b = put_field buf a s.p95 comma in
    let c = put_field buf b s.p99 comma in
    let d = put_field buf c s.mean comma in
    put_field buf (put_field buf d s.min comma) s.max (codes "\n")

-- The sorted samples, and the console
unfoldable pub print_bench_stats : List ℕ → Table ℕ → List ℕ → Table ℕ → ℕ → Table ℕ × List ℕ
print_bench_stats out buf name samples freq =
    let s = bench_stats samples in
    let head = puts (puts (puts out (some (codes "--- "))) (some name)) (some (codes " ---\n")) in
    let a = print_bench_line head buf (codes "  p50:  ") s.p50 freq in
    let b = print_bench_line a buf (codes "  p95:  ") s.p95 freq in
    let c = print_bench_line b buf (codes "  p99:  ") s.p99 freq in
    let d = print_bench_line c buf (codes "  min:  ") s.min freq in
    let e = print_bench_line d buf (codes "  max:  ") s.max freq in
    let f = print_bench_line e buf (codes "  mean: ") s.mean freq in
    (sort samples, if is_case name then put_case f buf name s else f)

abbrev pub service_code_va : ℕ
service_code_va = 0x41050000

-- The address at which a service finds the code at the address `sym` of the kernel; `start` is
-- `el0_service_code_start`.
unfoldable pub el0_service_va : ℕ → ℕ → ℕ
el0_service_va start sym = (service_code_va + (sym + (2 ^ 64 - start))) % 2 ^ 64

-- `lettuce_el0_enter`, assembly, is a parameter: from a machine, an entry point and a stack, the
-- status that the service returns with, and the machine then.
unfoldable pub run_el0_service :
    (Machine → ℕ → ℕ → ℤ × Machine) → ℕ → Machine → ℕ → ℕ → ℕ → ℤ × Machine
run_el0_service el0_enter start m sym domain service =
    el0_enter (set_identity m service (enter (mmu_of m) domain).1) (el0_service_va start sym)
      (domain_stack_top domain)
