-- ===== src/Posix/Clock.antt =====
-- runtime/posix/src/sys.c: the times of the clock, and the ticks of a sleep.
use lettuce_os.Base.{
  ℕ, ◌+◌, ◌-◌, ◌*◌, ◌/◌, ◌%◌, ◌^◌, ◌≤◌, ◌<◌, ◌≡◌, ◌≢◌, false, some, arith, pos, to_u64, to_i64,
}
use native.Mathlib.Nat.{mod-lt, div-add-mod', div-lt_iff_lt-mul, div-mul-le_self, lt-div-mul-add}
use lettuce_os.Posix.Fd.{null}
use lettuce_os.Posix.Sys.{sys_clock_gettime, delta_ticks, clock_monotonic, nanoseconds, in_kernel}

-- The whole multiples of k in x
div_bounds : (x k : ℕ) → 0 < k → (x / k * k ≤ x) × (x < x / k * k + k)
div_bounds x k h = (div-mul-le_self x k, lt-div-mul-add h)

-- A counter of 64 bits that runs at `freq`, at least 2 and small enough that a second's worth of it
-- times 1,000,000,000 fits in 64 bits, reads as s whole seconds and n < 1,000,000,000 nanoseconds:
-- s is the largest number of seconds that have gone by, and n that of nanoseconds in the rest.
pub sys_clock_gettime_lem :
    (tp ticks freq : ℕ)
    → 1 < freq
    → freq * nanoseconds ≤ 2 ^ 64
    → ticks < 2 ^ 64
    → tp ≢ null
    → in_kernel tp ≡ false
    → (s : ℕ) × (n : ℕ) × (sys_clock_gettime clock_monotonic tp ticks freq
        ≡ (pos 0, some (record { tv_sec = pos s; tv_nsec = pos n })))
      × (n < nanoseconds)
      × (s * freq ≤ ticks)
      × (ticks < s * freq + freq)
      × (n * freq ≤ (ticks - s * freq) * nanoseconds)
      × ((ticks - s * freq) * nanoseconds < n * freq + freq)
unfolding sys_clock_gettime to_i64
sys_clock_gettime_lem tp ticks freq some_freq fits word given outside =
    let s = ticks / freq in
    let r = ticks % freq in
    let n = r * nanoseconds / freq in
    let positive : 0 < freq = omega arith in
    let below : r < freq = mod-lt ticks positive in
    let whole : s * freq + r ≡ ticks = div-add-mod' ticks freq in
    let rest : ticks - s * freq ≡ r = omega (arith, whole) in
    let seconds : s < 2 ^ 63 = (div-lt_iff_lt-mul positive).1 (omega arith) in
    let nsec : n < nanoseconds = (div-lt_iff_lt-mul positive).1 (omega (arith, below)) in
    let fits_r : r * nanoseconds % 2 ^ 64 ≡ r * nanoseconds = omega (arith, below) in
    let (low, high) = div_bounds (r * nanoseconds) freq positive in
    let (low_s, high_s) = div_bounds ticks freq positive in
    (s, n, ground (arith, fits_r), nsec, low_s, high_s, rw rest low, rw rest high)

-- The ticks that `nanosleep` sleeps are the whole ticks in the time asked for: a sleep is never
-- longer than asked, and shorter by less than a tick, provided that the two products stay within 64
-- bits.
pub delta_ticks_lem :
    (s n freq : ℕ)
    → n < nanoseconds
    → n * freq < 2 ^ 64
    → s * freq + freq < 2 ^ 64
    → s < 2 ^ 64
    → let d = delta_ticks (record { tv_sec = pos s; tv_nsec = pos n }) freq in
      (d * nanoseconds ≤ (s * nanoseconds + n) * freq)
      × ((s * nanoseconds + n) * freq < d * nanoseconds + nanoseconds)
unfolding delta_ticks to_u64
delta_ticks_lem s n freq nsec fits_n fits_s word =
    let (low, high) = div_bounds (n * freq) nanoseconds (omega arith) in
    let q = n * freq / nanoseconds in
    let parts : (s * nanoseconds + n) * freq ≡ s * freq * nanoseconds + n * freq = omega arith in
    let product : n * freq ≤ nanoseconds * freq = grind arith in
    let small : q ≤ freq = omega (arith, low, product) in rw parts (ground arith)
