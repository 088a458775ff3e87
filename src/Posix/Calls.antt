-- ===== src/Posix/Calls.antt =====
-- runtime/posix/src/posix.c, in the ARM64 build. `svc n x0 x1 x2` is what the supervisor call leaves
-- in the register x0 for the system call n, a parameter here.
use lettuce_os.Base.{ℕ, ◌+◌, ℤ, pos, negsuc, neg, to_u64, to_i64, to_i32}

abbrev pub sys_write_no : ℕ
sys_write_no = 1

abbrev pub sys_read_no : ℕ
sys_read_no = 2

abbrev pub sys_close_no : ℕ
sys_close_no = 3

abbrev pub sys_getpid_no : ℕ
sys_getpid_no = 4

abbrev pub sys_clock_gettime_no : ℕ
sys_clock_gettime_no = 5

abbrev pub sys_nanosleep_no : ℕ
sys_nanosleep_no = 6

-- `if (res < 0) { errno = (int)(-res); return -1; }`, and else the result given: the value that the
-- function returns, and errno
unfoldable pub finish : ℤ → ℤ → ℤ → ℤ × ℤ
finish errno (pos n) good = (good, errno)
finish errno (negsuc n) good = (neg 1, to_i32 (n + 1))

-- Arguments that a call leaves out are registers of the caller's that nobody reads, 0 here.
module _ (svc : ℕ → ℕ → ℕ → ℕ → ℕ) where
  unfoldable pub write : ℤ → ℤ → ℕ → ℕ → ℤ × ℤ
  write errno fd buf count =
      let res = to_i64 (svc sys_write_no (to_u64 fd) buf count) in finish errno res res

  unfoldable pub read : ℤ → ℤ → ℕ → ℕ → ℤ × ℤ
  read errno fd buf count =
      let res = to_i64 (svc sys_read_no (to_u64 fd) buf count) in finish errno res res

  unfoldable pub close : ℤ → ℤ → ℤ × ℤ
  close errno fd = finish errno (to_i64 (svc sys_close_no (to_u64 fd) 0 0)) (pos 0)

  unfoldable pub getpid : ℤ
  getpid = to_i32 (svc sys_getpid_no 0 0 0)

  unfoldable pub clock_gettime : ℤ → ℤ → ℕ → ℤ × ℤ
  clock_gettime errno clk_id tp =
      finish errno (to_i64 (svc sys_clock_gettime_no (to_u64 clk_id) tp 0)) (pos 0)

  unfoldable pub nanosleep : ℤ → ℕ → ℕ → ℤ × ℤ
  nanosleep errno req rem = finish errno (to_i64 (svc sys_nanosleep_no req rem 0)) (pos 0)
