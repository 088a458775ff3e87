-- ===== src/Posix/Sys.antt =====
-- runtime/posix/src/sys.c, in the ARM64 build. The counter and its frequency are registers, so
-- arguments here; a system call that writes through a pointer returns what it writes.
use lettuce_os.Base.{
  ℕ, ◌+◌, ◌*◌, ◌/◌, ◌%◌, ◌^◌, Bool, true, ◌&&◌, Option, none, some, ltb, leb, ◌==◌, if◌then◌else◌,
  ℤ, pos, negsuc, neg, to_u64, to_i64,
}
use lettuce_os.Task.Table.{Tasks}
use lettuce_os.Sched.State.{Sched}
use lettuce_os.Sched.Mechanism.{TrapFrame, sleep_current}
use lettuce_os.Posix.Fd.{Fds, FdOps, Io, Transfer, get, null, ebadf, efault, einval}

abbrev pub kernel_mem_start : ℕ
kernel_mem_start = 0x40000000

abbrev pub kernel_mem_end : ℕ
kernel_mem_end = 0x40200000

-- The test that keeps user pointers out of the kernel's image
abbrev pub in_kernel : ℕ → Bool
in_kernel ptr = leb kernel_mem_start ptr && ltb ptr kernel_mem_end

abbrev pub clock_monotonic : ℤ
clock_monotonic = pos 1

abbrev pub nanoseconds : ℕ
nanoseconds = 1000000000

pub record Timespec : Type 0 where
  pub tv_sec : ℤ
  pub tv_nsec : ℤ

-- `desc == NULL || desc->ops == NULL || desc->ops->op == NULL`, or the operation
unfoldable pub find_op {ℓ} : {A : Type ℓ} → Fds → ℤ → (FdOps → Option A) → Option A
find_op t fd op = elim (get t fd) [
  | none ↦ none
  | some i ↦ elim (t i).ops [ none ↦ none | some ops ↦ op ops ]
]

unfoldable pub transfer : Option Transfer → ℤ → ℕ → ℕ → Io → ℤ × Io
transfer none fd buf count io = (neg ebadf, io)
transfer (some op) fd buf count io = op fd buf count io

unfoldable pub sys_write : Fds → ℤ → ℕ → ℕ → Io → ℤ × Io
sys_write t fd buf count io =
    if count == 0
    then (pos 0, io)
    else if buf == null
    then (neg efault, io)
    else if in_kernel buf
    then (neg efault, io)
    else transfer (find_op t fd (λ ops. ops.write)) fd buf count io

unfoldable pub sys_read : Fds → ℤ → ℕ → ℕ → Io → ℤ × Io
sys_read t fd buf count io =
    if count == 0
    then (pos 0, io)
    else if buf == null
    then (neg efault, io)
    else if in_kernel buf
    then (neg efault, io)
    else transfer (find_op t fd (λ ops. ops.read)) fd buf count io

unfoldable pub sys_close : Fds → ℤ → Io → ℤ × Io
sys_close t fd io = elim (find_op t fd (λ ops. ops.close)) [
  | none ↦ (neg ebadf, io)
  | some op ↦ op fd io
]

unfoldable pub sys_getpid : Tasks → ℤ
sys_getpid s = elim s.current [ none ↦ pos 1 | some i ↦ pos (s.table i).id ]

-- `ticks` and `freq` are the counter and its frequency.
unfoldable pub sys_clock_gettime : ℤ → ℕ → ℕ → ℕ → ℤ × Option Timespec
sys_clock_gettime (negsuc n) tp ticks freq = (neg einval, none)
sys_clock_gettime (pos n) tp ticks freq =
    if n == 1
    then if tp == null
      then (neg efault, none)
      else if in_kernel tp
      then (neg efault, none)
      else if freq == 0
      then (neg einval, none)
      else (
        pos 0,
        some (record {
          tv_sec = to_i64 (ticks / freq);
          tv_nsec = to_i64 ((ticks % freq * nanoseconds) % 2 ^ 64 / freq);
        }),
      )
    else (neg einval, none)

-- The ticks of a time span
unfoldable pub delta_ticks : Timespec → ℕ → ℕ
delta_ticks req freq =
    (to_u64 req.tv_sec * freq + (to_u64 req.tv_nsec * freq) % 2 ^ 64 / nanoseconds) % 2 ^ 64

-- `tv_nsec < 0 || tv_nsec >= 1000000000`
abbrev pub is_bad_nsec : ℤ → Bool
is_bad_nsec (negsuc n) = true
is_bad_nsec (pos n) = leb nanoseconds n

-- `req` is the address, and `timespec` what is stored there.
unfoldable pub sys_nanosleep :
    Sched → ℕ → Timespec → ℕ → Option TrapFrame → ℤ × Sched × Option TrapFrame
sys_nanosleep s req timespec freq frame =
    if req == null
    then (neg efault, s, frame)
    else if is_bad_nsec timespec.tv_nsec
    then (neg einval, s, frame)
    else if in_kernel req
    then (neg efault, s, frame)
    else let (s', frame') = sleep_current s (delta_ticks timespec freq) frame in (pos 0, s', frame')
