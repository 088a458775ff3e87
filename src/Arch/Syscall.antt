-- ===== src/Arch/Syscall.antt =====
-- The system calls of `lettuce_arch_sync_lower_el_handler` in kernel/arch/arm64/cpu.c, and how a
-- `struct timespec` lies in memory: two words of eight bytes, the lowest byte first.
pub mod Laws
use lettuce_os.Base.{
  ℕ, zero, suc, ◌+◌, ◌-◌, ◌*◌, ◌/◌, ◌%◌, ◌^◌, Bool, true, false, ◌&&◌, Option, none, some, Table,
  leb, ltb, ◌==◌, if◌then◌else◌, ℤ, pos, negsuc, neg, to_u64, to_i64, to_i32,
}
use lettuce_os.Sched.Mechanism.{TrapFrame}
use lettuce_os.Posix.Fd.{Io}
use lettuce_os.Posix.Sys.{
  Timespec, sys_write, sys_read, sys_close, sys_getpid, sys_clock_gettime, sys_nanosleep,
}
use lettuce_os.Posix.Calls.{
  sys_write_no, sys_read_no, sys_close_no, sys_getpid_no, sys_clock_gettime_no, sys_nanosleep_no,
}
use lettuce_os.Arch.Machine.{Machine, set_x0}

abbrev pub enosys : ℕ
enosys = 38

-- The counter and its frequency, two registers
pub record Counter : Type 0 where
  pub ticks : ℕ
  pub freq : ℕ

unfoldable pub load_bytes : Table ℕ → ℕ → ℕ → ℕ
load_bytes memory p zero = 0
load_bytes memory p (suc n) = load_bytes memory p n + memory (p + n) % 256 * 256 ^ n

abbrev pub load64 : Table ℕ → ℕ → ℕ
load64 memory p = load_bytes memory p 8

unfoldable pub store64 : Table ℕ → ℕ → ℕ → Table ℕ
store64 memory p v a = if leb p a && ltb a (p + 8) then v / 256 ^ (a - p) % 256 else memory a

unfoldable pub load_timespec : Table ℕ → ℕ → Timespec
load_timespec memory p = record {
  tv_sec = to_i64 (load64 memory p);
  tv_nsec = to_i64 (load64 memory (p + 8));
}

unfoldable pub store_timespec : Io → ℕ → Option Timespec → Io
store_timespec io p none = io
store_timespec io p (some t) = record io {
  memory = store64 (store64 io.memory p (to_u64 t.tv_sec)) (p + 8) (to_u64 t.tv_nsec);
}

-- The result goes into x0, of the frame as the call leaves it.
abbrev pub io_result : Machine → TrapFrame → ℤ × Io → Machine × TrapFrame
io_result m f (res, io) = (record m { io = io }, set_x0 f (to_u64 res))

-- `lettuce_kernel_sys_clock_gettime`, with the store through its pointer
unfoldable pub clock_gettime : Machine → TrapFrame → Counter → Machine × TrapFrame
clock_gettime m f c =
    let (res, t) = sys_clock_gettime (to_i32 (f.x 0)) (f.x 1) c.ticks c.freq in
    io_result m f (res, store_timespec m.io (f.x 1) t)

unfoldable pub nanosleep_result : Machine → TrapFrame → ℤ → Option TrapFrame → Machine × TrapFrame
nanosleep_result m f res none = (m, set_x0 f (to_u64 res))
nanosleep_result m f res (some f') = (m, set_x0 f' (to_u64 res))

unfoldable pub nanosleep : Machine → TrapFrame → Counter → Machine × TrapFrame
nanosleep m f c =
    let (res, sched, f') =
      sys_nanosleep m.sched (f.x 0) (load_timespec m.io.memory (f.x 0)) c.freq (some f) in
    nanosleep_result (record m { sched = sched }) f res f'

unfoldable pub syscall : Machine → TrapFrame → Counter → Machine × TrapFrame
syscall m f c =
    if f.x 8 == sys_write_no
    then io_result m f (sys_write m.fds (to_i32 (f.x 0)) (f.x 1) (f.x 2) m.io)
    else if f.x 8 == sys_read_no
    then io_result m f (sys_read m.fds (to_i32 (f.x 0)) (f.x 1) (f.x 2) m.io)
    else if f.x 8 == sys_close_no
    then io_result m f (sys_close m.fds (to_i32 (f.x 0)) m.io)
    else if f.x 8 == sys_getpid_no
    then (m, set_x0 f (to_u64 (sys_getpid m.sched.tasks)))
    else if f.x 8 == sys_clock_gettime_no
    then clock_gettime m f c
    else if f.x 8 == sys_nanosleep_no
    then nanosleep m f c
    else (m, set_x0 f (to_u64 (neg enosys)))
