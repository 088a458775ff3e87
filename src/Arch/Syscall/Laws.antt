-- ===== src/Arch/Syscall/Laws.antt =====
-- kernel/arch/arm64/cpu.c and runtime/posix/: a system call from the library's function to its result.
use lettuce_os.Base.{
  IsI64, negsuc, ◌≤◌, to_i64-to_u64, ℕ, zero, suc, ◌+◌, ◌-◌, ◌*◌, ◌/◌, ◌%◌, ◌^◌, ◌<◌, ◌≡◌, ◌≢◌, ◌⊎◌,
  inl, inr, refl, sym, ap, ◌∙◌, false, some, Table, List, [], ◌∷◌, ◌++◌, update, arith, ℤ, pos,
  to_u64, to_i64, to_i32,
}
use mathlib.Core.List.{append-nil, append_assoc}
use lettuce_os.Sched.Mechanism.{TrapFrame}
use lettuce_os.Posix.Fd.{Io, Fds, table_init, get, console_write_op, console_out_ops, put_bytes}
use lettuce_os.Posix.Sys.{Timespec, sys_write, find_op, transfer, in_kernel}
use lettuce_os.Posix.Calls.{write, finish, sys_write_no}
use lettuce_os.Arch.Machine.{Machine}
use lettuce_os.Arch.Syscall.{
  load_timespec, store_timespec, Counter, syscall, load_bytes, load64, store64,
}

-- The registers of a supervisor call
abbrev pub call_frame : TrapFrame → ℕ → ℕ → ℕ → ℕ → TrapFrame
call_frame f n x0 x1 x2 = record f { x = update (update (update (update f.x 8 n) 0 x0) 1 x1) 2 x2 }

-- The bytes at n addresses from p on
abbrev pub bytes_at : Table ℕ → ℕ → ℕ → List ℕ
bytes_at memory p zero = []
bytes_at memory p (suc n) = bytes_at memory p n ++ (memory (p + n) ∷ [])

load_bytes-store64 :
    (memory : ℕ → ℕ) (p v n q : ℕ)
    → n < 8
    → load_bytes (store64 memory p v) p n ≡ q
    → load_bytes (store64 memory p v) p (suc n) ≡ q + v / 256 ^ n % 256 * 256 ^ n
unfolding load_bytes store64
load_bytes-store64 memory p v n q h e =
    let back : p + n - p ≡ n = omega arith in
    let here : store64 memory p v (p + n) ≡ v / 256 ^ n % 256 = rw (← back) (ground arith) in
    ground arith

-- A word that is stored is loaded again.
load64-store64 : (memory : ℕ → ℕ) (p v : ℕ) → load64 (store64 memory p v) p ≡ v % 2 ^ 64
load64-store64 memory p v =
    let step = load_bytes-store64 memory p v in
    let l : ℕ → ℕ = load_bytes (store64 memory p v) p in
    let l0 : l 0 ≡ v % 256 ^ 0 = unfold load_bytes in omega arith in
    let l1 : l 1 ≡ v % 256 ^ 1 = step 0 (v % 256 ^ 0) (omega arith) l0 ∙ omega arith in
    let l2 : l 2 ≡ v % 256 ^ 2 = step 1 (v % 256 ^ 1) (omega arith) l1 ∙ omega arith in
    let l3 : l 3 ≡ v % 256 ^ 3 = step 2 (v % 256 ^ 2) (omega arith) l2 ∙ omega arith in
    let l4 : l 4 ≡ v % 256 ^ 4 = step 3 (v % 256 ^ 3) (omega arith) l3 ∙ omega arith in
    let l5 : l 5 ≡ v % 256 ^ 5 = step 4 (v % 256 ^ 4) (omega arith) l4 ∙ omega arith in
    let l6 : l 6 ≡ v % 256 ^ 6 = step 5 (v % 256 ^ 5) (omega arith) l5 ∙ omega arith in
    let l7 : l 7 ≡ v % 256 ^ 7 = step 6 (v % 256 ^ 6) (omega arith) l6 ∙ omega arith in
    step 7 (v % 256 ^ 7) (omega arith) l7 ∙ omega arith

-- What is stored in the eight bytes after a range leaves the range as it was.
load_bytes-store64_after :
    (memory : ℕ → ℕ) (p v n : ℕ)
    → n ≤ 8
    → load_bytes (store64 memory (p + 8) v) p n ≡ load_bytes memory p n
unfolding load_bytes store64
load_bytes-store64_after memory p v zero h = refl
load_bytes-store64_after memory p v (suc n) h =
    rw (load_bytes-store64_after memory p v n (omega arith)) (ground arith)

to_u64-mod : (z : ℤ) → to_u64 z % 2 ^ 64 ≡ to_u64 z
unfolding to_u64
to_u64-mod (pos n) = omega arith
to_u64-mod (negsuc n) = omega arith

to_i64-load64 :
    (memory : ℕ → ℕ) (p : ℕ) (z : ℤ) → IsI64 z → to_i64 (load64 (store64 memory p (to_u64 z)) p) ≡ z
to_i64-load64 memory p z h =
    ap to_i64 (load64-store64 memory p (to_u64 z) ∙ to_u64-mod z) ∙ to_i64-to_u64 z h

-- A time span whose fields are 64-bit numbers is read from an address as it was stored there.
pub load_timespec-store_timespec :
    (io : Io) (p : ℕ) (t : Timespec)
    → IsI64 t.tv_sec
    → IsI64 t.tv_nsec
    → load_timespec (store_timespec io p (some t)).memory p ≡ t
unfolding load_timespec store_timespec
load_timespec-store_timespec io p t sec nsec =
    let first = store64 io.memory p (to_u64 t.tv_sec) in
    let kept = load_bytes-store64_after first p (to_u64 t.tv_nsec) 8 (omega arith) in
    rw (kept, to_i64-load64 io.memory p t.tv_sec sec, to_i64-load64 first (p + 8) t.tv_nsec nsec)
      refl

console-put_bytes :
    (io : Io) (buf n : ℕ)
    → ((put_bytes io buf n).console ≡ io.console ++ bytes_at io.memory buf n)
      × ((put_bytes io buf n).memory ≡ io.memory)
unfolding put_bytes
console-put_bytes io buf zero = (sym (append-nil io.console), refl)
console-put_bytes io buf (suc n) =
    let (out, same) = console-put_bytes io buf n in
    (
      rw (out, same)
          (append_assoc io.console (bytes_at io.memory buf n) (io.memory (buf + n) ∷ [])),
      same,
    )

-- The console streams in a table that was just set up
console_out_at :
    (t : Fds) (fd : ℕ)
    → (fd ≡ 1) ⊎ (fd ≡ 2)
    → find_op (table_init t) (pos fd) (λ ops. ops.write) ≡ some console_write_op
unfolding find_op table_init get console_out_ops
console_out_at t fd (inl e) = rw e refl
console_out_at t fd (inr e) = rw e refl

-- What the kernel's `write` does to the console streams
sys_write-console :
    (t : Fds) (fd buf count : ℕ) (io : Io)
    → (fd ≡ 1) ⊎ (fd ≡ 2)
    → buf ≢ 0
    → in_kernel buf ≡ false
    → 0 < count
    → sys_write (table_init t) (pos fd) buf count io ≡ (to_i64 count, put_bytes io buf count)
unfolding sys_write transfer console_write_op
sys_write-console t fd buf count io out given outside some_bytes =
    ground (arith, console_out_at t fd out)

module _ (m : Machine) (f : TrapFrame) (c : Counter) where
  -- The supervisor call, seen from the library: what it leaves in x0, and the machine
  abbrev pub svc : ℕ → ℕ → ℕ → ℕ → ℕ
  svc n x0 x1 x2 = (syscall m (call_frame f n x0 x1 x2) c).1.x 0

  abbrev pub after_svc : ℕ → ℕ → ℕ → ℕ → Machine
  after_svc n x0 x1 x2 = (syscall m (call_frame f n x0 x1 x2) c).0

  syscall-write :
      (fd buf count : ℕ) (res : ℤ) (io : Io)
      → to_i32 fd ≡ pos fd
      → sys_write m.fds (pos fd) buf count m.io ≡ (res, io)
      → (svc sys_write_no fd buf count ≡ to_u64 res)
        × (after_svc sys_write_no fd buf count ≡ record m { io = io })
  unfolding syscall
  syscall-write fd buf count res io same e = rw (same, e) (refl, refl)

  -- With the descriptor table as it is set up, the library's `write` to one of the two console
  -- streams, of a range of mapped bytes, as all are in this model, that does not start in the
  -- kernel's image, comes back with the
  -- whole count and errno as it was, and exactly the bytes of the range went to the console, in
  -- their order; memory is as it was.
  pub write-console :
      (t : Fds) (errno : ℤ) (fd buf count : ℕ)
      → m.fds ≡ table_init t
      → (fd ≡ 1) ⊎ (fd ≡ 2)
      → buf ≢ 0
      → in_kernel buf ≡ false
      → 0 < count
      → count < 2 ^ 63
      → let io = (after_svc sys_write_no fd buf count).io in
        (write svc errno (pos fd) buf count ≡ (pos count, errno))
        × (io.console ≡ m.io.console ++ bytes_at m.io.memory buf count)
        × (io.memory ≡ m.io.memory)
  unfolding write
  write-console t errno fd buf count fds out given outside some_bytes short =
      let wrote : sys_write m.fds (pos fd) buf count m.io
          ≡ (to_i64 count, put_bytes m.io buf count) =
        rw fds (sys_write-console t fd buf count m.io out given outside some_bytes) in
      let narrow : to_i32 fd ≡ pos fd = unfold to_i32 in ground arith in
      let (x0, machine) = syscall-write fd buf count _ _ narrow wrote in
      let word : to_u64 (pos fd) ≡ fd = unfold to_u64 in omega arith in
      let counted : to_i64 (to_u64 (to_i64 count)) ≡ pos count =
        unfold to_i64 to_u64 in ground arith in
      let (bytes, same) = console-put_bytes m.io buf count in
      (
        rw (word, x0, counted) (unfold finish in refl),
        ap (λ n. n.io.console) machine ∙ bytes,
        ap (λ n. n.io.memory) machine ∙ same,
      )
