-- ===== src/Arch/System/Image.antt =====
-- runtime/posix/src/sys.c and fd.c: what the system calls write into the kernel's image.
use lettuce_os.Base.{
  ℕ, zero, suc, ◌≤◌, ◌<◌, ◌≡◌, refl, ◌⊎◌, inl, inr, Option, none, some, arith, ℤ, pos, negsuc,
  Option-cases,
}
use lettuce_os.Posix.Fd.{
  Fds, FdOps, Io, get, put_bytes, console_read_op, console_write_op, console_close_op,
  console_in_ops, console_out_ops,
}
use lettuce_os.Posix.Sys.{
  Timespec, find_op, transfer, sys_write, sys_read, sys_close, sys_clock_gettime,
}
use lettuce_os.Arch.Syscall.{store64, store_timespec}

-- The bytes of the kernel's image are the same, but for the first 16, which a time that is stored
-- from below the image on may reach.
abbrev pub SameImage : Io → Io → Type 0
SameImage io io' = (a : ℕ) → 0x40000010 ≤ a → a < 0x40200000 → io'.memory a ≡ io.memory a

-- The descriptors have the operations of the console or none.
abbrev pub IsConsole : Fds → Type 0
IsConsole t =
    (i : ℕ)
    → ((t i).ops ≡ none) ⊎ (((t i).ops ≡ some console_in_ops) ⊎ ((t i).ops ≡ some console_out_ops))

put_bytes-memory : (io : Io) (buf n : ℕ) → (put_bytes io buf n).memory ≡ io.memory
unfolding put_bytes
put_bytes-memory io buf zero = refl
put_bytes-memory io buf (suc n) = put_bytes-memory io buf n

-- The operation that a descriptor has, if it has one
find_op-cases {ℓ} :
    {A : Type ℓ} (t : Fds) (fd : ℤ) (op : FdOps → Option A)
    → IsConsole t
    → (find_op t fd op ≡ none)
      ⊎ ((find_op t fd op ≡ op console_in_ops) ⊎ (find_op t fd op ≡ op console_out_ops))
unfolding find_op
find_op-cases t fd op v = elim (Option-cases (get t fd)) [
  | inl e ↦ inl (rw (e, find_op) refl)
  | inr (i, e) ↦ elim (v i) [
    | inl nothing ↦ inl (rw (e, nothing, find_op) refl)
    | inr (inl input) ↦ inr (inl (rw (e, input, find_op) refl))
    | inr (inr output) ↦ inr (inr (rw (e, output, find_op) refl))
  ]
]

module _ (t : Fds) (fd : ℤ) (buf count : ℕ) (io : Io) (v : IsConsole t) where
  write-memory : (transfer (find_op t fd (λ ops. ops.write)) fd buf count io).1.memory ≡ io.memory
  unfolding transfer console_in_ops console_out_ops console_write_op
  write-memory =
      ground (arith, find_op-cases t fd (λ ops. ops.write) v, put_bytes-memory io buf count)

  read-memory : (transfer (find_op t fd (λ ops. ops.read)) fd buf count io).1.memory ≡ io.memory
  unfolding transfer console_in_ops console_out_ops console_read_op
  read-memory = ground (arith, find_op-cases t fd (λ ops. ops.read) v)

  pub sys_write-memory : (sys_write t fd buf count io).1.memory ≡ io.memory
  unfolding sys_write
  sys_write-memory = ground (arith, write-memory)

  pub sys_read-memory : (sys_read t fd buf count io).1.memory ≡ io.memory
  unfolding sys_read
  sys_read-memory = ground (arith, read-memory)

  pub sys_close-memory : (sys_close t fd io).1.memory ≡ io.memory
  unfolding sys_close console_in_ops console_out_ops console_close_op
  sys_close-memory = ground (arith, find_op-cases t fd (λ ops. ops.close) v)

store_timespec-SameImage :
    (io : Io) (p : ℕ) (s : Timespec)
    → (p < 0x40000000) ⊎ (0x40200000 ≤ p)
    → SameImage io (store_timespec io p (some s))
unfolding store_timespec store64
store_timespec-SameImage io p s outside a lo hi = ground (arith, outside)

-- A time is stored only at an address outside the image.
clock_outside :
    (clk : ℤ) (tp ticks freq : ℕ) (s : Timespec)
    → (sys_clock_gettime clk tp ticks freq).1 ≡ some s
    → (tp < 0x40000000) ⊎ (0x40200000 ≤ tp)
unfolding sys_clock_gettime
clock_outside (negsuc n) tp ticks freq s e = absurd (ground arith)
clock_outside (pos n) tp ticks freq s e = ground (arith, e)

pub sys_clock_gettime-SameImage :
    (clk : ℤ) (tp ticks freq : ℕ) (io : Io)
    → SameImage io (store_timespec io tp (sys_clock_gettime clk tp ticks freq).1)
sys_clock_gettime-SameImage clk tp ticks freq io =
    elim (Option-cases (sys_clock_gettime clk tp ticks freq).1) [
      | inl e ↦ rw e (unfold store_timespec in λ a lo hi. refl)
      | inr (s, e) ↦ rw e (store_timespec-SameImage io tp s (clock_outside clk tp ticks freq s e))
    ]
