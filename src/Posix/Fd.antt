-- ===== src/Posix/Fd.antt =====
-- runtime/posix/src/fd.c. An `int` is an integer, a pointer an address, and `size_t` a 64-bit word.
use lettuce_os.Base.{
  ℕ, zero, suc, ◌+◌, Bool, true, false, Option, none, some, Table, List, [], ◌∷◌, ◌++◌, update,
  fill, ltb, leb, ◌==◌, if◌then◌else◌, ℤ, pos, negsuc, neg, to_i64,
}

abbrev pub max_fds : ℕ
max_fds = 16

abbrev pub ebadf : ℕ
ebadf = 9

abbrev pub efault : ℕ
efault = 14

abbrev pub einval : ℕ
einval = 22

-- What the operations read and write: the bytes at the addresses, and what went to the console. Every
-- address has a byte: that the kernel reaches through an unmapped pointer of a service, takes a data
-- abort and halts (kernel/arch/arm64/cpu.c) is not modelled.
pub record Io : Type 0 where
  pub memory : Table ℕ
  pub console : List ℕ

-- An operation on a buffer: descriptor, address and count
abbrev pub Transfer : Type 0
Transfer = ℤ → ℕ → ℕ → Io → ℤ × Io

-- `LettuceFdType`
pub data FdType : Type 0 where
  unused console_in console_out console_err pipe device : FdType

abbrev pub is_unused : FdType → Bool
is_unused unused = true
is_unused _ = false

-- `LettuceFdOps`: function pointers, `none` for NULL
pub record FdOps : Type 0 where
  pub read : Option Transfer
  pub write : Option Transfer
  pub close : Option (ℤ → Io → ℤ × Io)

-- `LettuceFileDescriptor`
pub record FileDescriptor : Type 0 where
  pub type : FdType
  pub flags : ℕ
  pub ops : Option FdOps
  pub private_data : ℕ

abbrev pub Fds : Type 0
Fds = Table FileDescriptor

abbrev pub null : ℕ
null = 0

unfoldable pub console_read_op : Transfer
console_read_op fd buf count io =
    if buf == null then (if ltb 0 count then (neg efault, io) else (pos 0, io)) else (pos 0, io)

-- The loop of `console_write_op` over the first n bytes
unfoldable pub put_bytes : Io → ℕ → ℕ → Io
put_bytes io buf zero = io
put_bytes io buf (suc n) =
    let io' = put_bytes io buf n in
    record io' { console = io'.console ++ (io'.memory (buf + n) ∷ []) }

unfoldable pub console_write_op : Transfer
console_write_op fd buf count io =
    if count == 0
    then (pos 0, io)
    else if buf == null
    then (neg efault, io)
    else (to_i64 count, put_bytes io buf count)

unfoldable pub console_close_op : ℤ → Io → ℤ × Io
console_close_op fd io = (pos 0, io)

-- `g_console_in_ops` and `g_console_out_ops`
unfoldable pub console_in_ops : FdOps
console_in_ops = record { read = some console_read_op; write = none; close = some console_close_op }

unfoldable pub console_out_ops : FdOps
console_out_ops = record {
  read = none;
  write = some console_write_op;
  close = some console_close_op;
}

abbrev pub unused_fd : FileDescriptor
unused_fd = record { type = unused; flags = 0; ops = none; private_data = null }

abbrev pub stream : FileDescriptor → FdType → FdOps → FileDescriptor
stream d type ops = record d { type = type; ops = some ops }

unfoldable pub table_init : Fds → Fds
table_init t =
    let t' = fill max_fds (λ i d. unused_fd) t in
    update
      (update (update t' 0 (stream (t' 0) console_in console_in_ops)) 1
        (stream (t' 1) console_out console_out_ops))
      2 (stream (t' 2) console_err console_out_ops)

-- `lettuce_fd_get`: the slot
unfoldable pub get : Fds → ℤ → Option ℕ
get t (negsuc n) = none
get t (pos n) = if leb max_fds n then none else if is_unused (t n).type then none else some n

unfoldable pub install : Fds → ℤ → FdType → Option FdOps → ℕ → ℤ × Fds
install t (negsuc n) type ops private_data = (neg ebadf, t)
install t (pos n) type ops private_data = if leb max_fds n then (neg ebadf, t) else (
  pos 0,
  update t n (record { type = type; flags = 0; ops = ops; private_data = private_data }),
)
