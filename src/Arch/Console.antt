-- ===== src/Arch/Console.antt =====
-- kernel/arch/arm64/cpu.c: what the kernel prints. The console is the list of the characters that went
-- to it; waiting until the device takes a character has no effect here.
pub mod Numbers
pub mod Hexadecimal
use Prim.Native.String.{String}
use Prim.Native.String
use Prim.Native.Char.{code}
use lettuce_os.Base.{
  ℕ, zero, suc, ◌+◌, ◌*◌, ◌/◌, ◌%◌, ◌^◌, Bool, true, false, Option, none, some, Table, List, [],
  ◌∷◌, ◌++◌, update, ltb, ◌==◌, if◌then◌else◌,
}

-- The characters of a text in the source
abbrev pub codes : String → List ℕ
codes String.[] = []
codes (String.◌∷◌ c s) = code c ∷ codes s

unfoldable pub putc : List ℕ → ℕ → List ℕ
putc out character = out ++ (character ∷ [])

-- The characters of a text, up to the NUL that ends it; a line feed (10) goes out after a carriage
-- return (13).
unfoldable pub put_text : List ℕ → List ℕ → List ℕ
put_text out [] = out
put_text out (c ∷ text) = put_text (putc (if c == 10 then putc out 13 else out) c) text

-- `none` is a NULL text.
unfoldable pub puts : List ℕ → Option (List ℕ) → List ℕ
puts out none = out
puts out (some text) = put_text out text

-- `digits[d]`, as the code of the character
unfoldable pub hex_digit : ℕ → ℕ
hex_digit d = if ltb d 10 then 48 + d else 87 + d

-- The loop of `lettuce_arch_console_print_hex` over the n lowest groups of four bits, highest first
unfoldable pub put_nibbles : List ℕ → ℕ → ℕ → List ℕ
put_nibbles out value zero = out
put_nibbles out value (suc n) = put_nibbles (putc out (hex_digit (value / 16 ^ n % 16))) value n

unfoldable pub print_hex : List ℕ → ℕ → List ℕ
print_hex out value = put_nibbles (puts out (some (48 ∷ 120 ∷ []))) value 16

-- The first loop of `lettuce_arch_console_print_dec`, with fuel: the buffer and `idx`
unfoldable pub collect : ℕ → Table ℕ → ℕ → ℕ → Table ℕ × ℕ
collect zero buf idx value = (buf, idx)
collect (suc fuel) buf idx value =
    let rest = collect fuel (update buf idx (48 + value % 10)) (suc idx) (value / 10) in
    if ltb 0 value then rest else (buf, idx)

-- The second loop
unfoldable pub drain : List ℕ → Table ℕ → ℕ → List ℕ
drain out buf zero = out
drain out buf (suc idx) = drain (putc out (buf idx)) buf idx

-- A 64-bit word has at most 20 digits.
abbrev pub enough : ℕ
enough = 20

-- `buf` is what the array on the stack holds at first.
unfoldable pub print_dec : List ℕ → Table ℕ → ℕ → List ℕ
print_dec out buf value =
    let (buf', idx) = collect enough buf 0 value in
    if value == 0 then putc out 48 else drain out buf' idx
