-- ===== src/Arch/Demo/Names.antt =====
-- kernel/arch/arm64/main.c: the number of a test, read from its name.
use lettuce_os.Base.{
  ℕ, ◌+◌, ◌-◌, ◌*◌, ◌%◌, ◌^◌, ◌≤◌, ◌<◌, ◌≡◌, refl, ◌∙◌, Bool, true, not, ◌&&◌, Table, List, [], ◌∷◌,
  ◌++◌, arith, leb,
}
use lettuce_os.Arch.Console.{codes, print_dec}
use lettuce_os.Arch.Console.Numbers.{number, decimal_digit, written, are_digits, print_dec-written}
use lettuce_os.Arch.Demo.{read_number, is_test, parse_test_number}

-- A text that does not go on with a digit
abbrev pub ends_number : List ℕ → Bool
ends_number [] = true
ends_number (c ∷ cs) = not (leb 48 c && leb c 57)

number_ge : (acc : ℕ) (cs : List ℕ) → acc ≤ number decimal_digit 10 acc cs
unfolding number
number_ge acc [] = omega arith
number_ge acc (c ∷ cs) = omega (arith, number_ge (acc * 10 + (c - 48)) cs)

read_number_lem :
    (num : ℕ) (cs rest : List ℕ)
    → are_digits cs ≡ true
    → ends_number rest ≡ true
    → number decimal_digit 10 num cs < 2 ^ 64
    → read_number num (cs ++ rest) ≡ number decimal_digit 10 num cs
unfolding read_number are_digits number
read_number_lem num [] [] d e h = refl
read_number_lem num [] (c ∷ rest) d e h = ground arith
read_number_lem num (c ∷ cs) rest d e h =
    let next = num * 10 + (c - 48) in
    let small : next % 2 ^ 64 ≡ next = omega (arith, number_ge next cs, h) in
    let digit : (leb 48 c && leb c 57) ≡ true = ground (arith, d) in
    rw (digit, small) (read_number_lem next cs rest (ground (arith, d)) e h)

-- A name made of "Test ", a 64-bit word in decimal as the console prints it, and a text that does not
-- go on with a digit has that word as its number.
pub print_dec-parse_test_number :
    (buf : Table ℕ) (value : ℕ) (rest : List ℕ)
    → value < 2 ^ 64
    → ends_number rest ≡ true
    → parse_test_number (print_dec (codes "Test ") buf value ++ rest) ≡ value
print_dec-parse_test_number buf value rest h e =
    let (printed, digits, reads) = print_dec-written (codes "Test ") buf value h in
    rw printed (
      named (written value ++ rest)
      ∙ read_number_lem 0 (written value) rest digits e (rw reads h)
      ∙ reads)
  where
    named : (text : List ℕ) → parse_test_number (codes "Test " ++ text) ≡ read_number 0 text
    named text = unfold parse_test_number is_test in refl
