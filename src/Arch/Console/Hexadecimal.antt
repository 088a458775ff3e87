-- ===== src/Arch/Console/Hexadecimal.antt =====
-- kernel/arch/arm64/cpu.c: words printed in hexadecimal read back.
use lettuce_os.Base.{
  ℕ, zero, suc, ◌+◌, ◌-◌, ◌*◌, ◌/◌, ◌%◌, ◌^◌, ◌≤◌, ◌<◌, ◌≡◌, refl, sym, ap, ◌∙◌, List, [], ◌∷◌,
  ◌++◌, arith, ltb, if◌then◌else◌, length,
}
use mathlib.Core.List.{append-nil, append_assoc}
use native.Mathlib.Numerals.{unary_clauses}
use native.Mathlib.Nat.{one-le-pow, mod-lt, mod-eq_of_lt, div-add-mod', mul-add-mod_self_right}
use lettuce_os.Arch.Console.{putc, put_text, puts, hex_digit, put_nibbles, print_hex}
use lettuce_os.Arch.Console.Numbers.{number}

abbrev pub hex_value : ℕ → ℕ
hex_value c = if ltb c 58 then c - 48 else c - 87

abbrev pub hexadecimal : List ℕ → ℕ
hexadecimal = number hex_value 16 0

-- The n lowest groups of four bits
abbrev nibbles : ℕ → ℕ → List ℕ
nibbles zero value = []
nibbles (suc n) value = hex_digit (value / 16 ^ n % 16) ∷ nibbles n value

put_nibbles_lem : (out : List ℕ) (value n : ℕ) → put_nibbles out value n ≡ out ++ nibbles n value
unfolding put_nibbles putc
put_nibbles_lem out value zero = sym (append-nil out)
put_nibbles_lem out value (suc n) =
    put_nibbles_lem (out ++ (hex_digit (value / 16 ^ n % 16) ∷ [])) value n
    ∙ append_assoc out (hex_digit (value / 16 ^ n % 16) ∷ []) (nibbles n value)

hex_value-hex_digit : (d : ℕ) → d < 16 → hex_value (hex_digit d) ≡ d
unfolding hex_digit
hex_value-hex_digit d h = ground arith

-- The remainder by 16 times p, by its highest group of four bits and the rest
mod-sixteen_mul : (v p : ℕ) → 0 < p → v % (p * 16) ≡ v / p % 16 * p + v % p
mod-sixteen_mul v p h =
    let q = v / p in
    let d = q % 16 in
    let r = v % p in
    let whole : v ≡ q / 16 * (p * 16) + (d * p + r) =
      let by_p : q * p + r ≡ v = div-add-mod' v p in
      let by_16 : q ≡ q / 16 * 16 + d = omega arith in
      let spread : q * p ≡ q / 16 * (p * 16) + d * p = ap (λ k. k * p) by_16 ∙ grind arith in
      omega (arith, by_p, spread) in
    let below : r < p = mod-lt v h in
    let top : d * p ≤ 15 * p = let d_le : d ≤ 15 = omega arith in grind arith in
    ap (λ k. k % (p * 16)) whole
    ∙ mul-add-mod_self_right (q / 16) (p * 16) (d * p + r)
    ∙ mod-eq_of_lt (omega (arith, below, top))

hexadecimal-nibbles :
    (n value acc : ℕ) → number hex_value 16 acc (nibbles n value) ≡ acc * 16 ^ n + value % 16 ^ n
unfolding number
hexadecimal-nibbles zero value acc = omega arith
hexadecimal-nibbles (suc n) value acc =
    let d = value / 16 ^ n % 16 in
    let read : hex_value (hex_digit d) ≡ d = hex_value-hex_digit d (omega arith) in
    let power : 16 ^ suc n ≡ 16 ^ n * 16 = simp unary_clauses (omega arith) in
    let lead : (acc * 16 + d) * 16 ^ n ≡ acc * (16 ^ n * 16) + d * 16 ^ n = grind arith in
    ap (λ c. number hex_value 16 (acc * 16 + c) (nibbles n value)) read
    ∙ hexadecimal-nibbles n value (acc * 16 + d)
    ∙ rw (power, mod-sixteen_mul value (16 ^ n) (one-le-pow n 16 (omega arith)))
        (omega (arith, lead))

length-nibbles : (n value : ℕ) → length (nibbles n value) ≡ n
length-nibbles zero value = refl
length-nibbles (suc n) value = omega (arith, length-nibbles n value)

-- The hexadecimal output of a 64-bit word is "0x" and then 16 characters that read back as the word.
pub print_hex_lem :
    (out : List ℕ) (value : ℕ)
    → value < 2 ^ 64
    → (cs : List ℕ) × (print_hex out value ≡ out ++ (48 ∷ 120 ∷ cs))
      × (length cs ≡ 16)
      × (hexadecimal cs ≡ value)
unfolding print_hex puts put_text putc
print_hex_lem out value h = (
  nibbles 16 value,
  put_nibbles_lem ((out ++ (48 ∷ [])) ++ (120 ∷ [])) value 16
      ∙ append_assoc (out ++ (48 ∷ [])) (120 ∷ []) (nibbles 16 value)
      ∙ append_assoc out (48 ∷ []) (120 ∷ nibbles 16 value),
  length-nibbles 16 value,
  hexadecimal-nibbles 16 value 0 ∙ omega (arith, h),
)
