-- ===== src/Arch/Console/Numbers.antt =====
-- kernel/arch/arm64/cpu.c: printed numbers read back.
use lettuce_os.Base.{
  ℕ, zero, suc, ◌+◌, ◌-◌, ◌*◌, ◌/◌, ◌%◌, ◌^◌, ◌≤◌, ◌<◌, ◌≡◌, Bool, true, ◌&&◌, leb, refl, ◌∙◌,
  Table, List, [], ◌∷◌, ◌++◌, update, arith, ltb, ◌==◌, if◌then◌else◌, Bool-cases, inl, inr, length,
  length-append,
}
use mathlib.Core.List.{append-nil, append_assoc}
use native.Mathlib.Numerals.{unary_clauses}
use lettuce_os.Arch.Console.{putc, collect, drain, print_dec, enough}

-- The number that characters stand for, after the number `acc`, where `digit` reads a character
unfoldable pub number : (ℕ → ℕ) → ℕ → ℕ → List ℕ → ℕ
number digit base acc [] = acc
number digit base acc (c ∷ cs) = number digit base (acc * base + digit c) cs

number-append :
    (digit : ℕ → ℕ) (base acc : ℕ) (cs : List ℕ) (c : ℕ)
    → number digit base acc (cs ++ (c ∷ [])) ≡ number digit base acc cs * base + digit c
unfolding number
number-append digit base acc [] c = refl
number-append digit base acc (d ∷ cs) c = number-append digit base (acc * base + digit d) cs c

abbrev pub decimal_digit : ℕ → ℕ
decimal_digit c = c - 48

abbrev pub decimal : List ℕ → ℕ
decimal = number decimal_digit 10 0

-- The digits of a number of at most n digits
abbrev digits : ℕ → ℕ → List ℕ
digits zero value = []
digits (suc n) value =
    let rest = digits n (value / 10) ++ ((48 + value % 10) ∷ []) in if ltb 0 value then rest else []

drain-update :
    (out : List ℕ) (buf : Table ℕ) (i idx c : ℕ)
    → i ≤ idx
    → drain out (update buf idx c) i ≡ drain out buf i
unfolding drain
drain-update out buf zero idx c h = refl
drain-update out buf (suc i) idx c h =
    let same : update buf idx c i ≡ buf i = ground arith in
    rw same (drain-update (putc out (buf i)) buf i idx c (omega arith))

drain-collect :
    (n : ℕ) (out : List ℕ) (buf : Table ℕ) (idx value : ℕ)
    → let (buf', idx') = collect n buf idx value in
      drain out buf' idx' ≡ drain (out ++ digits n value) buf idx
unfolding collect
drain-collect zero out buf idx value = rw (append-nil out) refl
drain-collect (suc n) out buf idx value = elim (Bool-cases (ltb 0 value)) [
  | inl more ↦
      let buf' = update buf idx (48 + value % 10) in
      let head : buf' idx ≡ 48 + value % 10 = ground arith in
      let tail = digits n (value / 10) in
      rw more (
        drain-collect n out buf' (suc idx) (value / 10)
        ∙ unfold drain putc in
          (drain-update ((out ++ tail) ++ ((buf' idx) ∷ [])) buf idx idx (48 + value % 10)
              (omega arith)
            ∙ rw (head, append_assoc out tail ((48 + value % 10) ∷ [])) refl))
  | inr done ↦ rw (done, append-nil out) refl
]

div-lt_pow : (n value : ℕ) → value < 10 ^ suc n → value / 10 < 10 ^ n
div-lt_pow n value h = let h' = simp unary_clauses at h in omega (arith, h')

decimal-digits : (n value : ℕ) → value < 10 ^ n → decimal (digits n value) ≡ value
unfolding number
decimal-digits zero value h = omega arith
decimal-digits (suc n) value h = elim (Bool-cases (ltb 0 value)) [
  | inl more ↦
      let rest = decimal-digits n (value / 10) (div-lt_pow n value h) in
      rw more (
        number-append decimal_digit 10 0 (digits n (value / 10)) (48 + value % 10)
        ∙ ground (arith, rest))
  | inr done ↦ rw done (ground arith)
]

length-digits : (n value : ℕ) → length (digits n value) ≤ n
length-digits zero value = omega arith
length-digits (suc n) value = elim (Bool-cases (ltb 0 value)) [
  | inl more ↦ rw more (
      rw (length-append (digits n (value / 10)) ((48 + value % 10) ∷ []))
        (omega (arith, length-digits n (value / 10))))
  | inr done ↦ rw done (omega arith)
]

-- The buffer index
collect_le : (n : ℕ) (buf : Table ℕ) (idx value : ℕ) → (collect n buf idx value).1 ≤ idx + n
unfolding collect
collect_le zero buf idx value = omega arith
collect_le (suc n) buf idx value =
    ground (arith, collect_le n (update buf idx (48 + value % 10)) (suc idx) (value / 10))

-- The first loop of `print_dec` ends
collect_enough :
    (n k : ℕ) (buf : Table ℕ) (idx value : ℕ)
    → value < 10 ^ n
    → collect (n + k) buf idx value ≡ collect n buf idx value
unfolding collect
collect_enough zero zero buf idx value h = refl
collect_enough zero (suc k) buf idx value h = ground arith
collect_enough (suc n) k buf idx value h =
    let step =
      collect_enough n k (update buf idx (48 + value % 10)) (suc idx) (value / 10)
        (div-lt_pow n value h) in
    let next : suc n + k ≡ suc (n + k) = omega arith in rw next (rw step refl)

-- The decimal output of a 64-bit word is at most 20 characters that read back as the word. The loop
-- that collects them ends within the 20 rounds of fuel, whatever more there is, and writes only at
-- indices up to 19 of the buffer of 24.
pub print_dec_lem :
    (out : List ℕ) (buf : Table ℕ) (value fuel : ℕ)
    → value < 2 ^ 64
    → (cs : List ℕ) × (print_dec out buf value ≡ out ++ cs)
      × (length cs ≤ 20)
      × (decimal cs ≡ value)
      × ((collect enough buf 0 value).1 ≤ 20)
      × (collect (enough + fuel) buf 0 value ≡ collect enough buf 0 value)
unfolding print_dec putc drain
print_dec_lem out buf value fuel h = elim (Bool-cases (value == 0)) [
  | inl nothing ↦ (
    48 ∷ [],
    rw nothing refl,
    omega arith,
    unfold number in ground arith,
    collect_le enough buf 0 value,
    collect_enough enough fuel buf 0 value (omega arith),
  )
  | inr something ↦ (
    digits enough value,
    rw something (drain-collect enough out buf 0 value),
    length-digits enough value,
    decimal-digits enough value (omega arith),
    collect_le enough buf 0 value,
    collect_enough enough fuel buf 0 value (omega arith),
  )
]

-- The characters of a word in decimal
abbrev pub written : ℕ → List ℕ
written value = if value == 0 then 48 ∷ [] else digits enough value

-- Every character is a digit.
unfoldable pub are_digits : List ℕ → Bool
are_digits [] = true
are_digits (c ∷ cs) = let rest = are_digits cs in leb 48 c && (leb c 57 && rest)

are_digits-append :
    (cs : List ℕ) (c : ℕ)
    → are_digits cs ≡ true
    → 48 ≤ c
    → c ≤ 57
    → are_digits (cs ++ (c ∷ [])) ≡ true
unfolding are_digits
are_digits-append [] c h lo hi = ground arith
are_digits-append (d ∷ cs) c h lo hi =
    ground (arith, are_digits-append cs c (ground (arith, h)) lo hi, h)

are_digits-digits : (n value : ℕ) → are_digits (digits n value) ≡ true
unfolding are_digits
are_digits-digits zero value = refl
are_digits-digits (suc n) value = ground (
  arith,
  are_digits-append (digits n (value / 10)) (48 + value % 10) (are_digits-digits n (value / 10))
      (omega arith) (omega arith),
)

-- The decimal output, which is made of digits and reads back
pub print_dec-written :
    (out : List ℕ) (buf : Table ℕ) (value : ℕ)
    → value < 2 ^ 64
    → (print_dec out buf value ≡ out ++ written value)
      × (are_digits (written value) ≡ true)
      × (decimal (written value) ≡ value)
unfolding print_dec putc drain
print_dec-written out buf value h = elim (Bool-cases (value == 0)) [
  | inl nothing ↦ rw nothing (refl, unfold are_digits in refl, unfold number in ground arith)
  | inr something ↦ rw something (
    drain-collect enough out buf 0 value,
    are_digits-digits enough value,
    decimal-digits enough value (omega arith),
  )
]
