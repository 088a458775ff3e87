-- ===== src/Shared/DynamicArray/Laws.antt =====
-- shared/dynamic_array/dynamic_array.c as a queue with two ends.
use lettuce_os.Base.{
  ℕ, ◌+◌, ◌-◌, ◌^◌, ◌≤◌, ◌<◌, ◌≡◌, ◌≢◌, refl, ◌⊎◌, inl, inr, none, some, Table, ◌==◌, arith,
  Bool-cases, Option-cases,
}
use lettuce_os.Shared.DynamicArray.{DynamicArray, get, pop, dequeue, append, wrap}

-- The array has no block and no items, or a block whose capacity the code can address.
pub record IsValid (a : DynamicArray) : Type 0 where
  pub count_le : a.count ≤ a.capacity
  pub capacity_le : a.capacity ≤ 2 ^ 61
  pub no_block : a.block ≡ none → a.capacity ≡ 0
  pub head_lt : a.block ≢ none → a.head < a.capacity

-- Two arrays hold the same first n items.
abbrev pub Agrees : DynamicArray → DynamicArray → ℕ → Type 0
Agrees a b n = (i : ℕ) → i < n → get b i ≡ get a i

-- The array b holds the items of a, and the item behind them.
abbrev pub Extends : DynamicArray → ℕ → DynamicArray → Type 0
Extends a item b = IsValid b × (b.count ≡ a.count + 1) × Agrees a b a.count × (get b a.count ≡ item)

pub append-Extends :
    (a : DynamicArray) (items : Table ℕ) (item : ℕ)
    → a.block ≡ some items
    → IsValid a
    → a.count < a.capacity
    → Extends a item (append a items item)
unfolding append get wrap
append-Extends a items item e v room =
    let h : a.head < a.capacity = v.head_lt (ground arith) in
    let small = v.capacity_le in
    (
      record {
        count_le = omega arith;
        capacity_le = small;
        no_block = λ n. ground arith;
        head_lt = λ n. h;
      },
      refl,
      λ i hi. ground arith,
      ground arith,
    )

-- In a valid array, `array_pop` removes the last item and returns it, `array_dequeue` removes the
-- first one and returns it, and the other items stay, in their order; from an array without items
-- both return NULL and change nothing.
pub pop_dequeue_lem :
    (a : DynamicArray)
    → IsValid a
    → let (last, popped) = pop a in
      let (first, rest) = dequeue a in
      ((a.count ≡ 0) × (pop a ≡ (0, a)) × (dequeue a ≡ (0, a)))
      ⊎ ((a.count ≢ 0)
          × (last ≡ get a (a.count - 1))
          × (popped.count ≡ a.count - 1)
          × Agrees a popped (a.count - 1)
          × (first ≡ get a 0)
          × (rest.count ≡ a.count - 1)
          × ((i : ℕ) → i < a.count - 1 → get rest i ≡ get a (i + 1))
          × IsValid popped
          × IsValid rest)
unfolding pop dequeue get wrap
pop_dequeue_lem a v = elim (Option-cases a.block) [
  | inl e ↦ inl (ground (arith, v.count_le, v.no_block e), ground arith, ground arith)
  | inr (items, e) ↦
      let h : a.head < a.capacity = v.head_lt (ground arith) in
      let small = v.capacity_le in
      let full = v.count_le in
      elim (Bool-cases (a.count == 0)) [
        | inl z ↦ inl (ground arith, ground arith, ground arith)
        | inr p ↦ inr (
          ground arith,
          ground arith,
          ground arith,
          λ i hi. ground arith,
          ground arith,
          ground arith,
          λ i hi. ground arith,
          record {
            count_le = ground arith;
            capacity_le = ground arith;
            no_block = λ n. ground arith;
            head_lt = λ n. ground arith;
          },
          record {
            count_le = ground arith;
            capacity_le = ground arith;
            no_block = λ n. ground arith;
            head_lt = λ n. ground arith;
          },
        )
      ]
]
