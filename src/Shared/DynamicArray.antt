-- ===== src/Shared/DynamicArray.antt =====
-- shared/dynamic_array/dynamic_array.c: a growing circular buffer. An item is a pointer, so a number,
-- with 0 for NULL. `malloc n` is a parameter: what the new block of n bytes holds, or `none`. The
-- functions' check for a NULL array is left out: an array is given.
pub mod Laws
pub mod Push
pub mod Contents
use lettuce_os.Base.{
  ℕ, ◌+◌, ◌-◌, ◌*◌, ◌/◌, ◌%◌, ◌^◌, Bool, true, false, Option, none, some, Table, update, fill, ltb,
  leb, ◌==◌, if◌then◌else◌,
}

abbrev pub initial_capacity : ℕ
initial_capacity = 4

abbrev pub growth_factor : ℕ
growth_factor = 2

-- `sizeof(void *)`, in the 64-bit build
abbrev pub pointer_size : ℕ
pointer_size = 8

-- `DynamicArray`; `block` is the field `data`, `none` for NULL.
pub record DynamicArray : Type 0 where
  pub head : ℕ
  pub count : ℕ
  pub capacity : ℕ
  pub block : Option (Table ℕ)

abbrev pub Malloc : Type 0
Malloc = ℕ → Option (Table ℕ)

abbrev pub null : ℕ
null = 0

-- `if (i >= capacity) i -= capacity;`, in 64-bit arithmetic
unfoldable pub wrap : ℕ → ℕ → ℕ
wrap capacity i = let i' = i % 2 ^ 64 in if leb capacity i' then i' - capacity else i'

unfoldable pub free : DynamicArray → DynamicArray
free a = record { head = 0; count = 0; capacity = 0; block = none }

unfoldable pub get : DynamicArray → ℕ → ℕ
get a index = elim a.block [
  | none ↦ null
  | some items ↦ if leb a.count index then null else items (wrap a.capacity (a.head + index))
]

unfoldable pub set : DynamicArray → ℕ → ℕ → Bool × DynamicArray
set a index item = elim a.block [
  | none ↦ (false, a)
  | some items ↦
      if leb a.count index
      then (false, a)
      else (true, record a { block = some (update items (wrap a.capacity (a.head + index)) item) })
]

unfoldable pub pop : DynamicArray → ℕ × DynamicArray
pop a = elim a.block [
  | none ↦ (null, a)
  | some items ↦
      if a.count == 0
      then (null, a)
      else (items (wrap a.capacity (a.head + a.count - 1)), record a { count = a.count - 1 })
]

unfoldable pub dequeue : DynamicArray → ℕ × DynamicArray
dequeue a = elim a.block [
  | none ↦ (null, a)
  | some items ↦ if a.count == 0 then (null, a) else (
    items a.head,
    record a { head = if leb a.capacity (a.head + 1) then 0 else a.head + 1; count = a.count - 1 },
  )
]

-- `array->data[tail] = item; array->count++;`
unfoldable pub append : DynamicArray → Table ℕ → ℕ → DynamicArray
append a items item = record a {
  count = a.count + 1;
  block = some (update items (wrap a.capacity (a.head + a.count)) item);
}

-- The copy into the new block, in logical order
unfoldable pub relocated : DynamicArray → Table ℕ → Table ℕ → Table ℕ
relocated a items new_block = fill a.count (λ i x. items (wrap a.capacity (a.head + i))) new_block

module _ (malloc : Malloc) where
  -- `array_init`: whether it returns the array, and the array
  unfoldable pub init : DynamicArray → Bool × DynamicArray
  init a = elim (malloc (initial_capacity * pointer_size)) [
    | none ↦ (false, record { head = 0; count = 0; capacity = 0; block = none })
    | some items ↦
        (true, record { head = 0; count = 0; capacity = initial_capacity; block = some items })
  ]

  -- `resize` of an array with a block: the new array with its block, or nothing and no change
  unfoldable pub resize : DynamicArray → Table ℕ → Option (DynamicArray × Table ℕ)
  resize a items =
      if a.capacity == 0
      then none
      else if ltb ((2 ^ 64 - 1) / (growth_factor * pointer_size)) a.capacity
      then none
      else elim (malloc (a.capacity * growth_factor * pointer_size)) [
        | none ↦ none
        | some new_block ↦
            let copy = relocated a items new_block in
            some (
              record a { block = some copy; capacity = a.capacity * growth_factor; head = 0 },
              copy,
            )
      ]

  unfoldable pub push_into : DynamicArray → Table ℕ → ℕ → Bool × DynamicArray
  push_into a items item =
      if leb a.capacity a.count
      then elim (resize a items) [
        | none ↦ (false, a)
        | some (a', items') ↦ (true, append a' items' item)
      ]
      else (true, append a items item)

  unfoldable pub push_block : DynamicArray → Option (Table ℕ) → ℕ → Bool × DynamicArray
  push_block a none item = (false, a)
  push_block a (some items) item = push_into a items item

  -- `array_push`, and `array_enqueue`, which is the same; an array without a block is initialized
  -- first.
  unfoldable pub push : DynamicArray → ℕ → Bool × DynamicArray
  push a item = elim a.block [
    | none ↦ push_block (init a).1 (init a).1.block item
    | some items ↦ push_into a items item
  ]
