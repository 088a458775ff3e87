-- ===== src/Tests/Shared.antt =====
-- shared/dynamic_array/dynamic_array.c: five items in an array that starts with room for four.
use lettuce_os.Base.{List, [], ◌∷◌, ℕ, ◌≡◌, refl, none, some, update, fill, arith}
use lettuce_os.Shared.DynamicArray.{
  DynamicArray, Malloc, get, pop, dequeue, append, relocated, wrap, init, resize, push, push_into,
  push_block,
}
use lettuce_os.Shared.DynamicArray.Laws.{IsValid}
use lettuce_os.Shared.DynamicArray.Contents.{
  Call, pushes, pops, dequeues, contents, run, list_run, run-contents,
}

-- Memory that never runs out, and holds 9 when it is new
abbrev malloc : Malloc
malloc n = some (λ i. 9)

abbrev nothing : DynamicArray
nothing = record { head = 0; count = 0; capacity = 0; block = none }

nothing-IsValid : IsValid nothing
nothing-IsValid = record {
  count_le = omega arith;
  capacity_le = omega arith;
  no_block = λ e. refl;
  head_lt = λ n. absurd (n refl);
}

abbrev pushed : ℕ → DynamicArray → DynamicArray
pushed x a = (push malloc a x).1

abbrev four : DynamicArray
four = pushed 14 (pushed 13 (pushed 12 (pushed 11 nothing)))

-- The head has moved round, so the growth copies a wrapped array.
abbrev five : DynamicArray
five = pushed 16 (pushed 15 (dequeue four).1)

in_order : (get five 0 ≡ 12) × (get five 4 ≡ 16) × (five.capacity ≡ 8) × (five.count ≡ 5)
unfolding push push_into push_block append init resize relocated wrap dequeue get fill
in_order = (refl, refl, refl, refl)

both_ends : ((pop five).0 ≡ 16) × ((dequeue five).0 ≡ 12)
unfolding pop push push_into push_block append init resize relocated wrap dequeue get fill
both_ends = (refl, refl)

abbrev two : DynamicArray
two = record { head = 3; count = 2; capacity = 4; block = some (update (λ i. 7) 3 5) }

two-IsValid : IsValid two
two-IsValid = record {
  count_le = omega arith;
  capacity_le = omega arith;
  no_block = λ e. absurd (cc e);
  head_lt = λ n. omega arith;
}

abbrev calls : List Call
calls = pushes 6 ∷ dequeues ∷ pushes 8 ∷ pushes 9 ∷ pushes 10 ∷ pops ∷ []

run-contents_example :
    ((run malloc two calls).0 ≡ (list_run (contents two) calls).0)
    × (contents (run malloc two calls).1 ≡ (list_run (contents two) calls).1)
    × IsValid (run malloc two calls).1
run-contents_example =
    run-contents malloc two calls two-IsValid (λ n e. absurd (cc e)) (omega arith)
