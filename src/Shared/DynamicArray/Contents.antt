-- ===== src/Shared/DynamicArray/Contents.antt =====
-- shared/dynamic_array/dynamic_array.c: histories of an array, against a list.
use lettuce_os.Base.{
  ℕ, zero, suc, ◌+◌, ◌-◌, ◌≤◌, ◌<◌, ◌≡◌, ◌≢◌, refl, ap, ◌∙◌, inl, inr, Bool, true, Option, none,
  some, List, [], ◌∷◌, ◌++◌, length, arith,
}
use lettuce_os.Shared.DynamicArray.{DynamicArray, Malloc, get, pop, dequeue, push}
use lettuce_os.Shared.DynamicArray.Laws.{IsValid, Agrees, pop_dequeue_lem}
use lettuce_os.Shared.DynamicArray.Push.{push-Pushes, growth_limit}

-- The first n values of f
abbrev listed : (ℕ → ℕ) → ℕ → List ℕ
listed f zero = []
listed f (suc n) = f 0 ∷ listed (λ i. f (suc i)) n

listed_congr : (f g : ℕ → ℕ) (n : ℕ) → ((i : ℕ) → i < n → f i ≡ g i) → listed f n ≡ listed g n
listed_congr f g zero h = refl
listed_congr f g (suc n) h =
    rw
      (
        h 0 (omega arith),
        listed_congr (λ i. f (suc i)) (λ i. g (suc i)) n (λ i l. h (suc i) (omega arith)),
      )
      refl

listed_snoc : (f : ℕ → ℕ) (n : ℕ) → listed f (suc n) ≡ listed f n ++ (f n ∷ [])
listed_snoc f zero = refl
listed_snoc f (suc n) = ap (◌∷◌ (f 0)) (listed_snoc (λ i. f (suc i)) n)

-- The items of an array, in their order
abbrev pub contents : DynamicArray → List ℕ
contents a = listed (get a) a.count

-- A call of the interface, and what it returns
pub data Call : Type 0 where
  pushes : ℕ → Call
  pops dequeues : Call

pub data Answer : Type 0 where
  done : Bool → Answer
  item : ℕ → Answer

unfoldable pub step : Malloc → DynamicArray → Call → Answer × DynamicArray
step malloc a (pushes x) = let (ok, b) = push malloc a x in (done ok, b)
step malloc a pops = let (x, b) = pop a in (item x, b)
step malloc a dequeues = let (x, b) = dequeue a in (item x, b)

unfoldable pub run : Malloc → DynamicArray → List Call → List Answer × DynamicArray
run malloc a [] = ([], a)
run malloc a (c ∷ cs) =
    let (answer, b) = step malloc a c in
    let (answers, end) = run malloc b cs in (answer ∷ answers, end)

-- The last item of a list, and the others
unfoldable pub unsnoc : List ℕ → Option (ℕ × List ℕ)
unsnoc [] = none
unsnoc (x ∷ xs) = elim (unsnoc xs) [ none ↦ some (x, []) | some (y, ys) ↦ some (y, x ∷ ys) ]

unfoldable pub list_dequeue : List ℕ → Answer × List ℕ
list_dequeue [] = (item 0, [])
list_dequeue (x ∷ l) = (item x, l)

-- The calls on a list: a push never fails, and an empty list answers 0.
unfoldable pub list_step : List ℕ → Call → Answer × List ℕ
list_step l (pushes x) = (done true, l ++ (x ∷ []))
list_step l pops = elim (unsnoc l) [ none ↦ (item 0, l) | some (x, rest) ↦ (item x, rest) ]
list_step l dequeues = list_dequeue l

unfoldable pub list_run : List ℕ → List Call → List Answer × List ℕ
list_run l [] = ([], l)
list_run l (c ∷ cs) =
    let (answer, l') = list_step l c in
    let (answers, end) = list_run l' cs in (answer ∷ answers, end)

unsnoc_lem : (l : List ℕ) (x : ℕ) → unsnoc (l ++ (x ∷ [])) ≡ some (x, l)
unfolding unsnoc
unsnoc_lem [] x = refl
unsnoc_lem (y ∷ l) x = rw (unsnoc_lem l x) refl

contents_snoc :
    (a b : DynamicArray) (x : ℕ)
    → b.count ≡ a.count + 1
    → Agrees a b a.count
    → get b a.count ≡ x
    → contents b ≡ contents a ++ (x ∷ [])
contents_snoc a b x count kept last =
    let next : b.count ≡ suc a.count = omega (arith, count) in
    ap (listed (get b)) next
    ∙ listed_snoc (get b) a.count
    ∙ rw (listed_congr (get b) (get a) a.count kept, last) refl

-- What a call does to the array a is what it does to a list.
record Follows (a : DynamicArray) (out : Answer × DynamicArray) (ref : Answer × List ℕ)
    : Type 0 where
  answer_eq : out.0 ≡ ref.0
  contents_eq : contents out.1 ≡ ref.1
  valid : IsValid out.1
  count_le : out.1.count ≤ a.count + 1

module _ (malloc : Malloc) (a : DynamicArray) (v : IsValid a) where
  push-Follows :
      (x : ℕ)
      → ((n : ℕ) → malloc n ≢ none)
      → a.count < growth_limit
      → Follows a (step malloc a (pushes x)) (list_step (contents a) (pushes x))
  unfolding step list_step
  push-Follows x memory small = elim (push-Pushes malloc a x v) [
    | inl (ok, (valid, count, kept, last)) ↦ record {
      answer_eq = rw ok refl;
      contents_eq = contents_snoc a (push malloc a x).1 x count kept last;
      valid = valid;
      count_le = omega (arith, count);
    }
    | inr (failed, w, count, kept, why) ↦ elim why [
      | inl (n, e) ↦ absurd (memory n e)
      | inr (big, full) ↦ absurd (omega (arith, big, full, small))
    ]
  ]

  empty-Follows : a.count ≡ 0 → Follows a (item 0, a) (item 0, contents a)
  empty-Follows empty = record {
    answer_eq = refl;
    contents_eq = refl;
    valid = v;
    count_le = omega arith;
  }

  pops-Follows : Follows a (step malloc a pops) (list_step (contents a) pops)
  unfolding step list_step
  pops-Follows = elim (pop_dequeue_lem a v) [
    | inl (empty, stays, _) ↦
        let nothing : contents a ≡ [] = ap (listed (get a)) empty in
        let alone : unsnoc (contents a) ≡ none = rw nothing (unfold unsnoc in refl) in
        rw (stays, alone, list_step) (empty-Follows empty)
    | inr (some_items, last, count, kept, _, _, _, valid, _) ↦
        let n : a.count ≡ suc (a.count - 1) = omega (arith, some_items) in
        let split : contents a ≡ listed (get a) (a.count - 1) ++ (get a (a.count - 1) ∷ []) =
          ap (listed (get a)) n ∙ listed_snoc (get a) (a.count - 1) in
        let parts : unsnoc (contents a) ≡ some (get a (a.count - 1), listed (get a) (a.count - 1)) =
          ap unsnoc split ∙ unsnoc_lem (listed (get a) (a.count - 1)) (get a (a.count - 1)) in
        rw (parts, list_step)
          (record {
            answer_eq = ap item last;
            contents_eq =
                ap (listed (get (pop a).1)) count
                ∙ listed_congr (get (pop a).1) (get a) (a.count - 1) kept;
            valid = valid;
            count_le = omega (arith, count);
          })
  ]

  dequeues-Follows : Follows a (step malloc a dequeues) (list_step (contents a) dequeues)
  unfolding step list_step list_dequeue
  dequeues-Follows = elim (pop_dequeue_lem a v) [
    | inl (empty, _, stays) ↦
        let nothing : contents a ≡ [] = ap (listed (get a)) empty in
        rw (stays, nothing)
          (record { answer_eq = refl; contents_eq = nothing; valid = v; count_le = omega arith })
    | inr (some_items, _, _, _, first, count, kept, _, valid) ↦
        let n : a.count ≡ suc (a.count - 1) = omega (arith, some_items) in
        let split : contents a ≡ get a 0 ∷ listed (λ i. get a (suc i)) (a.count - 1) =
          ap (listed (get a)) n in
        let rest = (dequeue a).1 in
        let moved : contents rest ≡ listed (λ i. get a (suc i)) (a.count - 1) =
          ap (listed (get rest)) count
          ∙ listed_congr (get rest) (λ i. get a (suc i)) (a.count - 1)
              (λ i l. kept i l ∙ ap (get a) (omega arith)) in
        rw split (record {
          answer_eq = ap item first;
          contents_eq = moved;
          valid = valid;
          count_le = omega (arith, count);
        })
  ]

  step-Follows :
      (c : Call)
      → ((n : ℕ) → malloc n ≢ none)
      → a.count < growth_limit
      → Follows a (step malloc a c) (list_step (contents a) c)
  step-Follows (pushes x) memory small = push-Follows x memory small
  step-Follows pops memory small = pops-Follows
  step-Follows dequeues memory small = dequeues-Follows

-- With memory that does not run out, and fewer calls than there is room for, a valid array answers
-- every history of pushes, pops and dequeues as the list of its items does, holds then the items of
-- that list in their order, and is valid.
pub run-contents :
    (malloc : Malloc) (a : DynamicArray) (cs : List Call)
    → IsValid a
    → ((n : ℕ) → malloc n ≢ none)
    → a.count + length cs ≤ growth_limit
    → ((run malloc a cs).0 ≡ (list_run (contents a) cs).0)
      × (contents (run malloc a cs).1 ≡ (list_run (contents a) cs).1)
      × IsValid (run malloc a cs).1
unfolding run list_run
run-contents malloc a [] v memory room = (refl, refl, v)
run-contents malloc a (c ∷ cs) v memory room =
    let f = step-Follows malloc a v c memory (omega (arith, room)) in
    let b = (step malloc a c).1 in
    let (answers, items, valid) =
      run-contents malloc b cs f.valid memory (omega (arith, room, f.count_le)) in
    let after = ap (λ l. list_run l cs) f.contents_eq in
    (rw (f.answer_eq, answers, after) refl, items ∙ ap (λ o. o.1) after, valid)
