-- ===== src/Vector/Tests.antt =====
-- Runs of the vector, and the theorems at concrete vectors of numbers.
use Prim.Native.Nat.{compare}
use wget.Vector.Insert.{IsValid}
use wget.Vector.Lex.{compare-IsOrder}
use wget.Vector.Numbers.{by_insertion, by_insertion-Sorts, insertion_sort}
use wget.Vector.Scan.{findext}
use wget.Vector.Swap.{swap}
use wget.Vector.Move.{move}
use wget.Vector.Search.{Finds, find-Finds}
use wget.Vector.Sorted.{InsertedSorted, insert_sorted-InsertedSorted}
use wget.Vector.Order.{IsOrder, Sorted}
use wget.Vector.{grown, Compare, Vector, insert, insert_sorted, find}
use wget.Prelude.{◌==◌, subst, ℕ, true, false, [], ◌∷◌, some, pos, negsuc, ◌≡◌, refl, arith}

abbrev three : Vector ℕ
three = record {
  entry = 10 ∷ 20 ∷ 30 ∷ [];
  max = 3;
  off = negsuc 1;
  sorted = true;
  cmp = some compare;
}

abbrev mixed : Vector ℕ
mixed = record {
  entry = 30 ∷ 10 ∷ 20 ∷ [];
  max = 4;
  off = pos 4;
  sorted = false;
  cmp = some compare;
}

insert_full :
    insert three 25 (pos 1)
    ≡ (record three { entry = 10 ∷ 25 ∷ 20 ∷ 30 ∷ []; max = 6; sorted = false }, pos 1)
unfolding insert
insert_full = refl

insert_sorted-mixed :
    insert_sorted by_insertion mixed 15
    ≡ (record mixed { entry = 10 ∷ 15 ∷ 20 ∷ 30 ∷ []; sorted = true }, pos 1)
unfolding insert_sorted insertion_sort
insert_sorted-mixed = refl

find_twenty : find three 20 ≡ pos 1
unfolding find
find_twenty = refl

same_compare : (c : Compare ℕ) → some compare ≡ some c → compare ≡ c
same_compare c e = cc

orders : (c : Compare ℕ) → some compare ≡ some c → IsOrder c
orders c e = subst (λ d. IsOrder d) (same_compare c e) compare-IsOrder

sorted_three : Sorted compare three.entry
sorted_three = ground arith

three-IsValid : IsValid three
three-IsValid = record {
  fits = omega arith;
  truthful = λ c is_c flag. subst (λ d. Sorted d three.entry) (same_compare c is_c) sorted_three;
}

mixed-IsValid : IsValid mixed
mixed-IsValid = record { fits = omega arith; truthful = λ c is_c flag. cc }

find-Finds_example : Finds compare 20 three.entry (find three 20)
find-Finds_example = find-Finds three 20 refl compare-IsOrder (λ flag. sorted_three)

insert_sorted-InsertedSorted_example :
    InsertedSorted compare mixed 15 (insert_sorted by_insertion mixed 15)
unfolding grown
insert_sorted-InsertedSorted_example =
    insert_sorted-InsertedSorted by_insertion by_insertion-Sorts compare-IsOrder mixed 15 8 refl
      mixed-IsValid (omega arith) refl

find_down : findext mixed (pos 2) true (λ n. n == 30) ≡ pos 0
unfolding findext
find_down = refl

swap_ends :
    swap three (pos 0) (pos 2) ≡ (record three { entry = 30 ∷ 20 ∷ 10 ∷ []; sorted = false }, pos 0)
unfolding swap
swap_ends = refl

move_first :
    move three (pos 0) (pos 2) ≡ (record three { entry = 20 ∷ 30 ∷ 10 ∷ []; sorted = false }, pos 0)
unfolding move
move_first = refl
