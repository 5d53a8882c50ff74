-- ===== src/LinkedList/Tests.antt =====
-- Runs of the list functions, and the theorems at concrete nodes.
use wget.Prelude.{◌++◌, ℤ, pos, map, arith, ◌≡◌, refl, [], ◌∷◌, some, codes}
use wget.LinkedList.Walk.{list_free-empty, list_browse-visits, visit_all}
use wget.LinkedList.{
  Bytes, list_free, list_browse, Store, root_place, list_append, list_prepend, list_remove,
  getfirst, getlast,
}
use wget.LinkedList.Ring.{IsRing}
use wget.LinkedList.Insert.{list_append-IsRing}
use wget.LinkedList.Prepend.{list_prepend-IsRing}
use wget.LinkedList.Remove.{list_remove-IsRing}

abbrev empty : Store
empty = record { next = λ n. 0; prev = λ n. 0; value = λ n. []; root = 0 }

abbrev one : Store
one = list_append root_place 5 (codes "a") empty

abbrev two : Store
two = list_append root_place 7 (codes "b") one

ends : (getfirst two ≡ some 5) × (getlast two ≡ some 7)
unfolding list_append getfirst getlast
ends = (refl, refl)

-- the new node is not the first
prepended : getfirst (list_prepend 9 (codes "c") two) ≡ some 5
unfolding list_append list_prepend getfirst
prepended = refl

one-IsRing : IsRing one (5 ∷ [])
one-IsRing = list_append-IsRing empty [] 5 (codes "a") refl refl tt

list_append-IsRing_example : IsRing two (5 ∷ 7 ∷ [])
list_append-IsRing_example =
    list_append-IsRing one (5 ∷ []) 7 (codes "b") one-IsRing refl (refl, tt)

two-IsRing : IsRing two (5 ∷ 7 ∷ [])
two-IsRing = list_append-IsRing one (5 ∷ []) 7 (codes "b") one-IsRing refl (refl, tt)

list_prepend-IsRing_example : IsRing (list_prepend 9 (codes "c") two) (5 ∷ 9 ∷ 7 ∷ [])
list_prepend-IsRing_example =
    list_prepend-IsRing two 5 [] 7 9 (codes "c") two-IsRing refl (refl, (refl, tt))

list_remove-IsRing_example : IsRing (list_remove 5 two) (7 ∷ [])
list_remove-IsRing_example = list_remove-IsRing two [] 5 (7 ∷ []) two-IsRing

abbrev join : Bytes → Bytes → Bytes × ℤ
join context v = (context ++ v, pos 0)

browsed : list_browse join 9 [] two ≡ visit_all join (two.value 5) (map two.value (7 ∷ [])) []
browsed = list_browse-visits join 9 two 5 (7 ∷ []) [] two-IsRing (omega arith)

freed : (list_free 9 two).root ≡ 0
freed = list_free-empty 9 two (5 ∷ 7 ∷ []) two-IsRing (omega arith)
