-- ===== src/Vector/Numbers.antt =====
-- A comparison and a sort to run the vector with: numbers, and insertion sort in place of `qsort_r`.
use mathlib.Core.List.{Perm}
use mathlib.Core.List.Perm
use wget.Prelude.{List, [], ◌∷◌, All, if◌then◌else◌, Bool-cases, inl, inr, arith}
use wget.Vector.Order.{IsOrder, Le, Sorted, All-Le}
use wget.Vector.Sorted.{Sorts}
use wget.Vector.{Compare, is_gt, Sorter}

module _ {A : Type 0} (c : Compare A) where
  pub put : A → List A → List A
  put e [] = e ∷ []
  put e (x ∷ xs) = if is_gt (c e x) then x ∷ put e xs else e ∷ x ∷ xs

  unfoldable pub insertion_sort : List A → List A
  unfolding put
  insertion_sort [] = []
  insertion_sort (x ∷ xs) = put x (insertion_sort xs)

  put-perm : (e : A) (xs : List A) → Perm (put e xs) (e ∷ xs)
  unfolding put
  put-perm e [] = Perm.refl (e ∷ [])
  put-perm e (x ∷ xs) = elim (Bool-cases (is_gt (c e x))) [
    | inl g ↦ rw g (Perm.trans (Perm.cons x (put-perm e xs)) (Perm.swap e x xs))
    | inr l ↦ rw l (Perm.refl (e ∷ x ∷ xs))
  ]

  insertion_sort-perm : (xs : List A) → Perm (insertion_sort xs) xs
  unfolding insertion_sort
  insertion_sort-perm [] = Perm.refl []
  insertion_sort-perm (x ∷ xs) =
      Perm.trans (put-perm x (insertion_sort xs)) (Perm.cons x (insertion_sort-perm xs))

  module _ (o : IsOrder c) where
    All-put : (P : A → Type 0) (e : A) (xs : List A) → P e → All P xs → All P (put e xs)
    unfolding put
    All-put P e [] h k = (h, tt)
    All-put P e (x ∷ xs) h k = elim (Bool-cases (is_gt (c e x))) [
      | inl g ↦ rw g (k.0, All-put P e xs h k.1)
      | inr l ↦ rw l (h, k)
    ]

    Sorted-put : (e : A) (xs : List A) → Sorted c xs → Sorted c (put e xs)
    unfolding put
    Sorted-put e [] s = (tt, tt)
    Sorted-put e (x ∷ xs) s = elim (Bool-cases (is_gt (c e x))) [
      | inl g ↦ rw g (All-put (Le c x) e xs (ground (arith, o.turn e x)) s.0, Sorted-put e xs s.1)
      | inr l ↦ rw l ((ground arith, All-Le o e x xs (ground arith) s.0), s)
    ]

    insertion_sort-Sorted : (xs : List A) → Sorted c (insertion_sort xs)
    unfolding insertion_sort
    insertion_sort-Sorted [] = tt
    insertion_sort-Sorted (x ∷ xs) = Sorted-put x (insertion_sort xs) (insertion_sort-Sorted xs)

abbrev pub by_insertion : {A : Type 0} → Sorter A
by_insertion = record { sort = λ c xs. insertion_sort c xs }

pub by_insertion-Sorts : {A : Type 0} → Sorts (by_insertion {A = A})
by_insertion-Sorts = record {
  sort-perm = λ c xs. insertion_sort-perm c xs;
  sort-Sorted = λ c xs o. insertion_sort-Sorted c o xs;
}
