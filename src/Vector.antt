-- ===== src/Vector.antt =====
-- libwget/vector.c: growing vectors with an optional comparison function. A vector's `entry` is
-- the list of the `cur` elements in use. The destructor and the copies that `alloc` makes are not
-- modelled: an element is a value. `NULL` vectors are left out. A comparison returns the sign of
-- its `int`.
pub mod Numbers
pub mod Move
pub mod Append
pub mod Lex
pub mod Flag
pub mod Insert
pub mod Remove
pub mod Replace
mod Tests
pub mod Sorted
pub mod Scan
pub mod Search
pub mod Swap
pub mod Order
use Prim.Native.Nat.{Ordering, lt, eq, gt}
use wget.Prelude.{
  ℕ, zero, suc, ◌+◌, ◌-◌, ◌*◌, ◌/◌, Bool, true, false, not, ◌&&◌, ◌||◌, List, [], ◌∷◌, ◌++◌, Option,
  none, some, length, get_or, get_elem?, set, take, drop, ltb, ◌==◌, if◌then◌else◌, ℤ, pos, negsuc,
  minus_one,
}

abbrev pub Compare : Type 0 → Type 0
Compare A = A → A → Ordering

abbrev pub is_gt : Ordering → Bool
is_gt gt = true
is_gt _ = false

abbrev pub is_lt : Ordering → Bool
is_lt lt = true
is_lt _ = false

abbrev pub is_eq : Ordering → Bool
is_eq eq = true
is_eq _ = false

pub record Vector (A : Type 0) : Type 0 where
  pub entry : List A
  pub max : ℕ
  pub off : ℤ
  pub sorted : Bool
  pub cmp : Option (Compare A)

-- what a full vector grows to, by `off`
unfoldable pub grown : ℕ → ℤ → Option ℕ
grown max (pos zero) = none
grown max (pos (suc k)) = some (max + suc k)
grown max (negsuc zero) = none
grown max (negsuc (suc k)) = some (max * suc (suc k))

pub found : Bool × ℕ × Ordering → ℤ
found (true, m, _) = pos m
found (false, _, _) = minus_one

-- where `_vec_insert_sorted_private` inserts, from what the loop left
pub sorted_position : Bool × ℕ × Ordering → ℕ
sorted_position (true, m, _) = m
sorted_position (false, m, res) = if is_gt res then m + 1 else m

module _ {A : Type 0} where
  -- `wget_vector_create`
  unfoldable pub create : ℕ → ℤ → Option (Compare A) → Vector A
  create max off cmp = record { entry = []; max = max; off = off; sorted = false; cmp = cmp }

  -- `if (v->max == v->cur) …`: `none` where the function returns -1
  pub make_room : Vector A → Option (Vector A)
  make_room v =
      if v.max == length v.entry
      then elim (grown v.max v.off) [ none ↦ none | some m ↦ some (record v { max = m }) ]
      else some v

  -- `memmove` and the store
  pub insert_at : ℕ → A → List A → List A
  insert_at p elem xs = take p xs ++ (elem ∷ drop p xs)

  -- the comparisons with the neighbours of the new element
  pub in_order : Compare A → A → List A → ℕ → Bool
  in_order c elem xs p =
      if p == 0
      then not (is_gt (c elem (get_or xs 1 elem)))
      else if p == length xs - 1
      then not (is_lt (c elem (get_or xs (length xs - 2) elem)))
      else not (is_lt (c elem (get_or xs (p - 1) elem)) || is_gt (c elem (get_or xs (p + 1) elem)))

  -- `if (v->cmp) …` behind the store
  pub sorted_flag : Option (Compare A) → A → List A → ℕ → Bool → Bool
  sorted_flag none elem xs p sorted = sorted
  sorted_flag (some c) elem xs p sorted =
      if length xs == 1
      then true
      else if ltb 1 (length xs) && sorted
      then in_order c elem xs p
      else sorted

  pub store : Vector A → List A → A → ℕ → Vector A × ℤ
  store v xs elem p =
      (record v { entry = xs; sorted = sorted_flag v.cmp elem xs p v.sorted }, pos p)

  -- `_vec_insert_private` for a vector that is not NULL
  pub insert_private : Vector A → A → ℤ → Bool → Vector A × ℤ
  unfolding make_room insert_at store sorted_flag in_order grown
  insert_private v elem (negsuc _) replace = (v, minus_one)
  insert_private v elem (pos p) replace =
      if ltb (length v.entry) p
      then (v, minus_one)
      else if replace
      then store v (set v.entry p elem) elem p
      else elim (make_room v) [
        | none ↦ (v, minus_one)
        | some w ↦ store w (insert_at p elem w.entry) elem p
      ]

  -- `wget_vector_insert`, `wget_vector_insert_noalloc`
  unfoldable pub insert : Vector A → A → ℤ → Vector A × ℤ
  unfolding insert_private
  insert v elem p = insert_private v elem p false

  -- `wget_vector_add`, `wget_vector_add_noalloc`
  unfoldable pub add : Vector A → A → Vector A × ℤ
  unfolding insert_private
  add v elem = insert_private v elem (pos (length v.entry)) false

  -- `_wget_vector_replace`
  unfoldable pub replace : Vector A → A → ℤ → Vector A × ℤ
  unfolding insert_private
  replace v elem (negsuc _) = (v, minus_one)
  replace v elem (pos p) =
      if ltb p (length v.entry) then insert_private v elem (pos p) true else (v, minus_one)

  -- `_vec_remove_private`
  unfoldable pub remove : Vector A → ℤ → Vector A × ℤ
  remove v (negsuc _) = (v, minus_one)
  remove v (pos p) =
      if ltb p (length v.entry)
      then (record v { entry = take p v.entry ++ drop (suc p) v.entry }, pos p)
      else (v, minus_one)

  -- `wget_vector_get`
  unfoldable pub get : Vector A → ℤ → Option A
  get v (negsuc _) = none
  get v (pos p) = if ltb p (length v.entry) then get_elem? v.entry p else none

  -- the binary search; `hi` is `r + 1`. The result is whether the element was met, the last `m`,
  -- and the last `res`. `fuel` bounds the rounds.
  pub search_loop : ℕ → Compare A → A → List A → ℕ → ℕ → ℕ → Ordering → Bool × ℕ × Ordering
  search_loop zero c elem xs l hi m res = (false, m, res)
  search_loop (suc fuel) c elem xs l hi m res =
      let mid = (l + (hi - 1)) / 2 in
      let r = c elem (get_or xs mid elem) in
      elim (ltb l hi) [
        | false ↦ (false, m, res)
        | true ↦ elim r [
          | gt ↦ search_loop fuel c elem xs (mid + 1) hi mid gt
          | lt ↦ search_loop fuel c elem xs l mid mid lt
          | eq ↦ (true, mid, eq)
        ]
      ]

  -- `for (it = 0; it < v->cur; it++)`, from `it` on
  pub linear_search : Compare A → A → List A → ℕ → ℤ
  linear_search c elem [] it = minus_one
  linear_search c elem (x ∷ xs) it =
      if is_eq (c elem x) then pos it else linear_search c elem xs (it + 1)

  pub find_with : Option (Compare A) → Vector A → A → ℤ
  unfolding search_loop linear_search found
  find_with none v elem = minus_one
  find_with (some c) v elem =
      if length v.entry == 1
      then (if is_eq (c elem (get_or v.entry 0 elem)) then pos 0 else minus_one)
      else if v.sorted
      then found (search_loop (length v.entry) c elem v.entry 0 (length v.entry) 0 eq)
      else linear_search c elem v.entry 0

  -- `wget_vector_find`
  unfoldable pub find : Vector A → A → ℤ
  unfolding find_with
  find v elem = find_with v.cmp v elem

module _ {A : Type 0} where
  -- the search in the sorted vector, and the insertion
  pub insert_by_search : Compare A → Vector A → A → Vector A × ℤ
  unfolding sorted_position search_loop insert_private
  insert_by_search c v elem =
      let n = length v.entry in
      insert_private v elem (pos (sorted_position (search_loop n c elem v.entry 0 n 0 eq))) false

-- `qsort_r` of the C library: it permutes the elements into an order of the comparison
pub record Sorter (A : Type 0) : Type 0 where
  pub sort : Compare A → List A → List A

module _ {A : Type 0} (qsort : Sorter A) where
  pub sort_with : Option (Compare A) → Vector A → Vector A
  sort_with none v = v
  sort_with (some c) v = record v { entry = qsort.sort c v.entry; sorted = true }

  -- `wget_vector_sort`
  unfoldable pub sort : Vector A → Vector A
  unfolding sort_with
  sort v = sort_with v.cmp v

  -- `if (!v->sorted) wget_vector_sort(v)`
  pub sorted_first : Vector A → Vector A
  unfolding sort
  sorted_first v = if v.sorted then v else sort v

  pub insert_sorted_with : Option (Compare A) → Vector A → A → Vector A × ℤ
  unfolding sorted_first insert_by_search insert_private
  insert_sorted_with none v elem = insert_private v elem (pos (length v.entry)) false
  insert_sorted_with (some c) v elem = insert_by_search c (sorted_first v) elem

  -- `_vec_insert_sorted_private`
  unfoldable pub insert_sorted : Vector A → A → Vector A × ℤ
  unfolding insert_sorted_with
  insert_sorted v elem = insert_sorted_with v.cmp v elem
