-- ===== src/Vector/Search.antt =====
-- The binary search of libwget/vector.c and `wget_vector_find`.
use Prim.Native.Nat.{Ordering, lt, eq, gt}
use wget.Prelude.{
  subst, sym, ltb_iff, ℕ, zero, suc, ◌+◌, ◌-◌, ◌/◌, ◌<◌, ◌≤◌, ◌≡◌, ◌≢◌, ◌⊎◌, inl, inr, refl, Bool,
  true, false, Bool-cases, List, [], ◌∷◌, length, get_or, some, ltb, ◌==◌, if◌then◌else◌, ℤ, pos,
  negsuc, minus_one, arith,
}
use wget.Vector.Order.{IsOrder, Sorted, Sorted-get_or, lt_trans_left, gt_trans_right}
use wget.Vector.{
  Compare, is_eq, Vector, search_loop, linear_search, found, find_with, find, sorted_position,
}

pub Ordering-cases : (r : Ordering) → (r ≡ lt) ⊎ ((r ≡ eq) ⊎ (r ≡ gt))
Ordering-cases lt = inl refl
Ordering-cases eq = inr (inl refl)
Ordering-cases gt = inr (inr refl)

-- What a search for `elem` returns: where an element equal to it stands, or -1 if there is none.
abbrev pub Finds : {A : Type 0} → Compare A → A → List A → ℤ → Type 0
Finds c elem xs (pos i) = (i < length xs) × (c elem (get_or xs i elem) ≡ eq)
Finds c elem xs (negsuc _) = (i : ℕ) → i < length xs → c elem (get_or xs i elem) ≢ eq

module _ {A : Type 0} {c : Compare A} (o : IsOrder c) (elem : A) (xs : List A)
    (s : Sorted c xs) where
  -- `p` splits the list into what is smaller than `elem` and what is greater.
  pub record Splits (p : ℕ) : Type 0 where
    pub inside : p ≤ length xs
    pub before : (i : ℕ) → i < p → c elem (get_or xs i elem) ≡ gt
    pub after : (i : ℕ) → p ≤ i → i < length xs → c elem (get_or xs i elem) ≡ lt

  unfoldable pub Outcome : Bool × ℕ × Ordering → Type 0
  Outcome (true, m, res) = (m < length xs) × (c elem (get_or xs m elem) ≡ eq)
  Outcome (false, m, res) = Splits (sorted_position (false, m, res))

  Outcome-found :
      (m : ℕ) (res : Ordering)
      → m < length xs
      → c elem (get_or xs m elem) ≡ eq
      → Outcome (true, m, res)
  unfolding Outcome
  Outcome-found m res h e = (h, e)

  stop_search :
      (l hi m : ℕ) (res : Ordering)
      → l ≡ hi
      → hi ≤ length xs
      → ((i : ℕ) → i < l → c elem (get_or xs i elem) ≡ gt)
      → ((i : ℕ) → hi ≤ i → i < length xs → c elem (get_or xs i elem) ≡ lt)
      → (l ≡ hi → sorted_position (false, m, res) ≡ l)
      → Outcome (false, m, res)
  unfolding Outcome
  stop_search l hi m res e h b a last =
      rw (last e)
        (record { inside = omega arith; before = b; after = λ i p q. a i (omega arith) q })

  search_loop-Outcome :
      (fuel l hi m : ℕ) (res : Ordering)
      → hi ≤ l + fuel
      → l ≤ hi
      → hi ≤ length xs
      → ((i : ℕ) → i < l → c elem (get_or xs i elem) ≡ gt)
      → ((i : ℕ) → hi ≤ i → i < length xs → c elem (get_or xs i elem) ≡ lt)
      → (l ≡ hi → sorted_position (false, m, res) ≡ l)
      → Outcome (search_loop fuel c elem xs l hi m res)
  unfolding search_loop sorted_position
  search_loop-Outcome zero l hi m res f w h b a last =
      stop_search l hi m res (omega arith) h b a last
  search_loop-Outcome (suc fuel) l hi m res f w h b a last =
      let mid = (l + (hi - 1)) / 2 in
      elim (Bool-cases (ltb l hi)) [
        | inr stop ↦ rw (stop, search_loop) (stop_search l hi m res (ground arith) h b a last)
        | inl more ↦
            let lh : l < hi = (ltb_iff l hi).0 more in
            rw (more, search_loop)
              (elim (Ordering-cases (c elem (get_or xs mid elem))) [
                | inl less ↦ rw less (
                    search_loop-Outcome fuel l mid mid lt (omega arith) (omega arith) (omega arith)
                      b
                      (λ i p q. lt_trans_left o elem _ _ less (Sorted-get_or o xs mid i elem s p q))
                      (λ e. sym e))
                | inr (inl same) ↦ rw same (Outcome-found mid eq (omega arith) same)
                | inr (inr greater) ↦ rw greater (
                    search_loop-Outcome fuel (mid + 1) hi mid gt (omega arith) (omega arith) h
                      (λ i p.
                        gt_trans_right o elem _ _ greater
                          (Sorted-get_or o xs i mid elem s (omega arith) (omega arith)))
                      a (λ e. refl))
              ])
      ]

  -- The search of the whole list: the fuel is enough, and where `elem` is not met, the position
  -- that `_vec_insert_sorted_private` computes splits the list.
  pub search-Outcome : Outcome (search_loop (length xs) c elem xs 0 (length xs) 0 eq)
  unfolding sorted_position
  search-Outcome =
      search_loop-Outcome (length xs) 0 (length xs) 0 eq (omega arith) (omega arith) (omega arith)
        (λ i p. absurd (omega arith)) (λ i p q. absurd (omega arith)) (λ e. refl)

  Outcome-Finds : (r : Bool × ℕ × Ordering) → Outcome r → Finds c elem xs (found r)
  unfolding Outcome found
  Outcome-Finds (true, m, res) h = h
  Outcome-Finds (false, m, res) h = λ i p e.
      elim (Bool-cases (ltb i (sorted_position (false, m, res)))) [
        | inl left ↦ cc (h.before i (ground arith))
        | inr right ↦ cc (h.after i (ground arith) p)
      ]

  pub search-Finds : Finds c elem xs (found (search_loop (length xs) c elem xs 0 (length xs) 0 eq))
  search-Finds = Outcome-Finds _ search-Outcome

-- The same for the list from `it` on.
abbrev FindsFrom : {A : Type 0} → Compare A → A → List A → ℕ → ℤ → Type 0
FindsFrom c elem xs it (pos k) =
    (i : ℕ) × (k ≡ it + i) × (i < length xs) × (c elem (get_or xs i elem) ≡ eq)
FindsFrom c elem xs it (negsuc _) = (i : ℕ) → i < length xs → c elem (get_or xs i elem) ≢ eq

module _ {A : Type 0} (c : Compare A) (elem : A) where
  absent-cons :
      (x : A) (xs : List A)
      → c elem x ≢ eq
      → ((i : ℕ) → i < length xs → c elem (get_or xs i elem) ≢ eq)
      → (i : ℕ) → i < length (x ∷ xs)
      → c elem (get_or (x ∷ xs) i elem) ≢ eq
  absent-cons x xs n h zero p = n
  absent-cons x xs n h (suc i) p = h i (omega arith)

  FindsFrom-cons :
      (x : A) (xs : List A) (it : ℕ) (r : ℤ)
      → c elem x ≢ eq
      → FindsFrom c elem xs (it + 1) r
      → FindsFrom c elem (x ∷ xs) it r
  FindsFrom-cons x xs it (pos k) n (i, e, f, g) = (suc i, (omega arith), (omega arith), g)
  FindsFrom-cons x xs it (negsuc _) n h = absent-cons x xs n h

  linear_search-FindsFrom :
      (xs : List A) (it : ℕ) → FindsFrom c elem xs it (linear_search c elem xs it)
  unfolding linear_search
  linear_search-FindsFrom [] it = λ i p. absurd (omega arith)
  linear_search-FindsFrom (x ∷ xs) it = elim (Ordering-cases (c elem x)) [
    | inl e ↦
        rw (e, linear_search)
          (FindsFrom-cons x xs it _ (λ f. cc) (linear_search-FindsFrom xs (it + 1)))
    | inr (inl e) ↦ rw (e, linear_search) (0, omega arith, omega arith, e)
    | inr (inr e) ↦
        rw (e, linear_search)
          (FindsFrom-cons x xs it _ (λ f. cc) (linear_search-FindsFrom xs (it + 1)))
  ]

  FindsFrom-zero : (xs : List A) (r : ℤ) → FindsFrom c elem xs 0 r → Finds c elem xs r
  FindsFrom-zero xs (pos k) (i, e, p, q) = let same : k ≡ i = omega arith in rw same (p, q)
  FindsFrom-zero xs (negsuc _) h = h

  find_one :
      (xs : List A)
      → length xs ≡ 1
      → Finds c elem xs (if is_eq (c elem (get_or xs 0 elem)) then pos 0 else minus_one)
  find_one [] h = absurd (omega arith)
  find_one (x ∷ []) h = elim (Ordering-cases (c elem x)) [
    | inl e ↦ rw e (absent-cons x [] (λ f. cc) (λ i p. absurd (omega arith)))
    | inr (inl e) ↦ rw e (omega arith, e)
    | inr (inr e) ↦ rw e (absent-cons x [] (λ f. cc) (λ i p. absurd (omega arith)))
  ]
  find_one (x ∷ y ∷ xs) h = absurd (omega arith)

  find_with-Finds :
      (v : Vector A)
      → IsOrder c
      → (v.sorted ≡ true → Sorted c v.entry)
      → Finds c elem v.entry (find_with (some c) v elem)
  unfolding find_with
  find_with-Finds v o s = elim (Bool-cases (length v.entry == 1)) [
    | inl one ↦ rw (one, find_with) (find_one v.entry (ground arith))
    | inr other ↦
        rw (other, find_with)
          (elim (Bool-cases v.sorted) [
            | inl e ↦ rw (e, find_with) (search-Finds o elem v.entry (s e))
            | inr e ↦
                rw (e, find_with) (FindsFrom-zero v.entry _ (linear_search-FindsFrom v.entry 0))
          ])
  ]

-- In a vector that is sorted if it says so, by a comparison that is an order: `wget_vector_find`
-- finds an element that compares equal, wherever it stands, and returns -1 only if there is none, by
-- binary search in a sorted vector and by linear search in another.
pub find-Finds :
    {A : Type 0} {c : Compare A} (v : Vector A) (elem : A)
    → v.cmp ≡ some c
    → IsOrder c
    → (v.sorted ≡ true → Sorted c v.entry)
    → Finds c elem v.entry (find v elem)
unfolding find
find-Finds {c = c} v elem e o s =
    subst (λ q. Finds c elem v.entry (find_with q v elem)) (sym e) (find_with-Finds c elem v o s)
