-- ===== src/Vector/Flag.antt =====
-- What an insertion of libwget/vector.c does to the elements, and what its comparisons with the
-- neighbours say.
use mathlib.Core.List.{Perm, perm_middle}
use wget.Prelude.{
  ◌||◌, ◌↔◌, not, ℕ, zero, suc, ◌+◌, ◌-◌, ◌<◌, ◌≤◌, ◌≡◌, inl, inr, refl, subst, Bool, true, false,
  Bool-cases, List, [], ◌∷◌, length, get_or, some, ◌==◌, arith, take, drop, take-append-drop,
}
use wget.Vector.Order.{IsOrder, Le, Sorted, Sorted-insert_at, le_of_not_lt}
use wget.Vector.{is_gt, is_lt, Compare, insert_at, in_order, sorted_flag}

module _ {A : Type 0} where
  pub length-insert_at : (p : ℕ) (e : A) (xs : List A) → length (insert_at p e xs) ≡ suc (length xs)
  unfolding insert_at
  length-insert_at zero e xs = refl
  length-insert_at (suc p) e [] = refl
  length-insert_at (suc p) e (x ∷ xs) = omega (arith, length-insert_at p e xs)

  pub get_or-insert_before :
      (p i : ℕ) (e d : A) (xs : List A)
      → i < p
      → p ≤ length xs
      → get_or (insert_at p e xs) i d ≡ get_or xs i d
  unfolding insert_at
  get_or-insert_before zero i e d xs h k = absurd (omega arith)
  get_or-insert_before (suc p) i e d [] h k = absurd (omega arith)
  get_or-insert_before (suc p) zero e d (x ∷ xs) h k = refl
  get_or-insert_before (suc p) (suc i) e d (x ∷ xs) h k =
      get_or-insert_before p i e d xs (omega arith) (omega arith)

  pub get_or-insert_self :
      (p : ℕ) (e d : A) (xs : List A) → p ≤ length xs → get_or (insert_at p e xs) p d ≡ e
  unfolding insert_at
  get_or-insert_self zero e d xs h = refl
  get_or-insert_self (suc p) e d [] h = absurd (omega arith)
  get_or-insert_self (suc p) e d (x ∷ xs) h = get_or-insert_self p e d xs (omega arith)

  pub get_or-insert_after :
      (p i : ℕ) (e d : A) (xs : List A)
      → p ≤ i
      → p ≤ length xs
      → get_or (insert_at p e xs) (suc i) d ≡ get_or xs i d
  unfolding insert_at
  get_or-insert_after zero i e d xs h k = refl
  get_or-insert_after (suc p) i e d [] h k = absurd (omega arith)
  get_or-insert_after (suc p) zero e d (x ∷ xs) h k = absurd (omega arith)
  get_or-insert_after (suc p) (suc i) e d (x ∷ xs) h k =
      get_or-insert_after p i e d xs (omega arith) (omega arith)

  pub insert_at-perm : (p : ℕ) (e : A) (xs : List A) → Perm (insert_at p e xs) (e ∷ xs)
  unfolding insert_at
  insert_at-perm p e xs =
      subst (λ ys. Perm (insert_at p e xs) (e ∷ ys)) (take-append-drop p xs)
        (perm_middle (take p xs) (drop p xs))

  insert_at-nil :
      (p : ℕ) (e : A) (xs : List A) (c : Compare A) → length xs ≡ 0 → Sorted c (insert_at p e xs)
  unfolding insert_at
  insert_at-nil zero e [] c h = (tt, tt)
  insert_at-nil (suc p) e [] c h = (tt, tt)
  insert_at-nil p e (x ∷ xs) c h = absurd (omega arith)

module _ {A : Type 0} {c : Compare A} (o : IsOrder c) (e : A) (xs : List A) where
  -- `e` at position `p` lies between its neighbours.
  pub record FitsAt (p : ℕ) : Type 0 where
    pub left : 0 < p → Le c (get_or xs (p - 1) e) e
    pub right : p < length xs → Le c e (get_or xs p e)

  -- The comparisons that the code makes are those with the two neighbours.
  in_order-zero :
      1 ≤ length xs → in_order c e (insert_at 0 e xs) 0 ≡ not (is_gt (c e (get_or xs 0 e)))
  unfolding in_order
  in_order-zero h = rw (get_or-insert_after 0 0 e e xs (omega arith) (omega arith))

  in_order-last :
      (p : ℕ)
      → suc p ≡ length xs
      → in_order c e (insert_at (suc p) e xs) (suc p) ≡ not (is_lt (c e (get_or xs p e)))
  unfolding in_order
  in_order-last p h =
      let n = length (insert_at (suc p) e xs) in
      let not_first : (suc p == 0) ≡ false = ground arith in
      let last : (suc p == n - 1) ≡ true = ground (arith, length-insert_at (suc p) e xs) in
      let before : n - 2 ≡ p = omega (arith, length-insert_at (suc p) e xs) in
      rw (not_first, last)
        (rw before (rw (get_or-insert_before (suc p) p e e xs (omega arith) (omega arith))))

  in_order-middle :
      (p : ℕ)
      → suc p < length xs
      → in_order c e (insert_at (suc p) e xs) (suc p)
        ≡ not (is_lt (c e (get_or xs p e)) || is_gt (c e (get_or xs (suc p) e)))
  unfolding in_order
  in_order-middle p h =
      let n = length (insert_at (suc p) e xs) in
      let not_first : (suc p == 0) ≡ false = ground arith in
      let last : (suc p == n - 1) ≡ false = ground (arith, length-insert_at (suc p) e xs) in
      let before : suc p - 1 ≡ p = omega arith in
      let after : suc p + 1 ≡ suc (suc p) = omega arith in
      rw (not_first, last)
        (rw (before, after)
          (rw (
            get_or-insert_before (suc p) p e e xs (omega arith) (omega arith),
            get_or-insert_after (suc p) (suc p) e e xs (omega arith) (omega arith),
          )))

  in_order-FitsAt :
      (p : ℕ)
      → p ≤ length xs
      → 1 ≤ length xs
      → (in_order c e (insert_at p e xs) p ≡ true) ↔ FitsAt p
  in_order-FitsAt zero h k =
      let code = in_order-zero k in
      (
        λ t. record { left = λ q. absurd (omega arith); right = λ q. ground (arith, code) },
        λ f. ground (arith, code, f.right (omega arith)),
      )
  in_order-FitsAt (suc p) h k =
      let same : suc p - 1 ≡ p = omega arith in
      elim (Bool-cases (suc p == length xs)) [
        | inl last ↦
            let code = in_order-last p (ground arith) in
            (
              λ t. record {
                left = λ q. rw same (le_of_not_lt o _ _ (ground (arith, code)));
                right = λ q. absurd (ground arith);
              },
              λ f.
                  let before : Le c (get_or xs p e) e = rw same at (f.left (omega arith)) in
                  ground (arith, code, o.turn (get_or xs p e) e),
            )
        | inr other ↦
            let code = in_order-middle p (ground arith) in
            (
              λ t. record {
                left = λ q. rw same (le_of_not_lt o _ _ (ground (arith, code)));
                right = λ q. ground (arith, code);
              },
              λ f.
                  let before : Le c (get_or xs p e) e = rw same at (f.left (omega arith)) in
                  let after = f.right (ground arith) in
                  ground (arith, code, o.turn (get_or xs p e) e),
            )
      ]

  pub insert_at-Sorted :
      (p : ℕ) → p ≤ length xs → Sorted c xs → FitsAt p → Sorted c (insert_at p e xs)
  insert_at-Sorted p h s f = Sorted-insert_at o p e xs s h f.left f.right

  -- The flag stays only if the elements are in order with the new one.
  pub sorted_flag-Sorted :
      (p : ℕ) (sorted : Bool)
      → p ≤ length xs
      → (sorted ≡ true → Sorted c xs)
      → sorted_flag (some c) e (insert_at p e xs) p sorted ≡ true
      → Sorted c (insert_at p e xs)
  unfolding sorted_flag
  sorted_flag-Sorted p sorted h s t =
      let size = length-insert_at p e xs in
      elim (Bool-cases (length (insert_at p e xs) == 1)) [
        | inl one ↦ insert_at-nil p e xs c (ground (arith, size))
        | inr more ↦ elim (Bool-cases sorted) [
          | inl was ↦
              insert_at-Sorted p h (s was)
                ((in_order-FitsAt p h (ground (arith, size))).0 (ground (arith, size)))
          | inr was ↦ absurd (ground (arith, size))
        ]
      ]

  -- It does stay if they are.
  pub sorted_flag-FitsAt :
      (p : ℕ) → p ≤ length xs → FitsAt p → sorted_flag (some c) e (insert_at p e xs) p true ≡ true
  unfolding sorted_flag
  sorted_flag-FitsAt p h f = elim (Bool-cases (length (insert_at p e xs) == 1)) [
    | inl one ↦ rw one
    | inr more ↦
        let size = length-insert_at p e xs in
        ground (arith, size, (in_order-FitsAt p h (ground (arith, size))).1 f)
  ]
