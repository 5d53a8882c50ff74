-- ===== src/Vector/Order.antt =====
-- Comparison functions that order their elements, and lists sorted by one.
use Prim.Native.Nat.{Ordering, lt, eq, gt}
use wget.Prelude.{ℕ, zero, suc, ◌-◌, ◌<◌, ◌≤◌, ◌≡◌, ◌≢◌, List, [], ◌∷◌, All, length, get_or, arith}
use wget.Vector.{Compare, insert_at}

abbrev pub opposite : Ordering → Ordering
opposite lt = gt
opposite eq = eq
opposite gt = lt

-- `a` may stand in front of `b`
abbrev pub Le : {A : Type 0} → Compare A → A → A → Type 0
Le c a b = c a b ≢ gt

-- What a comparison function promises: it is a preorder, and turns its sign round with its
-- arguments.
pub record IsOrder {A : Type 0} (c : Compare A) : Type 0 where
  pub turn : (a b : A) → c b a ≡ opposite (c a b)
  pub le_trans : (a b d : A) → Le c a b → Le c b d → Le c a d

abbrev pub Sorted : {A : Type 0} → Compare A → List A → Type 0
Sorted c [] = Unit {0}
Sorted c (x ∷ xs) = All (Le c x) xs × Sorted c xs

module _ {A : Type 0} {c : Compare A} (o : IsOrder c) where
  pub le_refl : (a : A) → Le c a a
  le_refl a = ground (arith, o.turn a a)

  -- `lt` and `eq` both let stand in front
  pub le_of_not_lt : (a b : A) → c b a ≢ lt → Le c a b
  le_of_not_lt a b = ground (arith, o.turn a b)

  pub lt_trans_left : (a b d : A) → c a b ≡ lt → Le c b d → c a d ≡ lt
  lt_trans_left a b d h k = ground (arith, o.turn a b, o.turn a d, o.le_trans b d a k)

  pub gt_trans_right : (a b d : A) → c a b ≡ gt → Le c d b → c a d ≡ gt
  gt_trans_right a b d h k = ground (arith, o.le_trans a d b)

  pub All-Le : (a b : A) (xs : List A) → Le c a b → All (Le c b) xs → All (Le c a) xs
  All-Le a b [] h k = tt
  All-Le a b (x ∷ xs) h k = (o.le_trans a b x h k.0, All-Le a b xs h k.1)

  pub All-get_or :
      (P : A → Type 0) (xs : List A) (i : ℕ) (d : A) → All P xs → i < length xs → P (get_or xs i d)
  All-get_or P [] i d h k = absurd (omega arith)
  All-get_or P (x ∷ xs) zero d h k = h.0
  All-get_or P (x ∷ xs) (suc i) d h k = All-get_or P xs i d h.1 (omega arith)

  pub Sorted-get_or :
      (xs : List A) (i j : ℕ) (d : A)
      → Sorted c xs
      → i ≤ j
      → j < length xs
      → Le c (get_or xs i d) (get_or xs j d)
  Sorted-get_or [] i j d s h k = absurd (omega arith)
  Sorted-get_or (x ∷ xs) zero zero d s h k = le_refl x
  Sorted-get_or (x ∷ xs) zero (suc j) d s h k = All-get_or (Le c x) xs j d s.0 (omega arith)
  Sorted-get_or (x ∷ xs) (suc i) zero d s h k = absurd (omega arith)
  Sorted-get_or (x ∷ xs) (suc i) (suc j) d s h k =
      Sorted-get_or xs i j d s.1 (omega arith) (omega arith)

  All-insert_at :
      (P : A → Type 0) (p : ℕ) (e : A) (xs : List A) → P e → All P xs → All P (insert_at p e xs)
  unfolding insert_at
  All-insert_at P zero e xs h k = (h, k)
  All-insert_at P (suc p) e [] h k = (h, k)
  All-insert_at P (suc p) e (x ∷ xs) h k = (k.0, All-insert_at P p e xs h k.1)

  -- An element put between two neighbours that it lies between keeps a list sorted.
  pub Sorted-insert_at :
      (p : ℕ) (e : A) (xs : List A)
      → Sorted c xs
      → p ≤ length xs
      → (0 < p → Le c (get_or xs (p - 1) e) e)
      → (p < length xs → Le c e (get_or xs p e))
      → Sorted c (insert_at p e xs)
  unfolding insert_at
  Sorted-insert_at zero e [] s h k l = (tt, tt)
  Sorted-insert_at zero e (x ∷ xs) s h k l =
      ((l (omega arith), All-Le e x xs (l (omega arith)) s.0), s)
  Sorted-insert_at (suc p) e [] s h k l = absurd (omega arith)
  Sorted-insert_at (suc zero) e (x ∷ xs) s h k l = (
    All-insert_at (Le c x) zero e xs (k (omega arith)) s.0,
    Sorted-insert_at zero e xs s.1 (omega arith) (λ q. absurd (omega arith)) (λ q. l (omega arith)),
  )
  Sorted-insert_at (suc (suc p)) e (x ∷ xs) s h k l =
      let one : suc (suc p) - 1 ≡ suc p = omega arith in
      let before : Le c (get_or xs p e) e = rw one at (k (omega arith)) in
      let same : suc p - 1 ≡ p = omega arith in
      (
        All-insert_at (Le c x) (suc p) e xs
            (o.le_trans x (get_or xs p e) e (All-get_or (Le c x) xs p e s.0 (omega arith)) before)
            s.0,
        Sorted-insert_at (suc p) e xs s.1 (omega arith) (λ q. rw same before)
            (λ q. l (omega arith)),
      )
