-- ===== src/Vector/Move.antt =====
-- libwget/vector.c: `wget_vector_move`, with `memmove` written out as the parts of the list.
use Prim.Native.Nat.{eq}
use mathlib.Core.Option.{some_inj}
use wget.Prelude.{
  ℕ, zero, suc, ◌-◌, ◌<◌, ◌≤◌, ◌≡◌, ◌≢◌, ◌∙◌, refl, ap, sym, subst, inl, inr, Bool-cases, true,
  List, [], ◌∷◌, ◌++◌, Option, some, length, get_elem?, get_or, take, drop, ltb, ◌==◌,
  if◌then◌else◌, ℤ, pos, minus_one, arith,
}
use wget.Vector.Insert.{IsValid}
use wget.Vector.Flag.{length-insert_at}
use wget.Vector.Order.{IsOrder, Le, Sorted, Sorted-get_or, Sorted-insert_at}
use wget.Vector.Remove.{without, length-without, Sorted-without}
use wget.Vector.Swap.{element, still_sorted}
use wget.Vector.{Compare, Vector, get, insert_at}

module _ {A : Type 0} where
  -- the two branches: the elements between the positions move by one, and `tmp` is put at `j`
  pub shift : ℕ → ℕ → A → List A → List A
  shift i j tmp xs =
      if ltb i j
      then take i xs ++ (take (j - i) (drop (suc i) xs) ++ (tmp ∷ drop (suc j) xs))
      else take j xs ++ (tmp ∷ (take (i - j) (drop j xs) ++ drop (suc i) xs))

  pub move_element : Vector A → ℕ → ℕ → Option A → Option A → Vector A × ℤ
  unfolding shift still_sorted
  move_element v i j (some a) (some b) = if i == j then (v, pos 0) else (
    record v { entry = shift i j a v.entry; sorted = still_sorted v.sorted v.cmp a b },
    pos 0,
  )
  move_element v i j _ _ = (v, minus_one)

  -- `wget_vector_move`; a position out of range has no element
  unfoldable pub move : Vector A → ℤ → ℤ → Vector A × ℤ
  unfolding move_element get
  move v (pos i) (pos j) = move_element v i j (get v (pos i)) (get v (pos j))
  move v _ _ = (v, minus_one)

  shift_down :
      (i j : ℕ) (a : A) (xs : List A)
      → i < j
      → j < length xs
      → take i xs ++ (take (j - i) (drop (suc i) xs) ++ (a ∷ drop (suc j) xs))
        ≡ insert_at j a (without i xs)
  unfolding insert_at
  shift_down i j a [] h k = absurd (omega arith)
  shift_down zero zero a (x ∷ xs) h k = absurd (omega arith)
  shift_down zero (suc j) a (x ∷ xs) h k =
      let same : suc j - 0 ≡ suc j = omega arith in rw same refl
  shift_down (suc i) zero a (x ∷ xs) h k = absurd (omega arith)
  shift_down (suc i) (suc j) a (x ∷ xs) h k =
      let less : suc j - suc i ≡ j - i = omega arith in
      rw less (ap (◌∷◌ x) (shift_down i j a xs (omega arith) (omega arith)))

  shift_up :
      (i j : ℕ) (a : A) (xs : List A)
      → j < i
      → i < length xs
      → take j xs ++ (a ∷ (take (i - j) (drop j xs) ++ drop (suc i) xs))
        ≡ insert_at j a (without i xs)
  unfolding insert_at
  shift_up i j a [] h k = absurd (omega arith)
  shift_up i zero a (x ∷ xs) h k = let same : i - 0 ≡ i = omega arith in rw same refl
  shift_up zero (suc j) a (x ∷ xs) h k = absurd (omega arith)
  shift_up (suc i) (suc j) a (x ∷ xs) h k =
      let less : suc i - suc j ≡ i - j = omega arith in
      rw less (ap (◌∷◌ x) (shift_up i j a xs (omega arith) (omega arith)))

  shift-insert_at :
      (i j : ℕ) (a : A) (xs : List A)
      → i ≢ j
      → i < length xs
      → j < length xs
      → shift i j a xs ≡ insert_at j a (without i xs)
  unfolding shift
  shift-insert_at i j a xs apart p q = elim (Bool-cases (ltb i j)) [
    | inl h ↦ rw (h, shift) (shift_down i j a xs (ground arith) q)
    | inr h ↦ rw (h, shift) (shift_up i j a xs (ground arith) p)
  ]

  get_or-without_before :
      (p i : ℕ) (d : A) (xs : List A) → i < p → get_or (without p xs) i d ≡ get_or xs i d
  get_or-without_before zero i d xs h = absurd (omega arith)
  get_or-without_before (suc p) i d [] h = refl
  get_or-without_before (suc p) zero d (x ∷ xs) h = refl
  get_or-without_before (suc p) (suc i) d (x ∷ xs) h = get_or-without_before p i d xs (omega arith)

  get_or-without_after :
      (p i : ℕ) (d : A) (xs : List A) → p ≤ i → get_or (without p xs) i d ≡ get_or xs (suc i) d
  get_or-without_after zero i d [] h = refl
  get_or-without_after zero i d (x ∷ xs) h = refl
  get_or-without_after (suc p) i d [] h = refl
  get_or-without_after (suc p) zero d (x ∷ xs) h = absurd (omega arith)
  get_or-without_after (suc p) (suc i) d (x ∷ xs) h = get_or-without_after p i d xs (omega arith)

  get_or-of_some : (xs : List A) (i : ℕ) (x d : A) → get_elem? xs i ≡ some x → get_or xs i d ≡ x
  get_or-of_some [] i x d h = absurd cc
  get_or-of_some (y ∷ xs) zero x d h = some_inj.0 h
  get_or-of_some (y ∷ xs) (suc i) x d h = get_or-of_some xs i x d h

  module _ {c : Compare A} (o : IsOrder c) where
    before_moved :
        (i j : ℕ) (a b : A) (xs : List A)
        → i ≢ j
        → i < length xs
        → j < length xs
        → get_or xs i a ≡ a
        → get_or xs j a ≡ b
        → c a b ≡ eq
        → Sorted c xs
        → 0 < j
        → Le c (get_or (without i xs) (j - 1) a) a
    before_moved i j a b xs apart p q ga gb same s h = elim (Bool-cases (ltb i j)) [
      | inl l ↦
          let next : suc (j - 1) ≡ j = omega arith in
          rw (get_or-without_after i (j - 1) a xs (ground arith), next, gb)
            (ground (arith, o.turn a b))
      | inr l ↦ rw (get_or-without_before i (j - 1) a xs (ground arith)) (
          subst (λ t. Le c (get_or xs (j - 1) a) t) ga
            (Sorted-get_or o xs (j - 1) i a s (ground arith) p))
    ]

    after_moved :
        (i j : ℕ) (a b : A) (xs : List A)
        → i ≢ j
        → i < length xs
        → j < length xs
        → get_or xs i a ≡ a
        → get_or xs j a ≡ b
        → c a b ≡ eq
        → Sorted c xs
        → j < length (without i xs)
        → Le c a (get_or (without i xs) j a)
    after_moved i j a b xs apart p q ga gb same s h = elim (Bool-cases (ltb i j)) [
      | inl l ↦ rw (get_or-without_after i j a xs (ground arith)) (
          subst (λ t. Le c t (get_or xs (suc j) a)) ga
            (Sorted-get_or o xs i (suc j) a s (ground arith)
              (omega (arith, length-without i xs p))))
      | inr l ↦ rw (get_or-without_before i j a xs (ground arith), gb) (λ t. ground arith)
    ]

  put_back :
      (xs : List A) (i : ℕ) (a : A) → get_elem? xs i ≡ some a → xs ≡ insert_at i a (without i xs)
  unfolding insert_at
  put_back [] i a h = absurd cc
  put_back (x ∷ xs) zero a h = ap (λ y. y ∷ xs) (some_inj.0 h)
  put_back (x ∷ xs) (suc i) a h = ap (◌∷◌ x) (put_back xs i a h)

  -- The element at `i` stands at `j` now, the others keep their order, and the vector is sorted if it
  -- says so.
  pub record Moved (v : Vector A) (i j : ℕ) (r : Vector A × ℤ) : Type 0 where
    pub returned : r.1 ≡ pos 0
    pub entry :
        (a : A) → get_elem? v.entry i ≡ some a → r.0.entry ≡ insert_at j a (without i v.entry)
    pub valid : IsValid r.0

  moved-IsValid :
      (v : Vector A) (i j : ℕ) (a b : A)
      → IsValid v
      → ((c : Compare A) → v.cmp ≡ some c → IsOrder c)
      → i ≢ j
      → i < length v.entry
      → j < length v.entry
      → get_elem? v.entry i ≡ some a
      → get_elem? v.entry j ≡ some b
      → (moved : Vector A)
      → moved ≡ record v {
        entry = insert_at j a (without i v.entry);
        sorted = still_sorted v.sorted v.cmp a b;
      }
      → IsValid moved
  moved-IsValid v i j a b valid orders apart p q ga gb moved e =
      let size = length-without i v.entry p in
      subst (λ (m : Vector A). IsValid m) (sym e)
        (record {
          fits = omega (arith, size, valid.fits, length-insert_at j a (without i v.entry));
          truthful = λ c is_c flag.
              let o = orders c is_c in
              let still : still_sorted v.sorted (some c) a b ≡ true =
                subst (λ d. still_sorted v.sorted d a b ≡ true) is_c flag in
              let same : c a b ≡ eq = unfold still_sorted in ground arith in
              let s = valid.truthful c is_c (unfold still_sorted in ground arith) in
              let gi = get_or-of_some v.entry i a a ga in
              let gj = get_or-of_some v.entry j b a gb in
              Sorted-insert_at o j a (without i v.entry) (Sorted-without c i v.entry s)
                (omega (arith, size)) (before_moved o i j a b v.entry apart p q gi gj same s)
                (after_moved o i j a b v.entry apart p q gi gj same s);
        })

  -- `wget_vector_move` between two positions in use of a valid vector, whose comparison, if it has
  -- one, is an order, takes the element out and puts it in at the new position; the vector stays
  -- valid.
  pub move-Moved :
      (v : Vector A) (i j : ℕ)
      → IsValid v
      → ((c : Compare A) → v.cmp ≡ some c → IsOrder c)
      → i < length v.entry
      → j < length v.entry
      → Moved v i j (move v (pos i) (pos j))
  unfolding move get move_element
  move-Moved v i j valid orders p q =
      let inside : ltb i (length v.entry) ≡ true = ground arith in
      let inside2 : ltb j (length v.entry) ≡ true = ground arith in
      let (a, ga) = element v.entry i p in
      let (b, gb) = element v.entry j q in
      rw (inside, inside2)
        (rw (ga, gb)
          (elim (Bool-cases (i == j)) [
            | inl e ↦ rw e (record {
              returned = refl;
              entry =
                  λ d h. let same : i ≡ j = ground arith in rw (← same) (put_back v.entry i d h);
              valid = valid;
            })
            | inr e ↦
                let apart : i ≢ j = λ t. ground arith in
                let shifted = shift-insert_at i j a v.entry apart p q in
                rw e (record {
                  returned = refl;
                  entry = λ d h. let same : a ≡ d = some_inj.0 (sym ga ∙ h) in rw (← same) shifted;
                  valid = moved-IsValid v i j a b valid orders apart p q ga gb _ (
                      ap (λ xs. record v { entry = xs; sorted = still_sorted v.sorted v.cmp a b })
                        shifted);
                })
          ]))
