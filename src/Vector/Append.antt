-- ===== src/Vector/Append.antt =====
-- `wget_vector_add` to a vector that doubles.
use wget.Prelude.{
  ℕ, zero, suc, ◌*◌, ◌<◌, ◌≤◌, ◌≡◌, refl, ap, ◌∙◌, List, [], ◌∷◌, ◌++◌, length, length-append,
  Option, some, negsuc, pos, ℤ, arith,
}
use wget.Vector.Insert.{make_room-fits, insert_private-store}
use wget.Vector.Sorted.{make_room-grows}
use wget.Vector.{Vector, Compare, add, grown, store, insert_at}

grown_double : (m : ℕ) (off : ℤ) → off ≡ negsuc 1 → grown m off ≡ some (m * 2)
unfolding grown
grown_double m (pos _) h = cc
grown_double m (negsuc zero) h = cc
grown_double m (negsuc (suc zero)) h = refl
grown_double m (negsuc (suc (suc k))) h = cc

module _ {A : Type 0} where
  insert_at_end : (e : A) (xs : List A) → insert_at (length xs) e xs ≡ xs ++ (e ∷ [])
  unfolding insert_at
  insert_at_end e [] = refl
  insert_at_end e (x ∷ xs) = ap (◌∷◌ x) (insert_at_end e xs)

  -- A vector with room or with doubling, and what it holds.
  pub record Doubles (v : Vector A) (xs : List A) (c : Option (Compare A)) : Type 0 where
    pub entry : v.entry ≡ xs
    pub off : v.off ≡ negsuc 1
    pub size : 0 < v.max
    pub fits : length v.entry ≤ v.max
    pub cmp : v.cmp ≡ c

  store-Doubles :
      (v w : Vector A) (e : A) (xs : List A) (c : Option (Compare A))
      → Doubles v xs c
      → (w ≡ record v { max = w.max }) × (length v.entry < w.max)
      → Doubles
          (store w (insert_at (length v.entry) e w.entry) e (length v.entry)).0
          (xs ++ (e ∷ []))
          c
  unfolding store
  store-Doubles v w e xs c g (grew, fits) = rw grew (record {
    entry = insert_at_end e v.entry ∙ ap (λ t. t ++ (e ∷ [])) g.entry;
    off = g.off;
    size = omega arith;
    fits = rw (insert_at_end e v.entry) (omega (arith, length-append v.entry (e ∷ [])));
    cmp = g.cmp;
  })

  -- Adding never fails then, and puts the element behind the others.
  pub add-Doubles :
      (v : Vector A) (e : A) (xs : List A) (c : Option (Compare A))
      → Doubles v xs c
      → Doubles (add v e).0 (xs ++ (e ∷ [])) c
  unfolding add
  add-Doubles v e xs c g =
      let (w, room) = make_room-grows v (v.max * 2) (grown_double v.max v.off g.off) in
      rw (insert_private-store v w e (length v.entry) (omega arith) room)
        (store-Doubles v w e xs c g (make_room-fits v w g.size g.fits room))

  -- what `wget_vector_add` leaves of a vector that may grow
  pub record Appended (v : Vector A) (e : A) (r : Vector A) : Type 0 where
    pub entry : r.entry ≡ v.entry ++ (e ∷ [])
    pub off : r.off ≡ v.off
    pub size : 0 < r.max
    pub fits : length r.entry ≤ r.max

  store-Appended :
      (v w : Vector A) (e : A)
      → (w ≡ record v { max = w.max }) × (length v.entry < w.max)
      → Appended v e (store w (insert_at (length v.entry) e w.entry) e (length v.entry)).0
  unfolding store
  store-Appended v w e (grew, fits) = rw grew (record {
    entry = insert_at_end e v.entry;
    off = refl;
    size = omega arith;
    fits = rw (insert_at_end e v.entry) (omega (arith, length-append v.entry (e ∷ [])));
  })

  pub add-Appended :
      (v : Vector A) (e : A) (m : ℕ)
      → grown v.max v.off ≡ some m
      → 0 < v.max
      → length v.entry ≤ v.max
      → Appended v e (add v e).0
  unfolding add
  add-Appended v e m grows size fits =
      let (w, room) = make_room-grows v m grows in
      rw (insert_private-store v w e (length v.entry) (omega arith) room)
        (store-Appended v w e (make_room-fits v w size fits room))
