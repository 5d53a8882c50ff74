-- ===== src/Vector/Insert.antt =====
-- What the insertions of libwget/vector.c do to the elements, the flag and the capacity.
use mathlib.Core.List.{Perm}
use wget.Prelude.{
  minus_one, none, ◌⊎◌, ltb, Option-cases, ◌*◌, get_elem?, ℕ, zero, suc, ◌+◌, ◌<◌, ◌≤◌, ◌≡◌, inl,
  inr, refl, subst, true, false, List, [], ◌∷◌, length, some, ℤ, pos, negsuc, arith,
}
use wget.Vector.Flag.{sorted_flag-Sorted, insert_at-perm, length-insert_at}
use wget.Vector.Order.{IsOrder, Sorted}
use wget.Vector.{
  insert, insert_private, store, Compare, Vector, insert_at, sorted_flag, grown, make_room,
}

module _ {A : Type 0} where
  -- The elements fit into the allocation, and the flag tells the truth.
  pub record IsValid (v : Vector A) : Type 0 where
    pub fits : length v.entry ≤ v.max
    pub truthful : (c : Compare A) → v.cmp ≡ some c → v.sorted ≡ true → Sorted c v.entry

-- An insertion of `e` at `p` that succeeded: what the vector holds then.
pub record Inserted {A : Type 0} (v : Vector A) (e : A) (p : ℕ) (r : Vector A × ℤ) : Type 0 where
  pub position : r.1 ≡ pos p
  pub holds : get_elem? r.0.entry p ≡ some e
  pub elements : Perm r.0.entry (e ∷ v.entry)
  pub valid : IsValid r.0

grown-lt : (m n : ℕ) (off : ℤ) → 0 < m → grown m off ≡ some n → m < n
unfolding grown
grown-lt m n (pos zero) h e = cc
grown-lt m n (pos (suc k)) h e = ground arith
grown-lt m n (negsuc zero) h e = cc
grown-lt m n (negsuc (suc k)) h e =
    let size : m * suc (suc k) ≡ n = cc in
    let more : m * suc (suc k) ≡ m + m + m * k = grind arith in omega arith

module _ {A : Type 0} where
  -- Growing keeps the elements and makes room, unless an empty allocation is multiplied.
  pub make_room-fits :
      (v w : Vector A)
      → 0 < v.max
      → length v.entry ≤ v.max
      → make_room v ≡ some w
      → (w ≡ record v { max = w.max }) × (length v.entry < w.max)
  unfolding make_room
  make_room-fits v w h f e = elim (Option-cases (grown v.max v.off)) [
    | inl no_more ↦ ground arith
    | inr (m, more) ↦ ground (arith, grown-lt v.max m v.off h more)
  ]

  pub insert_private-store :
      (v w : Vector A) (e : A) (p : ℕ)
      → p ≤ length v.entry
      → make_room v ≡ some w
      → insert_private v e (pos p) false ≡ store w (insert_at p e w.entry) e p
  unfolding insert_private
  insert_private-store v w e p h room =
      let within : ltb (length v.entry) p ≡ false = ground arith in
      rw (within, insert_private) (rw (room, insert_private))

  pub get_elem?-insert_at :
      (p : ℕ) (e : A) (xs : List A) → p ≤ length xs → get_elem? (insert_at p e xs) p ≡ some e
  unfolding insert_at
  get_elem?-insert_at zero e xs h = refl
  get_elem?-insert_at (suc p) e [] h = absurd (omega arith)
  get_elem?-insert_at (suc p) e (x ∷ xs) h = get_elem?-insert_at p e xs (omega arith)

  store-Inserted :
      (v : Vector A) (m : ℕ) (e : A) (p : ℕ)
      → IsValid v
      → ((c : Compare A) → v.cmp ≡ some c → IsOrder c)
      → p ≤ length v.entry
      → length v.entry < m
      → Inserted v e p (store (record v { max = m }) (insert_at p e v.entry) e p)
  unfolding store
  store-Inserted v m e p valid orders h room = record {
    position = refl;
    holds = get_elem?-insert_at p e v.entry h;
    elements = insert_at-perm p e v.entry;
    valid = record {
      fits = omega (arith, length-insert_at p e v.entry);
      truthful = λ c is_c flag.
          sorted_flag-Sorted (orders c is_c) e v.entry p v.sorted h (valid.truthful c is_c)
            (subst (λ q. sorted_flag q e (insert_at p e v.entry) p v.sorted ≡ true) is_c flag);
    };
  }

  pub insert_private-Inserted :
      (v w : Vector A) (e : A) (p : ℕ)
      → IsValid v
      → 0 < v.max
      → ((c : Compare A) → v.cmp ≡ some c → IsOrder c)
      → p ≤ length v.entry
      → make_room v ≡ some w
      → Inserted v e p (insert_private v e (pos p) false)
  insert_private-Inserted v w e p valid size orders h room =
      let (grew, fits) = make_room-fits v w size valid.fits room in
      rw (insert_private-store v w e p h room)
        (rw grew (store-Inserted v w.max e p valid orders h fits))

  -- `wget_vector_insert` at a position up to the end, in a valid vector with room, whose comparison,
  -- if it has one, is an order: the element stands there, the others are still in the vector, the elements fit into the allocation, and a vector
  -- that says that it is sorted is.
  pub insert-Inserted :
      (v w : Vector A) (e : A) (p : ℕ)
      → IsValid v
      → 0 < v.max
      → ((c : Compare A) → v.cmp ≡ some c → IsOrder c)
      → p ≤ length v.entry
      → make_room v ≡ some w
      → Inserted v e p (insert v e (pos p))
  unfolding insert
  insert-Inserted = insert_private-Inserted

  -- A position that is negative or behind the end, or a full vector that may not grow: -1, and the
  -- vector is as it was.
  pub insert_refused :
      (v : Vector A) (e : A) (p : ℤ)
      → ((n : ℕ) → p ≡ pos n → (length v.entry < n) ⊎ (make_room v ≡ none))
      → insert v e p ≡ (v, minus_one)
  unfolding insert insert_private
  insert_refused v e (negsuc _) h = refl
  insert_refused v e (pos n) h = elim (h n refl) [
    | inl behind ↦ ground arith
    | inr full ↦ ground arith
  ]
