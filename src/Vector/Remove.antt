-- ===== src/Vector/Remove.antt =====
-- Removing and replacing in libwget/vector.c.
use wget.Prelude.{
  ℕ, zero, suc, ◌<◌, ◌≤◌, ◌≡◌, refl, List, [], ◌∷◌, ◌++◌, All, length, take, drop, get_elem?, ℤ,
  pos, arith,
}
use wget.Vector.Insert.{IsValid}
use wget.Vector.Order.{Le, Sorted}
use wget.Vector.{Compare, Vector, remove}

module _ {A : Type 0} where
  -- The list without its element at `p`.
  abbrev pub without : ℕ → List A → List A
  without p xs = take p xs ++ drop (suc p) xs

  All-without : (P : A → Type 0) (p : ℕ) (xs : List A) → All P xs → All P (without p xs)
  All-without P zero [] h = tt
  All-without P zero (x ∷ xs) h = h.1
  All-without P (suc p) [] h = tt
  All-without P (suc p) (x ∷ xs) h = (h.0, All-without P p xs h.1)

  pub Sorted-without : (c : Compare A) (p : ℕ) (xs : List A) → Sorted c xs → Sorted c (without p xs)
  Sorted-without c zero [] s = tt
  Sorted-without c zero (x ∷ xs) s = s.1
  Sorted-without c (suc p) [] s = tt
  Sorted-without c (suc p) (x ∷ xs) s = (All-without (Le c x) p xs s.0, Sorted-without c p xs s.1)

  pub length-without :
      (p : ℕ) (xs : List A) → p < length xs → suc (length (without p xs)) ≡ length xs
  length-without p [] h = absurd (omega arith)
  length-without zero (x ∷ xs) h = refl
  length-without (suc p) (x ∷ xs) h = omega (arith, length-without p xs (omega arith))

  get_elem?-without_before :
      (p i : ℕ) (xs : List A) → i < p → get_elem? (without p xs) i ≡ get_elem? xs i
  get_elem?-without_before zero i xs h = absurd (omega arith)
  get_elem?-without_before (suc p) i [] h = refl
  get_elem?-without_before (suc p) zero (x ∷ xs) h = refl
  get_elem?-without_before (suc p) (suc i) (x ∷ xs) h =
      get_elem?-without_before p i xs (omega arith)

  get_elem?-without_after :
      (p i : ℕ) (xs : List A) → p ≤ i → get_elem? (without p xs) i ≡ get_elem? xs (suc i)
  get_elem?-without_after zero i [] h = refl
  get_elem?-without_after zero i (x ∷ xs) h = refl
  get_elem?-without_after (suc p) i [] h = refl
  get_elem?-without_after (suc p) zero (x ∷ xs) h = absurd (omega arith)
  get_elem?-without_after (suc p) (suc i) (x ∷ xs) h = get_elem?-without_after p i xs (omega arith)

  -- Element `p` of `v` was removed: the ones in front of it stay, those behind it move up by one.
  pub record Removed (v : Vector A) (p : ℕ) (r : Vector A × ℤ) : Type 0 where
    pub position : r.1 ≡ pos p
    pub size : suc (length r.0.entry) ≡ length v.entry
    pub before : (i : ℕ) → i < p → get_elem? r.0.entry i ≡ get_elem? v.entry i
    pub after : (i : ℕ) → p ≤ i → get_elem? r.0.entry i ≡ get_elem? v.entry (suc i)
    pub valid : IsValid r.0

  remove_inside :
      (v : Vector A) (p : ℕ)
      → p < length v.entry
      → remove v (pos p) ≡ (record v { entry = without p v.entry }, pos p)
  unfolding remove
  remove_inside v p h = ground arith

  -- `wget_vector_remove` at a position in use takes that element out of a valid vector, which
  -- stays valid: a sorted vector is still sorted.
  pub remove-Removed :
      (v : Vector A) (p : ℕ) → IsValid v → p < length v.entry → Removed v p (remove v (pos p))
  remove-Removed v p valid h = rw (remove_inside v p h) (record {
    position = refl;
    size = length-without p v.entry h;
    before = λ i k. get_elem?-without_before p i v.entry k;
    after = λ i k. get_elem?-without_after p i v.entry k;
    valid = record {
      fits = omega (arith, length-without p v.entry h, valid.fits);
      truthful = λ c is_c flag. Sorted-without c p v.entry (valid.truthful c is_c flag);
    };
  })
