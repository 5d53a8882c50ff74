-- ===== src/Vector/Replace.antt =====
-- `wget_vector_replace`: a write at a position in use, with the comparisons of an insertion.
use wget.Prelude.{
  Bool, ℕ, zero, suc, ◌<◌, ◌≡◌, refl, subst, ap, true, List, [], ◌∷◌, length, set, length-set,
  get_elem?, some, pos, ℤ, arith,
}
use wget.Vector.Insert.{IsValid}
use wget.Vector.Flag.{sorted_flag-Sorted}
use wget.Vector.Order.{IsOrder, Sorted}
use wget.Vector.Remove.{without, length-without, Sorted-without}
use wget.Vector.{Compare, Vector, insert_at, sorted_flag, store, insert_private, replace}

module _ {A : Type 0} where
  -- A write is an insertion into what is left without the element.
  set-insert_at :
      (p : ℕ) (e : A) (xs : List A) → p < length xs → set xs p e ≡ insert_at p e (without p xs)
  unfolding insert_at
  set-insert_at p e [] h = absurd (omega arith)
  set-insert_at zero e (x ∷ xs) h = refl
  set-insert_at (suc p) e (x ∷ xs) h = ap (◌∷◌ x) (set-insert_at p e xs (omega arith))

  pub get_elem?-set :
      (p : ℕ) (e : A) (xs : List A) → p < length xs → get_elem? (set xs p e) p ≡ some e
  get_elem?-set p e [] h = absurd (omega arith)
  get_elem?-set zero e (x ∷ xs) h = refl
  get_elem?-set (suc p) e (x ∷ xs) h = get_elem?-set p e xs (omega arith)

  replace-store :
      (v : Vector A) (e : A) (p : ℕ)
      → p < length v.entry
      → replace v e (pos p) ≡ store v (set v.entry p e) e p
  unfolding replace insert_private
  replace-store v e p h = ground arith

  -- Element `p` is now `e`; the others, the allocation and the comparison are the same, and a
  -- vector that says that it is sorted is.
  pub record Replaced (v : Vector A) (e : A) (p : ℕ) (r : Vector A × ℤ) : Type 0 where
    pub position : r.1 ≡ pos p
    pub entry : r.0.entry ≡ set v.entry p e
    pub valid : IsValid r.0
    pub same_cmp : r.0.cmp ≡ v.cmp
    pub same_off : r.0.off ≡ v.off
    pub same_max : r.0.max ≡ v.max

  set-Sorted :
      (c : Compare A) (o : IsOrder c) (e : A) (xs : List A) (p : ℕ) (sorted : Bool)
      → p < length xs
      → (sorted ≡ true → Sorted c xs)
      → sorted_flag (some c) e (set xs p e) p sorted ≡ true
      → Sorted c (set xs p e)
  set-Sorted c o e xs p sorted h s flag =
      let same = set-insert_at p e xs h in
      rw same (
        sorted_flag-Sorted o e (without p xs) p sorted (omega (arith, length-without p xs h))
          (λ t. Sorted-without c p xs (s t)) (rw same at flag))

  -- `wget_vector_replace` at a position in use of a valid vector, whose comparison, if it has one, is
  -- an order, writes that element only; the vector stays valid.
  pub replace-Replaced :
      (v : Vector A) (e : A) (p : ℕ)
      → IsValid v
      → ((c : Compare A) → v.cmp ≡ some c → IsOrder c)
      → p < length v.entry
      → Replaced v e p (replace v e (pos p))
  replace-Replaced v e p valid orders h = rw (replace-store v e p h) (record {
    position = unfold store in refl;
    entry = unfold store in refl;
    valid = record {
      fits = unfold store in omega (arith, length-set v.entry p e, valid.fits);
      truthful =
          unfold store in
          λ c is_c flag.
            set-Sorted c (orders c is_c) e v.entry p v.sorted h (valid.truthful c is_c)
              (subst (λ q. sorted_flag q e (set v.entry p e) p v.sorted ≡ true) is_c flag);
    };
    same_cmp = unfold store in refl;
    same_off = unfold store in refl;
    same_max = unfold store in refl;
  })
