-- ===== src/Hashmap/Table.antt =====
-- A table of chains: every entry stands in the chain of its hash, so that a table reads like the list
-- of all its entries.
use wget.Prelude.{
  ℕ, zero, suc, ◌+◌, ◌%◌, ◌<◌, ◌≡◌, ◌≢◌, refl, ap, ◌∙◌, subst, Bool, false, Bool-cases, inl, inr,
  List, [], ◌∷◌, ◌++◌, All, length, length-append, get_or, set, replicate, ◌==◌, arith,
}
use wget.Hashmap.{Entry}
use wget.Hashmap.Chain.{
  or_else-none, IsKey, look, count, look-eq-none, look-append, count-append, or_else,
}

module _ {A : Type 0} where
  pub get_or-set : (xs : List A) (p : ℕ) (x d : A) → p < length xs → get_or (set xs p x) p d ≡ x
  get_or-set [] p x d h = absurd (omega arith)
  get_or-set (y ∷ xs) zero x d h = refl
  get_or-set (y ∷ xs) (suc p) x d h = get_or-set xs p x d (omega arith)

  pub get_or-set_other :
      (xs : List A) (p i : ℕ) (x d : A) → i ≢ p → get_or (set xs p x) i d ≡ get_or xs i d
  get_or-set_other [] p i x d h = refl
  get_or-set_other (y ∷ xs) zero zero x d h = absurd (h refl)
  get_or-set_other (y ∷ xs) zero (suc i) x d h = refl
  get_or-set_other (y ∷ xs) (suc p) zero x d h = refl
  get_or-set_other (y ∷ xs) (suc p) (suc i) x d h = get_or-set_other xs p i x d (λ e. h (ap suc e))

  pub get_or-replicate : (n i : ℕ) (x : A) → get_or (replicate n x) i x ≡ x
  get_or-replicate zero i x = refl
  get_or-replicate (suc n) zero x = refl
  get_or-replicate (suc n) (suc i) x = get_or-replicate n i x

  -- the elements of all the lists
  abbrev pub flat : List (List A) → List A
  flat [] = []
  flat (c ∷ cs) = c ++ flat cs

  pub flat-replicate : (n : ℕ) → flat (replicate n []) ≡ []
  flat-replicate zero = refl
  flat-replicate (suc n) = flat-replicate n

  pub length-flat_set :
      (cs : List (List A)) (p : ℕ) (c : List A)
      → p < length cs
      → length (flat (set cs p c)) + length (get_or cs p []) ≡ length (flat cs) + length c
  length-flat_set [] p c h = absurd (omega arith)
  length-flat_set (d ∷ cs) zero c h =
      omega (arith, length-append c (flat cs), length-append d (flat cs))
  length-flat_set (d ∷ cs) (suc p) c h = omega (
    arith,
    length-append d (flat cs),
    length-append d (flat (set cs p c)),
    length-flat_set cs p c (omega arith),
  )

module _ {K V : Type 0} where
  -- The entries of the chains from `i` on stand where their hashes say, in a table of `n` chains.
  abbrev pub Placed : ℕ → ℕ → List (List (Entry K V)) → Type 0
  Placed n i [] = Unit {0}
  Placed n i (c ∷ cs) = All (λ e. e.hash % n ≡ i) c × Placed n (suc i) cs

  pub Placed-get_or :
      (n i p j : ℕ) (cs : List (List (Entry K V)))
      → Placed n i cs
      → i + p ≡ j
      → All (λ e. e.hash % n ≡ j) (get_or cs p [])
  Placed-get_or n i p j [] h e = tt
  Placed-get_or n i zero j (c ∷ cs) h e =
      let same : i ≡ j = omega arith in subst (λ t. All (λ e. e.hash % n ≡ t) c) same h.0
  Placed-get_or n i (suc p) j (c ∷ cs) h e = Placed-get_or n (suc i) p j cs h.1 (omega arith)

  pub Placed-set :
      (n i p j : ℕ) (c : List (Entry K V)) (cs : List (List (Entry K V)))
      → Placed n i cs
      → i + p ≡ j
      → All (λ e. e.hash % n ≡ j) c
      → Placed n i (set cs p c)
  Placed-set n i p j c [] h e a = tt
  Placed-set n i zero j c (d ∷ cs) h e a =
      let same : j ≡ i = omega arith in (subst (λ t. All (λ e. e.hash % n ≡ t) c) same a, h.1)
  Placed-set n i (suc p) j c (d ∷ cs) h e a =
      (h.0, Placed-set n (suc i) p j c cs h.1 (omega arith) a)

pub Placed-replicate : (K V : Type 0) (n i m : ℕ) → Placed {K = K} {V = V} n i (replicate m [])
Placed-replicate K V n i zero = tt
Placed-replicate K V n i (suc m) = (tt, Placed-replicate K V n (suc i) m)

module _ {K V : Type 0} {hash : K → ℕ} {same : K → K → Bool} (k : IsKey hash same) where
  pub count-misplaced :
      (n i : ℕ) (q : K) (c : List (Entry K V))
      → All (λ e. e.hash % n ≡ i) c
      → hash q % n ≢ i
      → count k q c ≡ 0
  unfolding count
  count-misplaced n i q [] a h = refl
  count-misplaced n i q (e ∷ c) a h =
      let other : (hash q == e.hash) ≡ false = elim (Bool-cases (hash q == e.hash)) [
        | inl s ↦ let t : hash q ≡ e.hash = ground arith in absurd (h (rw t a.0))
        | inr s ↦ s
      ] in
      rw other (count-misplaced n i q c a.1 h)

  count-flat_before :
      (n i : ℕ) (q : K) (cs : List (List (Entry K V)))
      → Placed n i cs
      → hash q % n < i
      → count k q (flat cs) ≡ 0
  count-flat_before n i q [] p h = unfold count in refl
  count-flat_before n i q (c ∷ cs) p h = omega (
    arith,
    count-append k q c (flat cs),
    count-misplaced n i q c p.0 (λ e. omega arith),
    count-flat_before n (suc i) q cs p.1 (omega arith),
  )

  pub count-flat :
      (n i j : ℕ) (q : K) (cs : List (List (Entry K V)))
      → Placed n i cs
      → hash q % n ≡ i + j
      → count k q (flat cs) ≡ count k q (get_or cs j [])
  count-flat n i j q [] p h = refl
  count-flat n i zero q (c ∷ cs) p h =
      omega
        (arith, count-append k q c (flat cs), count-flat_before n (suc i) q cs p.1 (omega arith))
  count-flat n i (suc j) q (c ∷ cs) p h = omega (
    arith,
    count-append k q c (flat cs),
    count-misplaced n i q c p.0 (λ e. omega arith),
    count-flat n (suc i) j q cs p.1 (omega arith),
  )

  pub look-flat :
      (n i j : ℕ) (q : K) (cs : List (List (Entry K V)))
      → Placed n i cs
      → hash q % n ≡ i + j
      → look k q (flat cs) ≡ look k q (get_or cs j [])
  look-flat n i j q [] p h = refl
  look-flat n i zero q (c ∷ cs) p h =
      let rest = look-eq-none k q (flat cs) (count-flat_before n (suc i) q cs p.1 (omega arith)) in
      look-append k q c (flat cs) ∙ ap (or_else (look k q c)) rest ∙ or_else-none (look k q c)
  look-flat n i (suc j) q (c ∷ cs) p h =
      let first = look-eq-none k q c (count-misplaced n i q c p.0 (λ e. omega arith)) in
      look-append k q c (flat cs)
      ∙ ap (λ a. or_else a (look k q (flat cs))) first
      ∙ look-flat n (suc i) j q cs p.1 (omega arith)
