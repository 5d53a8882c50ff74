-- ===== src/Vector/Swap.antt =====
-- libwget/vector.c: `wget_vector_swap`.
use Prim.Native.Nat.{eq}
use mathlib.Core.Option.{some_inj}
use wget.Prelude.{
  ◌∙◌, ◌≢◌, ℕ, zero, suc, ◌<◌, ◌≡◌, refl, ap, sym, subst, inl, inr, Bool-cases, Bool, true, ◌&&◌,
  List, [], ◌∷◌, Option, none, some, length, length-set, get_elem?, set, All, ltb, ◌==◌,
  if◌then◌else◌, ℤ, pos, minus_one, arith,
}
use wget.Vector.Insert.{IsValid}
use wget.Vector.Order.{IsOrder, Le, Sorted, All-Le}
use wget.Vector.Replace.{get_elem?-set}
use wget.Vector.{Compare, Vector, is_eq, get}

module _ {A : Type 0} where
  -- `if (v->sorted && v->cmp && v->cmp(…)) v->sorted = 0`
  unfoldable pub still_sorted : Bool → Option (Compare A) → A → A → Bool
  still_sorted sorted none a b = sorted
  still_sorted sorted (some c) a b = sorted && is_eq (c a b)

  -- the exchange behind the checks
  pub exchange : Vector A → ℕ → ℕ → Option A → Option A → Vector A × ℤ
  unfolding still_sorted
  exchange v i j (some a) (some b) = (
    record v { entry = set (set v.entry i b) j a; sorted = still_sorted v.sorted v.cmp b a },
    pos 0,
  )
  exchange v i j _ _ = (v, minus_one)

  -- `wget_vector_swap`; a position out of range has no element
  unfoldable pub swap : Vector A → ℤ → ℤ → Vector A × ℤ
  unfolding exchange get
  swap v (pos i) (pos j) =
      if ltb i (length v.entry) && ltb j (length v.entry) && (i == j)
      then (v, pos 0)
      else exchange v i j (get v (pos i)) (get v (pos j))
  swap v _ _ = (v, minus_one)

  All-set_same :
      (P : A → Type 0) (xs : List A) (i : ℕ) (x e : A)
      → get_elem? xs i ≡ some x
      → (P x → P e)
      → All P xs
      → All P (set xs i e)
  All-set_same P [] i x e g f h = tt
  All-set_same P (y ∷ xs) zero x e g f h =
      let same : y ≡ x = some_inj.0 g in (f (rw (← same) h.0), h.1)
  All-set_same P (y ∷ xs) (suc i) x e g f h = (h.0, All-set_same P xs i x e g f h.1)

  -- the element may be replaced by one that compares equal
  set-Sorted_same :
      (c : Compare A) (o : IsOrder c) (xs : List A) (i : ℕ) (x e : A)
      → get_elem? xs i ≡ some x
      → c e x ≡ eq
      → Sorted c xs
      → Sorted c (set xs i e)
  set-Sorted_same c o [] i x e g h s = tt
  set-Sorted_same c o (y ∷ xs) zero x e g h s =
      let same : y ≡ x = some_inj.0 g in (All-Le o e y xs (rw same (λ t. cc)) s.0, s.1)
  set-Sorted_same c o (y ∷ xs) (suc i) x e g h s = (
    All-set_same (Le c y) xs i x e g (λ k. o.le_trans y x e k (λ t. ground (arith, o.turn e x)))
        s.0,
    set-Sorted_same c o xs i x e g h s.1,
  )

  get_elem?-set_other :
      (xs : List A) (i k : ℕ) (e : A) → k ≢ i → get_elem? (set xs i e) k ≡ get_elem? xs k
  get_elem?-set_other [] i k e h = refl
  get_elem?-set_other (x ∷ xs) zero zero e h = absurd (h refl)
  get_elem?-set_other (x ∷ xs) zero (suc k) e h = refl
  get_elem?-set_other (x ∷ xs) (suc i) zero e h = refl
  get_elem?-set_other (x ∷ xs) (suc i) (suc k) e h =
      get_elem?-set_other xs i k e (λ q. h (ap suc q))

  pub element : (xs : List A) (i : ℕ) → i < length xs → (x : A) × (get_elem? xs i ≡ some x)
  element [] i h = absurd (omega arith)
  element (x ∷ xs) zero h = (x, refl)
  element (x ∷ xs) (suc i) h = element xs i (omega arith)

  -- The elements at `i` and `j` are exchanged, the others stay, and the vector is sorted if it says
  -- so.
  pub record Swapped (v : Vector A) (i j : ℕ) (r : Vector A × ℤ) : Type 0 where
    pub returned : r.1 ≡ pos 0
    pub first : get_elem? r.0.entry i ≡ get_elem? v.entry j
    pub second : get_elem? r.0.entry j ≡ get_elem? v.entry i
    pub others : (k : ℕ) → k ≢ i → k ≢ j → get_elem? r.0.entry k ≡ get_elem? v.entry k
    pub valid : IsValid r.0

  exchange-Swapped :
      (v : Vector A) (i j : ℕ) (a b : A)
      → IsValid v
      → ((c : Compare A) → v.cmp ≡ some c → IsOrder c)
      → i ≢ j
      → i < length v.entry
      → j < length v.entry
      → get_elem? v.entry i ≡ some a
      → get_elem? v.entry j ≡ some b
      → Swapped v i j (exchange v i j (some a) (some b))
  unfolding exchange
  exchange-Swapped v i j a b valid orders apart p q ga gb =
      let once = set v.entry i b in
      let size = length-set v.entry i b in
      let size2 = length-set once j a in
      let kept : get_elem? once j ≡ some b =
        get_elem?-set_other v.entry i j b (λ e. apart (sym e)) ∙ gb in
      record {
        returned = refl;
        first = get_elem?-set_other once j i a apart ∙ get_elem?-set i b v.entry p ∙ sym gb;
        second = get_elem?-set j a once (omega arith) ∙ sym ga;
        others = λ k n m. get_elem?-set_other once j k a m ∙ get_elem?-set_other v.entry i k b n;
        valid = record {
          fits = omega (arith, valid.fits);
          truthful = λ c is_c flag.
              let o = orders c is_c in
              let still : still_sorted v.sorted (some c) b a ≡ true =
                subst (λ d. still_sorted v.sorted d b a ≡ true) is_c flag in
              let same : c b a ≡ eq = unfold still_sorted in ground arith in
              let back : c a b ≡ eq = ground (arith, o.turn b a) in
              set-Sorted_same c o once j b a kept back (
                set-Sorted_same c o v.entry i a b ga same
                  (valid.truthful c is_c (unfold still_sorted in ground arith)));
        };
      }

  -- `wget_vector_swap` at two positions in use of a valid vector, whose comparison, if it has one, is
  -- an order, exchanges the two elements only; the vector stays valid.
  pub swap-Swapped :
      (v : Vector A) (i j : ℕ)
      → IsValid v
      → ((c : Compare A) → v.cmp ≡ some c → IsOrder c)
      → i < length v.entry
      → j < length v.entry
      → Swapped v i j (swap v (pos i) (pos j))
  unfolding swap get
  swap-Swapped v i j valid orders p q =
      let inside : ltb i (length v.entry) ≡ true = ground arith in
      let inside2 : ltb j (length v.entry) ≡ true = ground arith in
      elim (Bool-cases (i == j)) [
        | inl e ↦
            let same : i ≡ j = ground arith in
            rw (inside, inside2, e)
              (record {
                returned = refl;
                first = ap (get_elem? v.entry) same;
                second = ap (get_elem? v.entry) (sym same);
                others = λ k n m. refl;
                valid = valid;
              })
        | inr e ↦
            let (a, ga) = element v.entry i p in
            let (b, gb) = element v.entry j q in
            rw (inside, inside2, e)
              (rw (ga, gb) (exchange-Swapped v i j a b valid orders (λ t. ground arith) p q ga gb))
      ]
