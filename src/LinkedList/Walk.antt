-- ===== src/LinkedList/Walk.antt =====
-- The two loops over a list; its length is fuel enough.
use wget.Prelude.{
  subst, ℕ, zero, suc, ◌≤◌, ◌≡◌, refl, ap, ◌∙◌, sym, Bool, true, false, not, ◌&&◌, List, [], ◌∷◌,
  ◌==◌, if◌then◌else◌, arith, map, length, Bytes, ℤ,
}
use wget.LinkedList.{Store, is_zero, browse_from, list_browse, list_remove, list_free}
use wget.LinkedList.Ring.{Chain, Distinct, IsRing, same_node, Away-prev, ==_symm}
use wget.LinkedList.Remove.{list_remove-IsRing}

-- Freeing a list leaves none.
pub list_free-empty :
    (fuel : ℕ) (s : Store) (xs : List ℕ)
    → IsRing s xs
    → length xs ≤ fuel
    → (list_free fuel s).root ≡ 0
unfolding list_free
list_free-empty zero s [] h enough = h
list_free-empty (suc fuel) s [] h enough = rw h refl
list_free-empty zero s (x ∷ xs) h enough = absurd (omega (arith, enough))
list_free-empty (suc fuel) s (x ∷ xs) (start, filled, distinct, chain) enough =
    let nonzero : (s.root == 0) ≡ false = ap (λ r. r == 0) start ∙ filled.0 in
    rw nonzero (
      list_free-empty fuel (list_remove s.root s) xs
        (subst (λ r. IsRing (list_remove r s) xs) (sym start)
          (list_remove-IsRing s [] x xs (start, filled, distinct, chain)))
        (omega (arith, enough)))

stop_at_end : {A : Type 0} (b e : Bool) (r q : A) → e ≡ true → (if b && not e then r else q) ≡ q
stop_at_end true e r q h = rw h refl
stop_at_end false e r q h = refl

go_on_inside :
    {A : Type 0} (b e : Bool) (r q : A)
    → e ≡ false
    → (if b && not e then r else q) ≡ (if b then r else q)
go_on_inside true e r q h = rw h refl
go_on_inside false e r q h = refl

module _ {C : Type 0} (visit : C → Bytes → C × ℤ) where
  -- the callback on one value after the other, as long as it returns 0
  abbrev pub visit_all : Bytes → List Bytes → C → C × ℤ
  visit_all v [] context = visit context v
  visit_all v (w ∷ ws) context =
      let (changed, ret) = visit context v in
      let rest = visit_all w ws changed in if is_zero ret then rest else (changed, ret)

  browse_from-Chain :
      (fuel : ℕ) (s : Store) (a : ℕ) (ys : List ℕ) (b : ℕ) (context : C)
      → Distinct (a ∷ ys)
      → Chain s a ys b
      → length ys ≤ fuel
      → browse_from visit fuel (s.prev b) a context s
        ≡ visit_all (s.value a) (map s.value ys) context
  unfolding browse_from
  browse_from-Chain zero s a [] b context d k enough = refl
  browse_from-Chain (suc fuel) s a [] b context d k enough =
      stop_at_end (is_zero (visit context (s.value a)).1) (a == s.prev b) _ _
        (ap (λ p. a == p) k.1 ∙ same_node a)
  browse_from-Chain zero s a (y ∷ ys) b context d k enough = absurd (omega (arith, enough))
  browse_from-Chain (suc fuel) s a (y ∷ ys) b context d k enough =
      let answer = visit context (s.value a) in
      go_on_inside (is_zero answer.1) (a == s.prev b) _ _
        (==_symm (s.prev b) a (Away-prev s a y ys b d.0 k.1))
      ∙ ap (λ r. if is_zero answer.1 then r else answer)
          (ap (λ n. browse_from visit fuel (s.prev b) n answer.0 s) k.0.0
            ∙ browse_from-Chain fuel s y ys b answer.0 d.1 k.1 (omega (arith, enough)))

  -- Browsing a list that is not empty calls the callback on its values in order, until it does not return 0.
  pub list_browse-visits :
      (fuel : ℕ) (s : Store) (x : ℕ) (xs : List ℕ) (context : C)
      → IsRing s (x ∷ xs)
      → length xs ≤ fuel
      → list_browse visit fuel context s ≡ visit_all (s.value x) (map s.value xs) context
  unfolding list_browse
  list_browse-visits fuel s x xs context (start, filled, distinct, chain) enough =
      let nonzero : (s.root == 0) ≡ false = ap (λ r. r == 0) start ∙ filled.0 in
      rw nonzero (
        subst
          (λ r.
            browse_from visit fuel (s.prev r) r context s
            ≡ visit_all (s.value x) (map s.value xs) context)
          (sym start) (browse_from-Chain fuel s x xs x context distinct chain enough))
