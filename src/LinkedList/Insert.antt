-- ===== src/LinkedList/Insert.antt =====
-- `wget_list_append`.
use wget.Prelude.{ℕ, ◌≡◌, refl, ap, ◌∙◌, false, List, [], ◌∷◌, ◌++◌, ◌==◌, All-append, Bytes}
use wget.LinkedList.{set_next, set_prev, write, set_value, Store, update, root_place, list_append}
use wget.LinkedList.Ring.{
  Chain, Away, Distinct, IsRing, update-same, update-other, Away-prev, ==_symm,
}

-- a node between `l` and `b`
abbrev pub spliced : ℕ → ℕ → ℕ → Store → Store
spliced node l b s = record s {
  next = update (update s.next node b) l node;
  prev = update (update s.prev node l) b node;
}

pub spliced-Chain :
    (s : Store) (node a : ℕ) (ys : List ℕ) (b : ℕ)
    → Away node (a ∷ ys)
    → (node == b) ≡ false
    → Away b ys
    → Distinct (a ∷ ys)
    → Chain s a ys b
    → Chain (spliced node (s.prev b) b s) a (ys ++ (node ∷ [])) b
spliced-Chain s node a [] b fresh apart away d k =
    let last : ℕ → ℕ = update s.next node b in
    (
      (
        ap (λ l. update last l node a) k.1 ∙ update-same last a node,
        update-other (update s.prev node (s.prev b)) b node node apart
            ∙ update-same s.prev node (s.prev b)
            ∙ k.1,
      ),
      (
        ap (λ l. update last l node node) k.1
            ∙ update-other last a node node (==_symm a node fresh.0)
            ∙ update-same s.next node b,
        update-same (update s.prev node (s.prev b)) b node,
      ),
    )
spliced-Chain s node a (y ∷ ys) b fresh apart away d k =
    let inner = ==_symm (s.prev b) a (Away-prev s a y ys b d.0 k.1) in
    (
      (
        update-other (update s.next node b) (s.prev b) a node inner
            ∙ update-other s.next node a b fresh.0
            ∙ k.0.0,
        update-other (update s.prev node (s.prev b)) b y node away.0
            ∙ update-other s.prev node y (s.prev b) fresh.1.0
            ∙ k.0.1,
      ),
      spliced-Chain s node y ys b fresh.1 apart away.1 d.1 k.1,
    )

-- what the assignments to a list that is not empty come to
list_append-spliced :
    (s : Store) (node x : ℕ) (text : Bytes)
    → s.root ≡ x
    → (x == 0) ≡ false
    → (x == node) ≡ false
    → list_append root_place node text s ≡ spliced node (s.prev x) x (set_value node text s)
unfolding list_append
list_append-spliced s node x text h filled fresh = rw h (rw filled (rw fresh refl))

pub Away-append :
    (a : ℕ) (xs : List ℕ) (node : ℕ) → Away a xs → (node == a) ≡ false → Away a (xs ++ (node ∷ []))
Away-append a xs node h k = All-append (λ y. (y == a) ≡ false) xs (node ∷ []) h (k, tt)

pub Distinct-append :
    (xs : List ℕ) (node : ℕ) → Distinct xs → Away node xs → Distinct (xs ++ (node ∷ []))
Distinct-append [] node d h = (tt, tt)
Distinct-append (x ∷ xs) node d h =
    (Away-append x xs node d.0 (==_symm x node h.0), Distinct-append xs node d.1 h.1)

list_append-empty :
    (s : Store) (node : ℕ) (text : Bytes)
    → s.root ≡ 0
    → list_append root_place node text s
      ≡ set_next node node (set_prev node node (write root_place node (set_value node text s)))
unfolding list_append
list_append-empty s node text h = rw h refl

-- Appending a new node to a list gives the list with it at the end.
pub list_append-IsRing :
    (s : Store) (xs : List ℕ) (node : ℕ) (text : Bytes)
    → IsRing s xs
    → (node == 0) ≡ false
    → Away node xs
    → IsRing (list_append root_place node text s) (xs ++ (node ∷ []))
list_append-IsRing s [] node text h some_node fresh =
    rw (list_append-empty s node text h) (
      refl,
      (some_node, tt),
      (tt, tt),
      (update-same s.next node node, update-same s.prev node node),
    )
list_append-IsRing s (x ∷ xs) node text h some_node fresh =
    let (start, filled, distinct, chain) = h in
    rw (list_append-spliced s node x text start filled.0 fresh.0) (
      start,
      Away-append 0 (x ∷ xs) node filled some_node,
      Distinct-append (x ∷ xs) node distinct fresh,
      spliced-Chain s node x xs x fresh (==_symm x node fresh.0) distinct.0 distinct chain,
    )
