-- ===== src/LinkedList/Prepend.antt =====
-- `wget_list_prepend`.
use wget.Prelude.{ℕ, ◌≡◌, refl, ap, ◌∙◌, false, List, [], ◌∷◌, ◌++◌, ◌==◌, All, Bytes}
use wget.LinkedList.{set_value, Store, update, list_append, list_prepend}
use wget.LinkedList.Ring.{Linked, Chain, Away, Distinct, IsRing, update-other, Away-prev, ==_symm}
use wget.LinkedList.Insert.{spliced, spliced-Chain, Away-append, Distinct-append}

-- what the assignments of `wget_list_prepend` to a list that is not empty come to
list_prepend-spliced :
    (s : Store) (node x : ℕ) (text : Bytes)
    → s.root ≡ x
    → (x == 0) ≡ false
    → (s.prev x == 0) ≡ false
    → (x == node) ≡ false
    → (s.prev x == node) ≡ false
    → list_prepend node text s ≡ spliced node (s.prev (s.prev x)) (s.prev x) (set_value node text s)
unfolding list_prepend list_append
list_prepend-spliced s node x text h filled last fresh new =
    rw h (rw filled (rw last (rw fresh (rw new refl))))

pub All-front : (P : ℕ → Type 0) (xs ys : List ℕ) → All P (xs ++ ys) → All P xs × All P ys
All-front P [] ys h = (tt, h)
All-front P (x ∷ xs) ys h = let rest = All-front P xs ys h.1 in ((h.0, rest.0), rest.1)

Distinct-front : (xs : List ℕ) (l : ℕ) → Distinct (xs ++ (l ∷ [])) → Distinct xs × Away l xs
Distinct-front [] l d = (tt, tt)
Distinct-front (x ∷ xs) l d =
    let rest = Distinct-front xs l d.1 in
    let away = All-front (λ y. (y == x) ≡ false) xs (l ∷ []) d.0 in
    ((away.0, rest.0), (==_symm l x away.1.0, rest.1))

Chain-front :
    (s : Store) (a : ℕ) (ys : List ℕ) (l b : ℕ)
    → Chain s a (ys ++ (l ∷ [])) b
    → Chain s a ys l × Linked s l b
Chain-front s a [] l b k = k
Chain-front s a (y ∷ ys) l b k = let rest = Chain-front s y ys l b k.1 in ((k.0, rest.0), rest.1)

Chain-append :
    (s : Store) (a : ℕ) (ys : List ℕ) (l b : ℕ)
    → Chain s a ys l
    → Linked s l b
    → Chain s a (ys ++ (l ∷ [])) b
Chain-append s a [] l b k h = (k, h)
Chain-append s a (y ∷ ys) l b k h = (k.0, Chain-append s y ys l b k.1 h)

-- the link behind the place of a new node stays
spliced-Linked :
    (s : Store) (node x : ℕ) (ys : List ℕ) (l : ℕ)
    → Chain s x ys l
    → Away l (x ∷ ys)
    → (l == node) ≡ false
    → (x == node) ≡ false
    → Linked s l x
    → Linked (spliced node (s.prev l) l s) l x
spliced-Linked s node x ys l k away new fresh h = (
  update-other (update s.next node l) (s.prev l) l node
        (==_symm (s.prev l) l (Away-prev s l x ys l away k))
      ∙ update-other s.next node l l new
      ∙ h.0,
  update-other (update s.prev node (s.prev l)) l x node away.0
      ∙ update-other s.prev node x (s.prev l) fresh
      ∙ h.1,
)

-- Prepending a new node to a list of two nodes or more puts it in front of the last one: the first node stays the first.
pub list_prepend-IsRing :
    (s : Store) (x : ℕ) (ys : List ℕ) (l node : ℕ) (text : Bytes)
    → IsRing s ((x ∷ ys) ++ (l ∷ []))
    → (node == 0) ≡ false
    → Away node ((x ∷ ys) ++ (l ∷ []))
    → IsRing (list_prepend node text s) (((x ∷ ys) ++ (node ∷ [])) ++ (l ∷ []))
list_prepend-IsRing s x ys l node text h some_node fresh =
    let (start, filled, distinct, chain) = h in
    let (front, link) = Chain-front s x ys l x chain in
    let nonzero = All-front (λ y. (y == 0) ≡ false) (x ∷ ys) (l ∷ []) filled in
    let away = All-front (λ y. (y == node) ≡ false) (x ∷ ys) (l ∷ []) fresh in
    let parts = Distinct-front (x ∷ ys) l distinct in
    let new = ==_symm l node away.1.0 in
    let written =
      list_prepend-spliced s node x text start filled.0 (rw link.1 nonzero.1.0) away.0.0
        (rw link.1 away.1.0)
      ∙ ap (λ m. spliced node (s.prev m) m (set_value node text s)) link.1 in
    rw written (
      start,
      Away-append 0 ((x ∷ ys) ++ (node ∷ [])) l (Away-append 0 (x ∷ ys) node nonzero.0 some_node)
          nonzero.1.0,
      Distinct-append ((x ∷ ys) ++ (node ∷ [])) l (Distinct-append (x ∷ ys) node parts.0 away.0)
          (Away-append l (x ∷ ys) node parts.1 new),
      Chain-append (spliced node (s.prev l) l s) x (ys ++ (node ∷ [])) l x
          (spliced-Chain s node x ys l away.0 new parts.1.1 parts.0 front)
          (spliced-Linked s node x ys l front parts.1 away.1.0 away.0.0 link),
    )
