-- ===== src/LinkedList/Ring.antt =====
-- Nodes that are linked to each other in both directions.
use wget.Prelude.{ℕ, ◌≡◌, refl, true, false, List, [], ◌∷◌, ◌==◌, ==_iff, arith, All}
use wget.LinkedList.{Store, update}

abbrev pub Linked : Store → ℕ → ℕ → Type 0
Linked s a b = (s.next a ≡ b) × (s.prev b ≡ a)

-- from `a` through the nodes of the list to `b`
abbrev pub Chain : Store → ℕ → List ℕ → ℕ → Type 0
Chain s a [] b = Linked s a b
Chain s a (y ∷ ys) b = Linked s a y × Chain s y ys b

-- none of the nodes is `a`
abbrev pub Away : ℕ → List ℕ → Type 0
Away a ys = All (λ y. (y == a) ≡ false) ys

abbrev pub Distinct : List ℕ → Type 0
Distinct [] = Unit {0}
Distinct (y ∷ ys) = Away y ys × Distinct ys

-- the nodes of a list, in order
abbrev pub IsRing : Store → List ℕ → Type 0
IsRing s [] = s.root ≡ 0
IsRing s (x ∷ xs) = (s.root ≡ x) × Away 0 (x ∷ xs) × Distinct (x ∷ xs) × Chain s x xs x

pub same_node : (a : ℕ) → (a == a) ≡ true
same_node a = (==_iff a a).1 refl

pub update-same : {A : Type 0} (f : ℕ → A) (p : ℕ) (v : A) → update f p v p ≡ v
update-same f p v = rw (same_node p) refl

pub update-other :
    {A : Type 0} (f : ℕ → A) (p q : ℕ) (v : A) → (q == p) ≡ false → update f p v q ≡ f q
update-other f p q v h = rw h refl

-- the last node in front of `b` is one of the nodes
pub Away-prev :
    (s : Store) (c a : ℕ) (ys : List ℕ) (b : ℕ)
    → Away c (a ∷ ys)
    → Chain s a ys b
    → (s.prev b == c) ≡ false
Away-prev s c a [] b h k = rw k.1 h.0
Away-prev s c a (y ∷ ys) b h k = Away-prev s c y ys b h.1 k.1

pub ==_symm : (a b : ℕ) → (a == b) ≡ false → (b == a) ≡ false
==_symm a b h = ground (arith, h)
