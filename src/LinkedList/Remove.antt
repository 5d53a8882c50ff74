-- ===== src/LinkedList/Remove.antt =====
-- `wget_list_remove`.
use wget.Prelude.{
  subst, ℕ, ◌≡◌, refl, ap, ◌∙◌, sym, Bool, true, false, not, ◌&&◌, List, [], ◌∷◌, ◌++◌, append-nil,
  ◌==◌, if◌then◌else◌, All,
}
use wget.LinkedList.{Store, update, unlink, move_root, list_remove}
use wget.LinkedList.Ring.{
  Linked, Chain, Away, Distinct, IsRing, same_node, update-same, update-other, Away-prev, ==_symm,
}
use wget.LinkedList.Prepend.{All-front}

-- `p` and `q` are linked to each other
abbrev cut_out : ℕ → ℕ → Store → Store
cut_out p q s = record s { next = update s.next p q; prev = update s.prev q p }

unlink-cut_out :
    (s : Store) (n : ℕ) → (n == s.prev n) ≡ false → unlink n s ≡ cut_out (s.prev n) (s.next n) s
unlink-cut_out s n h =
    ap
      (λ q. record s {
        next = update s.next (s.prev n) (s.next n);
        prev = update s.prev q (s.prev n);
      })
      (update-other s.next (s.prev n) n (s.next n) h)

cut_out-frame :
    (p q : ℕ) (s : Store) (c : ℕ) (bs : List ℕ) (b : ℕ)
    → Away p (c ∷ bs)
    → Away q bs
    → (b == q) ≡ false
    → Chain s c bs b
    → Chain (cut_out p q s) c bs b
cut_out-frame p q s c [] b h g e k =
    (update-other s.next p c q h.0 ∙ k.0, update-other s.prev q b p e ∙ k.1)
cut_out-frame p q s c (y ∷ ys) b h g e k = (
  (update-other s.next p c q h.0 ∙ k.0.0, update-other s.prev q y p g.0 ∙ k.0.1),
  cut_out-frame p q s y ys b h.1 g.1 e k.1,
)

-- the first node behind `n` is one of the nodes
Away-next :
    (s : Store) (c n : ℕ) (bs : List ℕ) (b : ℕ)
    → Away c bs
    → (b == c) ≡ false
    → Chain s n bs b
    → (s.next n == c) ≡ false
Away-next s c n [] b h e k = rw k.0 e
Away-next s c n (y ∷ bs) b h e k = rw k.0.0 h.0

cut_out-first :
    (s : Store) (n a : ℕ) (bs : List ℕ) (b : ℕ)
    → Linked s a n
    → Chain s n bs b
    → Distinct (a ∷ bs)
    → Away b bs
    → Chain (cut_out a (s.next n) s) a bs b
cut_out-first s n a [] b h k d e = (
  update-same s.next a (s.next n) ∙ k.0,
  ap (λ q. update s.prev q a b) k.0 ∙ update-same s.prev b a,
)
cut_out-first s n a (c ∷ bs) b h k d e = (
  (
    update-same s.next a (s.next n) ∙ k.0.0,
    ap (λ q. update s.prev q a c) k.0.0 ∙ update-same s.prev c a,
  ),
  subst (λ q. Chain (cut_out a q s) c bs b) (sym k.0.0)
      (cut_out-frame a c s c bs b d.0 d.1.0 (==_symm c b e.0) k.1),
)

cut_out-Chain :
    (s : Store) (n a : ℕ) (ys bs : List ℕ) (b : ℕ)
    → Chain s a ys n
    → Chain s n bs b
    → Distinct (a ∷ (ys ++ bs))
    → Away b (ys ++ bs)
    → Chain (cut_out (s.prev n) (s.next n) s) a (ys ++ bs) b
cut_out-Chain s n a [] bs b h k d e = rw h.1 (cut_out-first s n a bs b h k d e)
cut_out-Chain s n a (y ∷ ys) bs b h k d e =
    let inner =
      ==_symm (s.prev n) a
        (Away-prev s a y ys n (All-front (λ z. (z == a) ≡ false) (y ∷ ys) bs d.0).0 h.1) in
    let behind = All-front (λ z. (z == y) ≡ false) ys bs d.1.0 in
    (
      (
        update-other s.next (s.prev n) a (s.next n) inner ∙ h.0.0,
        update-other s.prev (s.next n) y (s.prev n)
              (==_symm (s.next n) y (Away-next s y n bs b behind.1 (==_symm y b e.0) k))
            ∙ h.0.1,
      ),
      cut_out-Chain s n y ys bs b h.1 k d.1 e.1,
    )

Chain-split :
    (s : Store) (a : ℕ) (ys : List ℕ) (n : ℕ) (bs : List ℕ) (b : ℕ)
    → Chain s a (ys ++ (n ∷ bs)) b
    → Chain s a ys n × Chain s n bs b
Chain-split s a [] n bs b k = k
Chain-split s a (y ∷ ys) n bs b k =
    let rest = Chain-split s y ys n bs b k.1 in ((k.0, rest.0), rest.1)

All-without :
    (P : ℕ → Type 0) (xs : List ℕ) (n : ℕ) (bs : List ℕ) → All P (xs ++ (n ∷ bs)) → All P (xs ++ bs)
All-without P [] n bs h = h.1
All-without P (x ∷ xs) n bs h = (h.0, All-without P xs n bs h.1)

Distinct-without :
    (xs : List ℕ) (n : ℕ) (bs : List ℕ) → Distinct (xs ++ (n ∷ bs)) → Distinct (xs ++ bs)
Distinct-without [] n bs d = d.1
Distinct-without (x ∷ xs) n bs d =
    (All-without (λ z. (z == x) ≡ false) xs n bs d.0, Distinct-without xs n bs d.1)

-- the node differs from those in front of it
Distinct-Away : (xs : List ℕ) (n : ℕ) (bs : List ℕ) → Distinct (xs ++ (n ∷ bs)) → Away n xs
Distinct-Away [] n bs d = tt
Distinct-Away (x ∷ xs) n bs d =
    (==_symm n x (All-front (λ z. (z == x) ≡ false) xs (n ∷ bs) d.0).1.0, Distinct-Away xs n bs d.1)

drop_and : (u v : Bool) (s t : Store) → v ≡ false → (if u && v then s else t) ≡ t
drop_and true v s t h = rw h refl
drop_and false v s t h = refl

-- a node with others is not the node in front of it
list_remove-linked :
    (s : Store) (n : ℕ)
    → (n == s.prev n) ≡ false
    → list_remove n s ≡ move_root n (s.next n) (cut_out (s.prev n) (s.next n) s)
unfolding list_remove
list_remove-linked s n h =
    drop_and (s.prev n == s.next n) (n == s.prev n) _ _ h
    ∙ ap (λ t. move_root n (t.next n) t) (unlink-cut_out s n h)
    ∙ ap (λ q. move_root n q (cut_out (s.prev n) (s.next n) s))
        (update-other s.next (s.prev n) n (s.next n) h)

list_remove-alone :
    (s : Store) (n : ℕ) → s.prev n ≡ n → s.next n ≡ n → list_remove n s ≡ move_root n 0 s
unfolding list_remove
list_remove-alone s n h k = rw h (rw k (rw (same_node n) refl))

move_root-here :
    (s : Store) (n q : ℕ) → s.root ≡ n → (n == 0) ≡ false → move_root n q s ≡ record s { root = q }
move_root-here s n q h k = rw h (rw k (rw (same_node n) refl))

move_root-other : (s : Store) (n q : ℕ) → (n == s.root) ≡ false → move_root n q s ≡ s
move_root-other s n q h = drop_and (not (s.root == 0)) (n == s.root) _ _ h

cut_out-head :
    (s : Store) (n y : ℕ) (ys : List ℕ)
    → Chain s y ys n
    → Linked s n y
    → Distinct (y ∷ ys)
    → Chain (cut_out (s.prev n) (s.next n) s) y ys y
cut_out-head s n y ys k h d =
    subst (λ zs. Distinct (y ∷ zs) → Away y zs → Chain (cut_out (s.prev n) (s.next n) s) y zs y)
      (append-nil ys) (cut_out-Chain s n y ys [] y k h) d d.0

-- Removing a node of a list gives the list without it.
pub list_remove-IsRing :
    (s : Store) (front : List ℕ) (n : ℕ) (back : List ℕ)
    → IsRing s (front ++ (n ∷ back))
    → IsRing (list_remove n s) (front ++ back)
list_remove-IsRing s [] n [] (start, filled, distinct, chain) =
    ap (λ t. t.root) (list_remove-alone s n chain.1 chain.0 ∙ move_root-here s n 0 start filled.0)
list_remove-IsRing s [] n (y ∷ ys) (start, filled, distinct, chain) =
    let inner = ==_symm (s.prev n) n (Away-prev s n y ys n distinct.0 chain.1) in
    rw
      (list_remove-linked s n inner
        ∙ move_root-here (cut_out (s.prev n) (s.next n) s) n (s.next n) start filled.0)
      (chain.0.0, filled.1, distinct.1, cut_out-head s n y ys chain.1 chain.0 distinct.1)
list_remove-IsRing s (x ∷ ys) n bs (start, filled, distinct, chain) =
    let (front, back) = Chain-split s x ys n bs x chain in
    let away = Distinct-Away (x ∷ ys) n bs distinct in
    let inner = ==_symm (s.prev n) n (Away-prev s n x ys n away front) in
    let parts = Distinct-without (x ∷ ys) n bs distinct in
    rw
      (list_remove-linked s n inner
        ∙ move_root-other (cut_out (s.prev n) (s.next n) s) n (s.next n)
            (rw start (==_symm x n away.0)))
      (
        start,
        All-without (λ z. (z == 0) ≡ false) (x ∷ ys) n bs filled,
        parts,
        cut_out-Chain s n x ys bs x front back parts parts.0,
      )
