-- ===== src/Vector/Sorted.antt =====
-- `wget_vector_insert_sorted`: sorting on demand, the search for the position, the insertion.
use Prim.Native.Nat.{Ordering}
use mathlib.Core.List.{Perm}
use mathlib.Core.List.Perm
use wget.Prelude.{
  ◌∙◌, refl, length-perm, ◌==◌, ltb, ℕ, ◌-◌, ◌<◌, ◌≤◌, ◌≡◌, inl, inr, refl, sym, subst, Bool, true,
  false, Bool-cases, List, ◌∷◌, length, get_or, some, ℤ, pos, arith,
}
use wget.Vector.Insert.{get_elem?-insert_at, IsValid, insert_private-store, make_room-fits}
use wget.Vector.Flag.{
  length-insert_at, insert_at-Sorted, insert_at-perm, FitsAt, sorted_flag-FitsAt,
}
use wget.Vector.Order.{Sorted-get_or, IsOrder, Sorted}
use wget.Vector.Search.{Outcome, search-Outcome}
use wget.Vector.{
  get, store, insert_at, sorted_flag, Compare, Vector, make_room, sorted_position, Sorter, sort,
  insert_sorted_with, insert_by_search, sorted_first, grown, sort_with, insert_sorted,
}

-- What the C library says of `qsort_r`, for a comparison that orders.
pub record Sorts {A : Type 0} (qsort : Sorter A) : Type 0 where
  pub sort-perm : (c : Compare A) (xs : List A) → Perm (qsort.sort c xs) xs
  pub sort-Sorted : (c : Compare A) (xs : List A) → IsOrder c → Sorted c (qsort.sort c xs)

module _ {A : Type 0} {c : Compare A} (o : IsOrder c) where
  -- The position that the search leaves is one where the element fits.
  Outcome-FitsAt :
      (e : A) (xs : List A) (s : Sorted c xs) (r : Bool × ℕ × Ordering)
      → Outcome o e xs s r
      → (sorted_position r ≤ length xs) × FitsAt o e xs (sorted_position r)
  unfolding Outcome sorted_position
  Outcome-FitsAt e xs s (true, m, res) (h, same) =
      let turned = o.turn e (get_or xs m e) in
      (
        omega arith,
        record {
          left = λ q.
              o.le_trans _ (get_or xs m e) e (Sorted-get_or o xs (m - 1) m e s (omega arith) h)
                (ground arith);
          right = λ q. ground arith;
        },
      )
  Outcome-FitsAt e xs s (false, m, res) h =
      let p = sorted_position (false, m, res) in
      (
        h.inside,
        record {
          left =
              λ q. ground (arith, h.before (p - 1) (omega arith), o.turn e (get_or xs (p - 1) e));
          right = λ q. ground (arith, h.after p (omega arith) q);
        },
      )

-- `wget_vector_insert_sorted` succeeded: the vector holds the element where it was put and all the
-- others, and it is sorted and says so.
pub record InsertedSorted {A : Type 0} (c : Compare A) (v : Vector A) (e : A) (r : Vector A × ℤ)
    : Type 0 where
  pub elements : Perm r.0.entry (e ∷ v.entry)
  pub holds : get r.0 r.1 ≡ some e
  pub flag : r.0.sorted ≡ true
  pub in_order : Sorted c r.0.entry
  pub fits : length r.0.entry ≤ r.0.max
  pub same_cmp : r.0.cmp ≡ v.cmp
  pub same_off : r.0.off ≡ v.off

module _ {A : Type 0} {c : Compare A} (o : IsOrder c) where
  get-store :
      (v : Vector A) (m : ℕ) (e : A) (p : ℕ)
      → p ≤ length v.entry
      → get (store (record v { max = m }) (insert_at p e v.entry) e p).0 (pos p) ≡ some e
  unfolding get store
  get-store v m e p h =
      let inside : ltb p (length (insert_at p e v.entry)) ≡ true =
        ground (arith, length-insert_at p e v.entry) in
      rw inside (get_elem?-insert_at p e v.entry h)

  -- a store at a position where the element fits, into a vector that is sorted already
  store-InsertedSorted :
      (v : Vector A) (m : ℕ) (e : A) (p : ℕ)
      → Sorted c v.entry
      → v.cmp ≡ some c
      → v.sorted ≡ true
      → length v.entry < m
      → p ≤ length v.entry
      → FitsAt o e v.entry p
      → InsertedSorted c v e (store (record v { max = m }) (insert_at p e v.entry) e p)
  store-InsertedSorted v m e p s is_c flag room h f =
      let xs = insert_at p e v.entry in
      record {
        elements = unfold store in insert_at-perm p e v.entry;
        holds = unfold store in get-store v m e p h;
        flag =
            unfold store in
            subst (λ q. sorted_flag q e xs p v.sorted ≡ true) (sym is_c)
              (subst (λ b. sorted_flag (some c) e xs p b ≡ true) (sym flag)
                (sorted_flag-FitsAt o e v.entry p h f));
        in_order = unfold store in insert_at-Sorted o e v.entry p h s f;
        fits = unfold store in omega (arith, length-insert_at p e v.entry);
        same_cmp = unfold store in refl;
        same_off = unfold store in refl;
      }

  insert_by_search-InsertedSorted :
      (v w : Vector A) (e : A) (s : Sorted c v.entry)
      → v.cmp ≡ some c
      → v.sorted ≡ true
      → length v.entry ≤ v.max
      → 0 < v.max
      → make_room v ≡ some w
      → InsertedSorted c v e (insert_by_search c v e)
  unfolding insert_by_search
  insert_by_search-InsertedSorted v w e s is_c flag fits size room =
      let (inside, place) = Outcome-FitsAt o e v.entry s _ (search-Outcome o e v.entry s) in
      let (grew, more) = make_room-fits v w size fits room in
      rw (insert_private-store v w e _ inside room)
        (rw grew (store-InsertedSorted v w.max e _ s is_c flag more inside place))

  InsertedSorted-perm :
      (v u : Vector A) (e : A) (r : Vector A × ℤ)
      → Perm u.entry v.entry
      → (u.cmp ≡ v.cmp) × (u.off ≡ v.off)
      → InsertedSorted c u e r
      → InsertedSorted c v e r
  InsertedSorted-perm v u e r p (same_cmp, same_off) i = record {
    elements = Perm.trans i.elements (Perm.cons e p);
    holds = i.holds;
    flag = i.flag;
    in_order = i.in_order;
    fits = i.fits;
    same_cmp = i.same_cmp ∙ same_cmp;
    same_off = i.same_off ∙ same_off;
  }

pub make_room-grows :
    {A : Type 0} (v : Vector A) (m : ℕ)
    → grown v.max v.off ≡ some m
    → (w : Vector A) × (make_room v ≡ some w)
unfolding make_room
make_room-grows v m g = elim (Bool-cases (v.max == length v.entry)) [
  | inl full ↦ (record v { max = m }, rw (full, make_room) (rw (g, make_room)))
  | inr room ↦ (v, rw (room, make_room))
]

module _ {A : Type 0} (qsort : Sorter A) (sorts : Sorts qsort) {c : Compare A} (o : IsOrder c) where
  -- the vector after `qsort_r`
  abbrev pub resorted : Vector A → Vector A
  resorted v = record v { entry = qsort.sort c v.entry; sorted = true }

  pub sort-resorted : (v : Vector A) → v.cmp ≡ some c → sort qsort v ≡ resorted v
  unfolding sort sort_with
  sort-resorted v is_c = subst (λ q. sort_with qsort q v ≡ resorted v) (sym is_c) refl

  insert_first :
      (v : Vector A) (e : A) (m : ℕ)
      → v.cmp ≡ some c
      → IsValid v
      → 0 < v.max
      → grown v.max v.off ≡ some m
      → InsertedSorted c v e (insert_by_search c (sorted_first qsort v) e)
  unfolding sorted_first
  insert_first v e m is_c valid size grows = elim (Bool-cases v.sorted) [
    | inl flag ↦
        let same : sorted_first qsort v ≡ v = ground arith in
        let (w, room) = make_room-grows v m grows in
        subst (λ u. InsertedSorted c v e (insert_by_search c u e)) (sym same)
          (insert_by_search-InsertedSorted o v w e (valid.truthful c is_c flag) is_c flag valid.fits
            size room)
    | inr unsorted ↦
        let same : sorted_first qsort v ≡ resorted v = ground (arith, sort-resorted v is_c) in
        let (w, room) = make_room-grows (resorted v) m grows in
        let p = sorts.sort-perm c v.entry in
        subst (λ u. InsertedSorted c v e (insert_by_search c u e)) (sym same)
          (InsertedSorted-perm o v (resorted v) e _ p (refl, refl)
            (insert_by_search-InsertedSorted o (resorted v) w e (sorts.sort-Sorted c v.entry o) is_c
              refl (omega (arith, length-perm p, valid.fits)) size room))
  ]

  -- With a comparison that is an order and a `qsort_r` that sorts: `wget_vector_insert_sorted` into a
  -- valid vector that may grow puts the element among the others
  -- so that the vector is sorted, whether it was sorted before or not, and returns where it stands.
  pub insert_sorted-InsertedSorted :
      (v : Vector A) (e : A) (m : ℕ)
      → v.cmp ≡ some c
      → IsValid v
      → 0 < v.max
      → grown v.max v.off ≡ some m
      → InsertedSorted c v e (insert_sorted qsort v e)
  unfolding insert_sorted insert_sorted_with
  insert_sorted-InsertedSorted v e m is_c valid size grows =
      subst (λ q. InsertedSorted c v e (insert_sorted_with qsort q v e)) (sym is_c)
        (insert_first v e m is_c valid size grows)
