-- ===== src/Hashmap/Map.antt =====
-- The hash map as a function from keys to values, and each operation as a change to it.
use native.Mathlib.Nat.{mod-lt}
use wget.Prelude.{
  ℕ, zero, suc, ◌+◌, ◌*◌, ◌%◌, ◌<◌, ◌≤◌, ◌≡◌, refl, ap, ◌∙◌, sym, subst, Bool, false, Bool-cases,
  inl, inr, List, [], ◌∷◌, All, Option, length, length-set, get_or, set, replicate, ◌==◌,
  if◌then◌else◌, ℤ, pos, negsuc, arith,
}
use wget.Hashmap.{
  value_of, move_chains, Entry, Hashmap, is_entry, find_in, hashmap_find_entry, hashmap_rehash,
  grow, write_entry, get, unlink,
}
use wget.Hashmap.Chain.{IsKey, look, count, look-find_in}
use wget.Hashmap.Table.{
  get_or-set, get_or-set_other, length-flat_set, Placed-get_or, Placed-set, count-misplaced,
}
use wget.Hashmap.Rehash.{look_at, IsTable, move_chains-SameTable}

module _ {K V : Type 0} where
  pub All-write_entry :
      (P : ℕ → Type 0) (same : K → K → Bool) (a : K) (n : ℕ) (f : Entry K V → Entry K V)
      (c : List (Entry K V))
      → ((e : Entry K V) → (f e).hash ≡ e.hash)
      → All (λ e. P e.hash) c
      → All (λ e. P e.hash) (write_entry same a n f c)
  unfolding write_entry
  All-write_entry P same a n f [] kept h = tt
  All-write_entry P same a n f (e ∷ c) kept h = elim (Bool-cases (is_entry same a n e)) [
    | inl i ↦ rw i (subst P (sym (kept e)) h.0, h.1)
    | inr i ↦ rw i (h.0, All-write_entry P same a n f c kept h.1)
  ]

  pub All-unlink :
      (P : ℕ → Type 0) (same : K → K → Bool) (a : K) (n : ℕ) (c : List (Entry K V))
      → All (λ e. P e.hash) c
      → All (λ e. P e.hash) (unlink same a n c)
  unfolding unlink
  All-unlink P same a n [] h = tt
  All-unlink P same a n (e ∷ c) h = elim (Bool-cases (is_entry same a n e)) [
    | inl i ↦ rw i h.1
    | inr i ↦ rw i (h.0, All-unlink P same a n c h.1)
  ]

module _ {K V : Type 0} {hash : K → ℕ} {same : K → K → Bool} (k : IsKey hash same) where
  -- A map with these functions whose table is in order.
  pub record IsMap (h : Hashmap K V) : Type 0 where
    pub hash_is : h.hash ≡ hash
    pub same_is : h.same ≡ same
    pub table : IsTable k h.max h.cur h.entry

  pub get-look_at : (h : Hashmap K V) (q : K) → IsMap h → get h q ≡ look_at k h.max h.entry q
  unfolding get hashmap_find_entry
  get-look_at h q m =
      ap (λ g. value_of (find_in h.same q (g q) (get_or h.entry (g q % h.max) []))) m.hash_is
      ∙ ap (λ s. value_of (find_in s q (hash q) (get_or h.entry (hash q % h.max) []))) m.same_is
      ∙ sym (look-find_in k q (get_or h.entry (hash q % h.max) []))

  module _ (max cur : ℕ) (cs : List (List (Entry K V))) (t : IsTable k max cur cs) (a : K) where
    abbrev here : List (Entry K V)
    here = get_or cs (hash a % max) []

    pub inside : hash a % max < length cs
    inside = omega (arith, mod-lt (hash a) t.room, t.size)

    -- also a key that belongs elsewhere is at most once in the chain
    pub once_here : (q : K) → count k q here ≤ 1
    once_here q = elim (Bool-cases (hash q % max == hash a % max)) [
      | inl s ↦ let e : hash q % max ≡ hash a % max = ground arith in rw e at (t.once q)
      | inr s ↦ omega (
        arith,
        count-misplaced k max (hash a % max) q (get_or cs (hash a % max) [])
            (Placed-get_or max 0 (hash a % max) (hash a % max) cs t.placed (omega arith))
            (λ e. ground arith),
      )
    ]

    -- another chain in the place of the one for `a`
    pub set-IsTable :
        (c : List (Entry K V)) (cur' : ℕ)
        → All (λ e. e.hash % max ≡ hash a % max) c
        → ((q : K) → count k q c ≤ 1)
        → length c + cur ≡ length here + cur'
        → IsTable k max cur' (set cs (hash a % max) c)
    set-IsTable c cur' placed once sizes = record {
      size = length-set cs (hash a % max) c ∙ t.size;
      room = t.room;
      placed = Placed-set max 0 (hash a % max) (hash a % max) c cs t.placed (omega arith) placed;
      once = λ q. elim (Bool-cases (hash q % max == hash a % max)) [
        | inl s ↦
            let e : hash q % max ≡ hash a % max = ground arith in
            rw e (rw (get_or-set cs (hash a % max) c [] inside) (once q))
        | inr s ↦
            rw (get_or-set_other cs (hash a % max) (hash q % max) c [] (λ e. ground arith))
              (t.once q)
      ];
      counted = omega (arith, length-flat_set cs (hash a % max) c inside, t.counted, sizes);
    }

    pub set_reads :
        (c : List (Entry K V)) (v : Option V) (q : K)
        → look k q c ≡ (if same q a then v else look k q here)
        → look_at k max (set cs (hash a % max) c) q ≡ (if same q a then v else look_at k max cs q)
    set_reads c v q h = elim (Bool-cases (hash q % max == hash a % max)) [
      | inl s ↦
          let e : hash q % max ≡ hash a % max = ground arith in
          rw e (rw (get_or-set cs (hash a % max) c [] inside) h)
      | inr s ↦ elim (Bool-cases (same q a)) [
        | inl e ↦ absurd (ground (arith, ap (λ x. x % max) (k.hash-same q a e)))
        | inr e ↦
            rw e
              (rw (get_or-set_other cs (hash a % max) (hash q % max) c [] (λ u. ground arith)) refl)
      ]
    ]

  -- The map reads like `f` and holds `cur` entries.
  pub record Reads (h : Hashmap K V) (f : K → Option V) (cur : ℕ) : Type 0 where
    pub map : IsMap h
    pub reads : (q : K) → get h q ≡ f q
    pub size : h.cur ≡ cur

  -- a map with another table that reads like `f`
  pub table-Reads :
      (h : Hashmap K V) (f : K → Option V)
      → h.hash ≡ hash
      → h.same ≡ same
      → IsTable k h.max h.cur h.entry
      → ((q : K) → look_at k h.max h.entry q ≡ f q)
      → Reads h f h.cur
  table-Reads h f e d t r =
      let m : IsMap h = record { hash_is = e; same_is = d; table = t } in
      record { map = m; reads = λ q. get-look_at h q m ∙ r q; size = refl }

  -- A resize of the table to any size but 0 changes neither what is read under any key nor the count, and
  -- leaves the map in order.
  pub rehash-Reads :
      (h : Hashmap K V) (n : ℕ) (f : K → Option V)
      → 0 < n
      → Reads h f h.cur
      → Reads (hashmap_rehash h n false) f h.cur
  unfolding hashmap_rehash
  rehash-Reads h n f room r = elim (Bool-cases (h.cur == 0)) [
    | inl e ↦ rw (e, hashmap_rehash) r
    | inr e ↦
        let m = r.map in
        let s = move_chains-SameTable k n h.max h.cur h.entry room m.table in
        let moved : move_chains n false h.hash h.entry h.cur (replicate n [])
            ≡ move_chains n false hash h.entry h.cur (replicate n []) =
          ap (λ g. move_chains n false g h.entry h.cur (replicate n [])) m.hash_is in
        rw (e, hashmap_rehash)
          (table-Reads _ f m.hash_is m.same_is (rw moved s.table)
            (λ q. rw moved (s.look_same q) ∙ sym (get-look_at h q m) ∙ r.reads q))
  ]

  pub grow-Reads :
      (h : Hashmap K V) (off : ℤ) (f : K → Option V) → Reads h f h.cur → Reads (grow h off) f h.cur
  unfolding grow
  grow-Reads h (pos zero) f r = r
  grow-Reads h (pos (suc n)) f r = rehash-Reads h (h.max + suc n) f (omega arith) r
  grow-Reads h (negsuc zero) f r = r
  grow-Reads h (negsuc (suc n)) f r =
      let room = r.map.table.room in
      let more : h.max * suc (suc n) ≡ h.max + h.max + h.max * n = grind arith in
      rehash-Reads h (h.max * suc (suc n)) f (omega arith) r
