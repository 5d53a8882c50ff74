-- ===== src/Hashmap/Update.antt =====
-- Stores and removals of libwget/hashmap.c as changes to a function from keys to values.
use wget.Prelude.{
  ℕ, ◌+◌, ◌-◌, ◌%◌, ◌<◌, ◌≤◌, ◌≡◌, refl, ap, ◌∙◌, sym, Bool, true, false, Bool-cases, Option-cases,
  inl, inr, List, [], ◌∷◌, All, Option, none, some, length, get_or, ltb, if◌then◌else◌, arith,
}
use wget.Hashmap.{
  is_found, put_found, remove_found, Entry, Hashmap, find_in, hashmap_find_entry, with_chain,
  hashmap_new_entry, write_entry, put_with, get, contains, unlink, remove,
}
use wget.Hashmap.Chain.{
  look-eq-none, IsKey, look, count, count-eq-zero, count-new, look-new, Writes, look-write_entry,
  count-write_entry, look-unlink, count-unlink, length-write_entry, length-unlink,
}
use wget.Hashmap.Table.{length-flat_set, Placed-get_or}
use wget.Hashmap.Map.{
  All-write_entry, All-unlink, IsMap, get-look_at, inside, once_here, set-IsTable, set_reads, Reads,
  table-Reads, grow-Reads,
}

module _ {K V : Type 0} {hash : K → ℕ} {same : K → K → Bool} (k : IsKey hash same) where
  -- the function `f`, changed where the key is `a`
  abbrev pub update : (K → Option V) → K → Option V → K → Option V
  update f a v q = if same q a then v else f q

  module _ (h : Hashmap K V) (a : K) (m : IsMap k h) where
    abbrev chain : List (Entry K V)
    chain = get_or h.entry (hash a % h.max) []

    -- another chain in place of the one for `a`
    with_chain-Reads :
        (c : List (Entry K V)) (cur : ℕ) (v : Option V)
        → All (λ e. e.hash % h.max ≡ hash a % h.max) c
        → ((q : K) → count k q c ≤ 1)
        → length c + h.cur ≡ length chain + cur
        → ((q : K) → look k q c ≡ (if same q a then v else look k q chain))
        → Reads k (with_chain h (hash a % h.max) c cur) (update (get h) a v) cur
    with_chain-Reads c cur v placed once sizes looks =
        table-Reads k (with_chain h (hash a % h.max) c cur) (update (get h) a v) m.hash_is m.same_is
          (set-IsTable k h.max h.cur h.entry m.table a c cur placed once sizes)
          (λ q.
            set_reads k h.max h.cur h.entry m.table a c v q (looks q)
            ∙ ap (λ x. if same q a then v else x) (sym (get-look_at k h q m)))

    placed_chain : All (λ e. e.hash % h.max ≡ hash a % h.max) chain
    placed_chain =
        Placed-get_or h.max 0 (hash a % h.max) (hash a % h.max) h.entry m.table.placed (omega arith)

    once_chain : (q : K) → count k q chain ≤ 1
    once_chain = once_here k h.max h.cur h.entry m.table a

    new_entry-Reads :
        (v : V)
        → find_in same a (hash a) chain ≡ none
        → Reads k (hashmap_new_entry h (hash a) a v) (update (get h) a (some v)) (h.cur + 1)
    unfolding hashmap_new_entry
    new_entry-Reads v missing =
        let e : Entry K V = record { key = a; value = v; hash = hash a } in
        let added : Hashmap K V = with_chain h (hash a % h.max) (e ∷ chain) (h.cur + 1) in
        let r : Reads k added (update (get h) a (some v)) added.cur =
          with_chain-Reads (e ∷ chain) (h.cur + 1) (some v) (refl, placed_chain)
            (λ q.
              ground
                (arith, count-new k q a v chain, once_chain q, count-eq-zero k a q chain missing))
            (omega arith) (λ q. look-new k q a v chain) in
        elim (Bool-cases (ltb added.cur h.threshold)) [
          | inl e ↦ rw (e, hashmap_new_entry) r
          | inr e ↦
              rw (e, hashmap_new_entry) (grow-Reads k added h.off (update (get h) a (some v)) r)
        ]

    hash_of : h.hash a ≡ hash a
    hash_of = ap (λ g. g a) m.hash_is

    -- the search that each operation begins with
    find_of :
        (found : Option (Entry K V))
        → find_in same a (hash a) chain ≡ found
        → hashmap_find_entry h a (h.hash a) (h.hash a % h.max) ≡ found
    unfolding hashmap_find_entry
    find_of found e =
        ap (λ n. find_in h.same a n (get_or h.entry (n % h.max) [])) hash_of
        ∙ ap (λ s. find_in s a (hash a) chain) m.same_is
        ∙ e

    contains_missing : find_in same a (hash a) chain ≡ none → contains h a ≡ false
    unfolding contains
    contains_missing e = ap is_found (find_of none e)

    contains_there :
        (old : Entry K V) → find_in same a (hash a) chain ≡ some old → contains h a ≡ true
    unfolding contains
    contains_there old e = ap is_found (find_of (some old) e)

    put_missing :
        (v : V) (f : Entry K V → Entry K V)
        → find_in same a (hash a) chain ≡ none
        → put_with f h a v ≡ (hashmap_new_entry h (hash a) a v, 0)
    unfolding put_with put_found
    put_missing v f e =
        ap (put_found f h a v) (find_of none e) ∙ ap (λ n. (hashmap_new_entry h n a v, 0)) hash_of

    put_there :
        (v : V) (f : Entry K V → Entry K V) (old : Entry K V)
        → find_in same a (hash a) chain ≡ some old
        → put_with f h a v
          ≡ (with_chain h (hash a % h.max) (write_entry same a (hash a) f chain) h.cur, 1)
    unfolding put_with put_found
    put_there v f old e =
        ap (put_found f h a v) (find_of (some old) e)
        ∙ ap
            (λ n. (
              with_chain h (n % h.max) (write_entry h.same a n f (get_or h.entry (n % h.max) []))
                  h.cur,
              1,
            ))
            hash_of
        ∙ ap (λ s. (with_chain h (hash a % h.max) (write_entry s a (hash a) f chain) h.cur, 1))
            m.same_is

    remove_missing : find_in same a (hash a) chain ≡ none → remove h a ≡ (h, 0)
    unfolding remove remove_found
    remove_missing e = ap (remove_found h a) (find_of none e)

    remove_there :
        (old : Entry K V)
        → find_in same a (hash a) chain ≡ some old
        → remove h a ≡ (with_chain h (hash a % h.max) (unlink same a (hash a) chain) (h.cur - 1), 1)
    unfolding remove remove_found
    remove_there old e =
        ap (remove_found h a) (find_of (some old) e)
        ∙ ap
            (λ n. (
              with_chain h (n % h.max) (unlink h.same a n (get_or h.entry (n % h.max) []))
                  (h.cur - 1),
              1,
            ))
            hash_of
        ∙ ap (λ s. (with_chain h (hash a % h.max) (unlink s a (hash a) chain) (h.cur - 1), 1))
            m.same_is

    -- `r` is what a store of `v` under `a` leaves: the map with the change, and whether there was an
    -- entry for `a`.
    pub record Puts (v : V) (r : Hashmap K V × ℕ) : Type 0 where
      pub reads :
          Reads k r.0 (update (get h) a (some v)) (if contains h a then h.cur else h.cur + 1)
      pub returned : r.1 ≡ (if contains h a then 1 else 0)

    pub put_with-Puts :
        (v : V) (f : Entry K V → Entry K V) → Writes k a v f → Puts v (put_with f h a v)
    put_with-Puts v f w = elim (Option-cases (find_in same a (hash a) chain)) [
      | inl e ↦
          let absent = contains_missing e in
          rw (put_missing v f e)
            (record { reads = rw absent (new_entry-Reads v e); returned = rw absent refl })
      | inr (old, e) ↦
          let present = contains_there old e in
          rw (put_there v f old e) (record {
            reads = rw present (
                with_chain-Reads (write_entry same a (hash a) f chain) h.cur (some v)
                  (All-write_entry (λ n. n % h.max ≡ hash a % h.max) same a (hash a) f chain
                    w.hash_kept placed_chain)
                  (λ q. omega (arith, count-write_entry k a q v f chain w, once_chain q))
                  (omega (arith, length-write_entry k a f chain))
                  (λ q. look-write_entry k a q v f chain old w e));
            returned = rw present refl;
          })
    ]

    -- what a removal of `a` leaves, and whether there was an entry
    pub record Removes (r : Hashmap K V × ℕ) : Type 0 where
      pub reads : Reads k r.0 (update (get h) a none) (if contains h a then h.cur - 1 else h.cur)
      pub returned : r.1 ≡ (if contains h a then 1 else 0)

    -- a key that is not there reads as `none` already
    absent_reads :
        find_in same a (hash a) chain ≡ none → (q : K) → get h q ≡ update (get h) a none q
    absent_reads e q = elim (Bool-cases (same q a)) [
      | inl s ↦ rw s (
          get-look_at k h q m
          ∙ rw (k.hash-same q a s) (look-eq-none k q chain (count-eq-zero k a q chain e s)))
      | inr s ↦ rw s refl
    ]

    -- `wget_hashmap_remove` of a map in order takes the key out of the map, counts it if it was there, and
    -- returns whether it was; every other key is left.
    pub remove-Removes : Removes (remove h a)
    remove-Removes = elim (Option-cases (find_in same a (hash a) chain)) [
      | inl e ↦
          let absent = contains_missing e in
          rw (remove_missing e) (record {
            reads = rw absent (record { map = m; reads = absent_reads e; size = refl });
            returned = rw absent refl;
          })
      | inr (old, e) ↦
          let present = contains_there old e in
          let sizes = length-unlink k a chain old e in
          let filled : 0 < h.cur = omega (
            arith,
            sizes,
            m.table.counted,
            length-flat_set h.entry (hash a % h.max) [] (inside k h.max h.cur h.entry m.table a),
          ) in
          rw (remove_there old e) (record {
            reads = rw present (
                with_chain-Reads (unlink same a (hash a) chain) (h.cur - 1) none
                  (All-unlink (λ n. n % h.max ≡ hash a % h.max) same a (hash a) chain placed_chain)
                  (λ q. omega (arith, count-unlink k a q chain, once_chain q)) (omega arith)
                  (λ q. look-unlink k a q chain (once_chain q)));
            returned = rw present refl;
          })
    ]
