-- ===== src/Hashmap/Client.antt =====
-- What a user of the hash map can observe over any sequence of calls.
use wget.Prelude.{
  ◌%◌, ℕ, ◌-◌, ◌<◌, ◌≡◌, refl, ap, ◌∙◌, Bool, Bool-cases, inl, inr, List, [], ◌∷◌, length,
  length-append, length-replicate, replicate, Option, none, some, ◌==◌, if◌then◌else◌, arith,
}
use wget.Hashmap.{Entry, Hashmap, create, put, put_noalloc, remove, get, clear, clear_chains}
use wget.Hashmap.Chain.{IsKey, look, count}
use wget.Hashmap.Map.{IsMap, Reads, table-Reads}
use wget.Hashmap.Rehash.{IsTable, look_at}
use wget.Hashmap.Table.{flat, flat-replicate, get_or-replicate, Placed-replicate}
use wget.Hashmap.Update.{Puts, put_with-Puts, remove-Removes}

-- the calls that change a map
pub data Op (K V : Type 0) : Type 0 where
  put_call : K → V → Op K V
  put_noalloc_call : K → V → Op K V
  remove_call : K → Op K V
  clear_call : Op K V

module _ {K V : Type 0} where
  unfoldable pub run : List (Op K V) → Hashmap K V → Hashmap K V
  run [] h = h
  run (put_call a v ∷ ops) h = run ops (put h a v).0
  run (put_noalloc_call a v ∷ ops) h = run ops (put_noalloc h a v).0
  run (remove_call a ∷ ops) h = run ops (remove h a).0
  run (clear_call ∷ ops) h = run ops (clear h)

  -- the same calls on a function
  abbrev pub replay : (K → K → Bool) → List (Op K V) → (K → Option V) → K → Option V
  replay same [] f = f
  replay same (put_call a v ∷ ops) f = replay same ops (λ q. if same q a then some v else f q)
  replay same (put_noalloc_call a v ∷ ops) f =
      replay same ops (λ q. if same q a then some v else f q)
  replay same (remove_call a ∷ ops) f = replay same ops (λ q. if same q a then none else f q)
  replay same (clear_call ∷ ops) f = replay same ops (λ q. none)

  all_empty : (cs : List (List (Entry K V))) → length (flat cs) ≡ 0 → cs ≡ replicate (length cs) []
  all_empty [] h = refl
  all_empty ([] ∷ cs) h = ap (◌∷◌ []) (all_empty cs h)
  all_empty ((e ∷ c) ∷ cs) h = absurd (omega arith)

  clear_chains-replicate :
      (cs : List (List (Entry K V))) (cur : ℕ)
      → length (flat cs) ≡ cur
      → clear_chains cs cur ≡ replicate (length cs) []
  unfolding clear_chains
  clear_chains-replicate [] cur h = refl
  clear_chains-replicate (c ∷ cs) cur h = elim (Bool-cases (cur == 0)) [
    | inl e ↦ rw e (all_empty (c ∷ cs) (ground arith))
    | inr e ↦ rw e (
        ap (◌∷◌ [])
          (clear_chains-replicate cs (cur - length c) (omega (arith, length-append c (flat cs)))))
  ]

module _ {K V : Type 0} {hash : K → ℕ} {same : K → K → Bool} (k : IsKey hash same) where
  -- an empty table reads as nothing
  empty-IsTable : (max : ℕ) → 0 < max → IsTable {V = V} k max 0 (replicate max [])
  empty-IsTable max room = record {
    size = length-replicate max [];
    room = room;
    placed = Placed-replicate K V max 0 max;
    once = λ q.
        rw (get_or-replicate {A = List (Entry K V)} max (hash q % max) [])
          (unfold count in omega arith);
    counted = ap length (flat-replicate max);
  }

  empty_reads : (max : ℕ) (q : K) → look_at {V = V} k max (replicate max []) q ≡ none
  empty_reads max q =
      rw (get_or-replicate {A = List (Entry K V)} max (hash q % max) []) (unfold look in refl)

  clear-Reads : (h : Hashmap K V) → IsMap k h → Reads k (clear h) (λ q. none) 0
  unfolding clear
  clear-Reads h m =
      let empty : clear_chains h.entry h.cur ≡ replicate h.max [] =
        clear_chains-replicate h.entry h.cur m.table.counted
        ∙ ap (λ n. replicate n []) m.table.size in
      table-Reads k _ (λ q. none) m.hash_is m.same_is (rw empty (empty-IsTable h.max m.table.room))
        (λ q. rw empty (empty_reads h.max q))

  Reads-ext :
      (h : Hashmap K V) (f g : K → Option V) (cur : ℕ)
      → Reads k h f cur
      → ((q : K) → f q ≡ g q)
      → Reads k h g cur
  Reads-ext h f g cur r e = record { map = r.map; reads = λ q. r.reads q ∙ e q; size = r.size }

  -- `wget_hashmap_put` and `wget_hashmap_put_noalloc` of a map in order change the map at the key, count
  -- a new key, and return whether the key was there.
  pub put-Puts : (h : Hashmap K V) (a : K) (m : IsMap k h) (v : V) → Puts k h a m v (put h a v)
  unfolding put
  put-Puts h a m v =
      put_with-Puts k h a m v (λ e. record e { value = v })
        (record { hash_kept = λ e. refl; key_kept = λ e s. s; written = λ e. refl })

  pub put_noalloc-Puts :
      (h : Hashmap K V) (a : K) (m : IsMap k h) (v : V) → Puts k h a m v (put_noalloc h a v)
  unfolding put_noalloc
  put_noalloc-Puts h a m v =
      put_with-Puts k h a m v (λ e. record e { key = a; value = v })
        (record { hash_kept = λ e. refl; key_kept = λ e s. k.same_refl a; written = λ e. refl })

  run_refines :
      (ops : List (Op K V)) (h : Hashmap K V) (f : K → Option V) (cur : ℕ)
      → Reads k h f cur
      → IsMap k (run ops h) × ((q : K) → get (run ops h) q ≡ replay same ops f q)
  unfolding run
  run_refines [] h f cur r = (r.map, r.reads)
  run_refines (put_call a v ∷ ops) h f cur r =
      let p = (put-Puts h a r.map v).reads in
      run_refines ops _ _ _
        (Reads-ext _ _ _ _ p (λ q. ap (λ x. if same q a then some v else x) (r.reads q)))
  run_refines (put_noalloc_call a v ∷ ops) h f cur r =
      let p = (put_noalloc-Puts h a r.map v).reads in
      run_refines ops _ _ _
        (Reads-ext _ _ _ _ p (λ q. ap (λ x. if same q a then some v else x) (r.reads q)))
  run_refines (remove_call a ∷ ops) h f cur r =
      let p = (remove-Removes k h a r.map).reads in
      run_refines ops _ _ _
        (Reads-ext _ _ _ _ p (λ q. ap (λ x. if same q a then none else x) (r.reads q)))
  run_refines (clear_call ∷ ops) h f cur r = run_refines ops _ _ _ (clear-Reads h r.map)

  -- A new map with room for a chain, and any sequence of the calls that change it: the map is in
  -- order, and reads like the function on which the same calls were replayed, whatever chains and
  -- resizes there were.
  pub run-create_refines :
      (max : ℕ) (ops : List (Op K V))
      → 0 < max
      → IsMap k (run ops (create max hash same))
        × ((q : K) → get (run ops (create max hash same)) q ≡ replay same ops (λ _. none) q)
  unfolding create
  run-create_refines max ops room =
      run_refines ops _ _ 0
        (table-Reads k _ (λ _. none) refl refl (empty-IsTable max room) (empty_reads max))
