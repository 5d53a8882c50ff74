-- ===== src/Hashmap/Rehash.antt =====
-- `hashmap_rehash` moves every entry to the chain of its hash, and the map reads as before.
use native.Mathlib.Nat.{mod-lt}
use wget.Prelude.{
  ℕ, suc, ◌+◌, ◌-◌, ◌%◌, ◌<◌, ◌≤◌, ◌≡◌, refl, ap, ◌∙◌, sym, Bool, false, Bool-cases, inl, inr, List,
  [], ◌∷◌, ◌++◌, Option, none, some, length, length-append, length-set, length-replicate, get_or,
  replicate, ◌==◌, if◌then◌else◌, arith,
}
use wget.Hashmap.{Entry, move_entry, move_chain, move_chains}
use wget.Hashmap.Chain.{or_else-none, IsKey, is, look, count, look-eq-none, or_else}
use wget.Hashmap.Table.{
  get_or-set, get_or-set_other, get_or-replicate, flat, flat-replicate, length-flat_set, Placed,
  Placed-replicate, Placed-get_or, Placed-set, count-flat, look-flat,
}

module _ {K V : Type 0} {hash : K → ℕ} {same : K → K → Bool} (k : IsKey hash same) where
  abbrev pub look_at : ℕ → List (List (Entry K V)) → K → Option V
  look_at n cs q = look k q (get_or cs (hash q % n) [])

  abbrev pub count_at : ℕ → List (List (Entry K V)) → K → ℕ
  count_at n cs q = count k q (get_or cs (hash q % n) [])

  -- What the map relies on: the chains are there, the entries stand where their hashes say, no key
  -- is held twice, and `cur` is the number of entries.
  pub record IsTable (max cur : ℕ) (cs : List (List (Entry K V))) : Type 0 where
    pub size : length cs ≡ max
    pub room : 0 < max
    pub placed : Placed max 0 cs
    pub once : (q : K) → count_at max cs q ≤ 1
    pub counted : length (flat cs) ≡ cur

  module _ (n : ℕ) (room : 0 < n) (e : Entry K V) (cs : List (List (Entry K V)))
      (size : length cs ≡ n) where
    inside : e.hash % n < length cs
    inside = omega (arith, mod-lt e.hash room)

    length-move_entry : length (move_entry n e cs) ≡ n
    unfolding move_entry
    length-move_entry = length-set cs (e.hash % n) (e ∷ get_or cs (e.hash % n) []) ∙ size

    Placed-move_entry : Placed n 0 cs → Placed n 0 (move_entry n e cs)
    unfolding move_entry
    Placed-move_entry p =
        Placed-set n 0 (e.hash % n) (e.hash % n) _ cs p (omega arith)
          (refl, Placed-get_or n 0 (e.hash % n) (e.hash % n) cs p (omega arith))

    chain-move_entry :
        (q : K)
        → get_or (move_entry n e cs) (hash q % n) [] ≡ (
            if hash q % n == e.hash % n
            then e ∷ get_or cs (hash q % n) []
            else get_or cs (hash q % n) [])
    unfolding move_entry
    chain-move_entry q = elim (Bool-cases (hash q % n == e.hash % n)) [
      | inl s ↦
          let same : hash q % n ≡ e.hash % n = ground arith in
          rw s (rw same (get_or-set cs (e.hash % n) _ [] inside))
      | inr s ↦ rw s (get_or-set_other cs (e.hash % n) (hash q % n) _ [] (λ t. ground arith))
    ]

    other_chain : (q : K) → (hash q % n == e.hash % n) ≡ false → (hash q == e.hash) ≡ false
    other_chain q h = elim (Bool-cases (hash q == e.hash)) [
      | inl s ↦ let t : hash q ≡ e.hash = ground arith in absurd (ground (arith, ap (λ x. x % n) t))
      | inr s ↦ s
    ]

    count-move_entry :
        (q : K)
        → count_at n (move_entry n e cs) q
          ≡ (if is k q e then suc (count_at n cs q) else count_at n cs q)
    unfolding count
    count-move_entry q = elim (Bool-cases (hash q % n == e.hash % n)) [
      | inl s ↦ let c = chain-move_entry q in let d = rw s at c in rw d refl
      | inr s ↦ let c = chain-move_entry q in let d = rw s at c in rw d (rw (other_chain q s) refl)
    ]

    look-move_entry :
        (q : K)
        → look_at n (move_entry n e cs) q ≡ (if is k q e then some e.value else look_at n cs q)
    unfolding look
    look-move_entry q = elim (Bool-cases (hash q % n == e.hash % n)) [
      | inl s ↦ let c = chain-move_entry q in let d = rw s at c in rw d refl
      | inr s ↦ let c = chain-move_entry q in let d = rw s at c in rw d (rw (other_chain q s) refl)
    ]

    length-flat_move : length (flat (move_entry n e cs)) ≡ suc (length (flat cs))
    unfolding move_entry
    length-flat_move =
        omega (arith, length-flat_set cs (e.hash % n) (e ∷ get_or cs (e.hash % n) []) inside)

  module _ (n : ℕ) (room : 0 < n) where
    -- what the loops move, entry by entry
    length-move_chain :
        (c : List (Entry K V)) (cs : List (List (Entry K V)))
        → length cs ≡ n
        → length (move_chain n false hash c cs) ≡ n
    unfolding move_chain
    length-move_chain [] cs size = size
    length-move_chain (e ∷ c) cs size =
        length-move_chain c (move_entry n e cs) (length-move_entry n room e cs size)

    Placed-move_chain :
        (c : List (Entry K V)) (cs : List (List (Entry K V)))
        → length cs ≡ n
        → Placed n 0 cs
        → Placed n 0 (move_chain n false hash c cs)
    unfolding move_chain
    Placed-move_chain [] cs size p = p
    Placed-move_chain (e ∷ c) cs size p =
        Placed-move_chain c (move_entry n e cs) (length-move_entry n room e cs size)
          (Placed-move_entry n room e cs size p)

    length-flat_move_chain :
        (c : List (Entry K V)) (cs : List (List (Entry K V)))
        → length cs ≡ n
        → length (flat (move_chain n false hash c cs)) ≡ length c + length (flat cs)
    unfolding move_chain
    length-flat_move_chain [] cs size = omega arith
    length-flat_move_chain (e ∷ c) cs size = omega (
      arith,
      length-flat_move_chain c (move_entry n e cs) (length-move_entry n room e cs size),
      length-flat_move n room e cs size,
    )

    count-move_chain :
        (q : K) (c : List (Entry K V)) (cs : List (List (Entry K V)))
        → length cs ≡ n
        → count_at n (move_chain n false hash c cs) q ≡ count k q c + count_at n cs q
    unfolding move_chain count
    count-move_chain q [] cs size = omega arith
    count-move_chain q (e ∷ c) cs size = ground (
      arith,
      count-move_chain q c (move_entry n e cs) (length-move_entry n room e cs size),
      count-move_entry n room e cs size q,
    )

    look-move_chain :
        (q : K) (c : List (Entry K V)) (cs : List (List (Entry K V)))
        → length cs ≡ n
        → count k q c + count_at n cs q ≤ 1
        → look_at n (move_chain n false hash c cs) q ≡ or_else (look k q c) (look_at n cs q)
    unfolding move_chain look count
    look-move_chain q [] cs size h = refl
    look-move_chain q (e ∷ c) cs size h = ground (
      arith,
      look-move_chain q c (move_entry n e cs) (length-move_entry n room e cs size),
      count-move_entry n room e cs size q,
      look-move_entry n room e cs size q,
      look-eq-none k q c,
      look-eq-none k q (get_or cs (hash q % n) []),
    )

    move_chain-append :
        (a b : List (Entry K V)) (cs : List (List (Entry K V)))
        → move_chain n false hash (a ++ b) cs
          ≡ move_chain n false hash b (move_chain n false hash a cs)
    unfolding move_chain
    move_chain-append [] b cs = refl
    move_chain-append (e ∷ a) b cs = move_chain-append a b (move_entry n e cs)

    move_chain-empty :
        (c : List (Entry K V)) (cs : List (List (Entry K V)))
        → length c ≡ 0
        → move_chain n false hash c cs ≡ cs
    unfolding move_chain
    move_chain-empty [] cs h = refl
    move_chain-empty (e ∷ c) cs h = absurd (omega arith)

    -- Stopping when `cur` is used up leaves nothing behind.
    move_chains-move_chain :
        (cs new_entry : List (List (Entry K V))) (cur : ℕ)
        → length (flat cs) ≡ cur
        → move_chains n false hash cs cur new_entry ≡ move_chain n false hash (flat cs) new_entry
    unfolding move_chains
    move_chains-move_chain [] new_entry cur h = unfold move_chain in refl
    move_chains-move_chain (c ∷ cs) new_entry cur h = elim (Bool-cases (cur == 0)) [
      | inl e ↦
          let none_left : length (c ++ flat cs) ≡ 0 = ground arith in
          rw e (sym (move_chain-empty (c ++ flat cs) new_entry none_left))
      | inr e ↦ rw e (
          move_chains-move_chain cs (move_chain n false hash c new_entry) (cur - length c)
            (omega (arith, length-append c (flat cs)))
          ∙ sym (move_chain-append c (flat cs) new_entry))
    ]

  -- A table of `n` chains with the same entries reads the same.
  pub record SameTable (n max cur : ℕ) (new cs : List (List (Entry K V))) : Type 0 where
    pub table : IsTable n cur new
    pub look_same : (q : K) → look_at n new q ≡ look_at max cs q

  pub move_chains-SameTable :
      (n max cur : ℕ) (cs : List (List (Entry K V)))
      → 0 < n
      → IsTable max cur cs
      → SameTable n max cur (move_chains n false hash cs cur (replicate n [])) cs
  move_chains-SameTable n max cur cs room t =
      let empty : List (List (Entry K V)) = replicate n [] in
      let size : length empty ≡ n = length-replicate n [] in
      let nothing : length (flat empty) ≡ 0 = ap length (flat-replicate n) in
      let counted : (q : K) → count k q (flat cs) ≡ count_at max cs q =
        λ q. count-flat k max 0 (hash q % max) q cs t.placed (omega arith) in
      let counts_none : (q : K) → count_at n empty q ≡ 0 = λ q.
        rw (get_or-replicate {A = List (Entry K V)} n (hash q % n) []) (unfold count in refl) in
      let looks_none : (q : K) → look_at n empty q ≡ none =
        λ q. look-eq-none k q (get_or empty (hash q % n) []) (counts_none q) in
      let once : (q : K) → count k q (flat cs) + count_at n empty q ≤ 1 =
        λ q. omega (arith, counted q, counts_none q, t.once q) in
      rw (move_chains-move_chain n room cs empty cur t.counted) (record {
        table = record {
          size = length-move_chain n room (flat cs) empty size;
          room = room;
          placed = Placed-move_chain n room (flat cs) empty size (Placed-replicate K V n 0 n);
          once = λ q. omega (arith, count-move_chain n room q (flat cs) empty size, once q);
          counted =
              omega (arith, length-flat_move_chain n room (flat cs) empty size, nothing, t.counted);
        };
        look_same = λ q.
            look-move_chain n room q (flat cs) empty size (once q)
            ∙ ap (or_else (look k q (flat cs))) (looks_none q)
            ∙ or_else-none (look k q (flat cs))
            ∙ look-flat k max 0 (hash q % max) q cs t.placed (omega arith);
      })
