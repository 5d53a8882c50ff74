-- ===== src/Hashmap/Chain.antt =====
-- One chain: what `get` reads in it, and how often it holds a key.
use wget.Prelude.{
  ℕ, suc, ◌+◌, ◌≤◌, ◌≡◌, refl, Bool, true, false, List, [], ◌∷◌, ◌++◌, Option, none, some, length,
  if◌then◌else◌, arith,
}
use wget.Hashmap.{value_of, Entry, is_entry, find_in, write_entry, unlink}

-- What the documentation asks of the two functions: equal keys have equal hashes, and to be equal is
-- an equivalence.
pub record IsKey {K : Type 0} (hash : K → ℕ) (same : K → K → Bool) : Type 0 where
  pub same_refl : (a : K) → same a a ≡ true
  pub same_symm : (a b : K) → same a b ≡ same b a
  pub same_trans : (a b c : K) → same a b ≡ true → same b c ≡ true → same a c ≡ true
  pub hash-same : (a b : K) → same a b ≡ true → hash a ≡ hash b

abbrev pub or_else : {V : Type 0} → Option V → Option V → Option V
or_else none b = b
or_else (some v) b = some v

pub or_else-none : {V : Type 0} (a : Option V) → or_else a none ≡ a
or_else-none none = refl
or_else-none (some v) = refl

module _ {K V : Type 0} {hash : K → ℕ} {same : K → K → Bool} (k : IsKey hash same) where
  -- `q` is the key of the entry
  abbrev pub is : K → Entry K V → Bool
  is q e = is_entry same q (hash q) e

  unfoldable pub look : K → List (Entry K V) → Option V
  look q [] = none
  look q (e ∷ c) = if is q e then some e.value else look q c

  unfoldable pub count : K → List (Entry K V) → ℕ
  count q [] = 0
  count q (e ∷ c) = if is q e then suc (count q c) else count q c

  is-same : (q a : K) (e : Entry K V) → same q a ≡ true → is q e ≡ is a e
  is-same q a e h =
      ground
        (arith, k.hash-same q a, k.same_trans q a e.key, k.same_trans a q e.key, k.same_symm q a)

  is-ne : (q a : K) (e : Entry K V) → same q a ≡ false → is a e ≡ true → is q e ≡ false
  is-ne q a e h i = ground (arith, k.same_trans q e.key a, k.same_symm a e.key)

  pub look-find_in :
      (q : K) (c : List (Entry K V)) → look q c ≡ value_of (find_in same q (hash q) c)
  unfolding look find_in
  look-find_in q [] = refl
  look-find_in q (e ∷ c) = ground (arith, look-find_in q c)

  pub look-eq-none : (q : K) (c : List (Entry K V)) → count q c ≡ 0 → look q c ≡ none
  unfolding look count
  look-eq-none q [] h = refl
  look-eq-none q (e ∷ c) h = ground (arith, look-eq-none q c)

  pub count-eq-zero :
      (a q : K) (c : List (Entry K V))
      → find_in same a (hash a) c ≡ none
      → same q a ≡ true
      → count q c ≡ 0
  unfolding find_in count
  count-eq-zero a q [] h s = refl
  count-eq-zero a q (e ∷ c) h s = ground (arith, count-eq-zero a q c, is-same q a e)

  pub look-append :
      (q : K) (a b : List (Entry K V)) → look q (a ++ b) ≡ or_else (look q a) (look q b)
  unfolding look
  look-append q [] b = refl
  look-append q (e ∷ a) b = ground (arith, look-append q a b)

  pub count-append : (q : K) (a b : List (Entry K V)) → count q (a ++ b) ≡ count q a + count q b
  unfolding count
  count-append q [] b = omega arith
  count-append q (e ∷ a) b = ground (arith, count-append q a b)

  pub count-new :
      (q a : K) (v : V) (c : List (Entry K V))
      → count q (record { key = a; value = v; hash = hash a } ∷ c)
        ≡ (if same q a then suc (count q c) else count q c)
  unfolding count
  count-new q a v c = ground (arith, k.hash-same q a)

  pub look-new :
      (q a : K) (v : V) (c : List (Entry K V))
      → look q (record { key = a; value = v; hash = hash a } ∷ c)
        ≡ (if same q a then some v else look q c)
  unfolding look
  look-new q a v c = ground (arith, k.hash-same q a)

  -- A write to an entry of `a` keeps its hash and its key, up to equality, and sets its value.
  pub record Writes (a : K) (v : V) (f : Entry K V → Entry K V) : Type 0 where
    pub hash_kept : (e : Entry K V) → (f e).hash ≡ e.hash
    pub key_kept : (e : Entry K V) → same a e.key ≡ true → same a (f e).key ≡ true
    pub written : (e : Entry K V) → (f e).value ≡ v

  module _ (a q : K) where
    is-write :
        (v : V) (f : Entry K V → Entry K V) (e : Entry K V)
        → Writes a v f
        → is a e ≡ true
        → is q (f e) ≡ is q e
    is-write v f e w h = ground (
      arith,
      w.hash_kept e,
      w.key_kept e,
      k.same_trans q (f e).key a,
      k.same_trans q e.key a,
      k.same_trans q a e.key,
      k.same_trans q a (f e).key,
      k.same_symm a e.key,
      k.same_symm a (f e).key,
    )

    pub look-write_entry :
        (v : V) (f : Entry K V → Entry K V) (c : List (Entry K V)) (old : Entry K V)
        → Writes a v f
        → find_in same a (hash a) c ≡ some old
        → look q (write_entry same a (hash a) f c) ≡ (if same q a then some v else look q c)
    unfolding look write_entry find_in
    look-write_entry v f [] old w h = cc
    look-write_entry v f (e ∷ c) old w h = ground (
      arith,
      look-write_entry v f c old w,
      is-write v f e w,
      w.written e,
      is-same q a e,
      is-ne q a e,
    )

    pub count-write_entry :
        (v : V) (f : Entry K V → Entry K V) (c : List (Entry K V))
        → Writes a v f
        → count q (write_entry same a (hash a) f c) ≡ count q c
    unfolding count write_entry
    count-write_entry v f [] w = refl
    count-write_entry v f (e ∷ c) w = ground (arith, count-write_entry v f c w, is-write v f e w)

    pub look-unlink :
        (c : List (Entry K V))
        → count q c ≤ 1
        → look q (unlink same a (hash a) c) ≡ (if same q a then none else look q c)
    unfolding look unlink count
    look-unlink [] h = ground arith
    look-unlink (e ∷ c) h =
        ground (arith, look-unlink c, look-eq-none q c, is-same q a e, is-ne q a e)

    pub count-unlink : (c : List (Entry K V)) → count q (unlink same a (hash a) c) ≤ count q c
    unfolding count unlink
    count-unlink [] = omega arith
    count-unlink (e ∷ c) = ground (arith, count-unlink c)

  pub length-write_entry :
      (a : K) (f : Entry K V → Entry K V) (c : List (Entry K V))
      → length (write_entry same a (hash a) f c) ≡ length c
  unfolding write_entry
  length-write_entry a f [] = refl
  length-write_entry a f (e ∷ c) = ground (arith, length-write_entry a f c)

  pub length-unlink :
      (a : K) (c : List (Entry K V)) (old : Entry K V)
      → find_in same a (hash a) c ≡ some old
      → suc (length (unlink same a (hash a) c)) ≡ length c
  unfolding unlink find_in
  length-unlink a [] old h = cc
  length-unlink a (e ∷ c) old h = ground (arith, length-unlink a c old)
