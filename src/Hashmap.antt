-- ===== src/Hashmap.antt =====
-- libwget/hashmap.c: a table of chains. A key is a value, and a chain the list of its entries. The
-- destructors and the copies are left out. `cmp` is `same`, whether it returns 0, and `factor` is
-- `(int)(n * h->factor)`. `cur` counts the entries, so the loops over the chains reach 0 with the last.
pub mod Chain
pub mod Table
pub mod Rehash
pub mod Map
pub mod Update
pub mod Client
mod Tests
use wget.Prelude.{
  ℕ, zero, suc, ◌+◌, ◌-◌, ◌*◌, ◌/◌, ◌%◌, Bool, true, false, ◌&&◌, List, [], ◌∷◌, Option, none, some,
  length, get_or, set, replicate, ltb, ◌==◌, if◌then◌else◌, ℤ, pos, negsuc,
}

-- `ENTRY`
pub record Entry (K V : Type 0) : Type 0 where
  pub key : K
  pub value : V
  pub hash : ℕ

pub record Hashmap (K V : Type 0) : Type 0 where
  pub entry : List (List (Entry K V))
  pub max : ℕ
  pub cur : ℕ
  pub off : ℤ
  pub threshold : ℕ
  pub factor : ℕ → ℕ
  pub hash : K → ℕ
  pub same : K → K → Bool

module _ {K V : Type 0} where
  -- `wget_hashmap_create`; 0.75 is exact
  unfoldable pub create : ℕ → (K → ℕ) → (K → K → Bool) → Hashmap K V
  create max hash same = record {
    entry = replicate max [];
    max = max;
    cur = 0;
    off = negsuc 1;
    threshold = max * 3 / 4;
    factor = λ n. n * 3 / 4;
    hash = hash;
    same = same;
  }

  -- `hash == e->hash && (key == e->key || !h->cmp(key, e->key))`
  abbrev pub is_entry : (K → K → Bool) → K → ℕ → Entry K V → Bool
  is_entry same key hash e = hash == e.hash && same key e.key

  -- the loop along a chain
  unfoldable pub find_in : (K → K → Bool) → K → ℕ → List (Entry K V) → Option (Entry K V)
  find_in same key hash [] = none
  find_in same key hash (e ∷ chain) =
      if is_entry same key hash e then some e else find_in same key hash chain

  -- `hashmap_find_entry`
  unfoldable pub hashmap_find_entry : Hashmap K V → K → ℕ → ℕ → Option (Entry K V)
  unfolding find_in
  hashmap_find_entry h key hash p = find_in h.same key hash (get_or h.entry p [])

  -- the body of the loops of `hashmap_rehash`
  unfoldable pub move_entry : ℕ → Entry K V → List (List (Entry K V)) → List (List (Entry K V))
  move_entry newmax e new_entry =
      let p = e.hash % newmax in set new_entry p (e ∷ get_or new_entry p [])

  -- `if (recalc_hash) entry->hash = h->hash(entry->key)`
  abbrev pub rehashed : Bool → (K → ℕ) → Entry K V → Entry K V
  rehashed recalc hash e = if recalc then record e { hash = hash e.key } else e

  unfoldable pub move_chain :
      ℕ → Bool → (K → ℕ) → List (Entry K V) → List (List (Entry K V)) → List (List (Entry K V))
  unfolding move_entry
  move_chain newmax recalc hash [] new_entry = new_entry
  move_chain newmax recalc hash (e ∷ chain) new_entry =
      move_chain newmax recalc hash chain (move_entry newmax (rehashed recalc hash e) new_entry)

  -- `for (int it = 0; it < h->max && cur; it++)`, over the chains from `it` on
  unfoldable pub move_chains :
      ℕ
      → Bool
      → (K → ℕ)
      → List (List (Entry K V))
      → ℕ
      → List (List (Entry K V))
      → List (List (Entry K V))
  unfolding move_chain
  move_chains newmax recalc hash [] cur new_entry = new_entry
  move_chains newmax recalc hash (chain ∷ chains) cur new_entry =
      let rest =
        move_chains newmax recalc hash chains (cur - length chain)
          (move_chain newmax recalc hash chain new_entry) in
      if cur == 0 then new_entry else rest

  unfoldable pub hashmap_rehash : Hashmap K V → ℕ → Bool → Hashmap K V
  unfolding move_chains
  hashmap_rehash h newmax recalc = if h.cur == 0 then h else record h {
    entry = move_chains newmax recalc h.hash h.entry h.cur (replicate newmax []);
    max = newmax;
    threshold = h.factor newmax;
  }

  -- the resize behind `++h->cur >= h->threshold`
  unfoldable pub grow : Hashmap K V → ℤ → Hashmap K V
  unfolding hashmap_rehash
  grow h (pos zero) = h
  grow h (pos (suc k)) = hashmap_rehash h (h.max + suc k) false
  grow h (negsuc zero) = h
  grow h (negsuc (suc k)) = hashmap_rehash h (h.max * suc (suc k)) false

  -- the chain at `p` and the count, the rest as it was
  abbrev pub with_chain : Hashmap K V → ℕ → List (Entry K V) → ℕ → Hashmap K V
  with_chain h p chain cur = record h { entry = set h.entry p chain; cur = cur }

  unfoldable pub hashmap_new_entry : Hashmap K V → ℕ → K → V → Hashmap K V
  unfolding grow
  hashmap_new_entry h hash key value =
      let p = hash % h.max in
      let e : Entry K V = record { key = key; value = value; hash = hash } in
      let added = with_chain h p (e ∷ get_or h.entry p []) (h.cur + 1) in
      if ltb added.cur h.threshold then added else grow added h.off

  -- a write to the entry that was found
  unfoldable pub write_entry :
      (K → K → Bool) → K → ℕ → (Entry K V → Entry K V) → List (Entry K V) → List (Entry K V)
  write_entry same key hash f [] = []
  write_entry same key hash f (e ∷ chain) =
      if is_entry same key hash e then f e ∷ chain else e ∷ write_entry same key hash f chain

  -- `if ((entry = hashmap_find_entry(…))) … return 1; hashmap_new_entry(…); return 0`
  unfoldable pub put_found :
      (Entry K V → Entry K V) → Hashmap K V → K → V → Option (Entry K V) → Hashmap K V × ℕ
  put_found f h key value none = (hashmap_new_entry h (h.hash key) key value, 0)
  put_found f h key value (some _) =
      let hash = h.hash key in
      let p = hash % h.max in
      (with_chain h p (write_entry h.same key hash f (get_or h.entry p [])) h.cur, 1)

  unfoldable pub put_with : (Entry K V → Entry K V) → Hashmap K V → K → V → Hashmap K V × ℕ
  put_with f h key value =
      let hash = h.hash key in
      put_found f h key value (hashmap_find_entry h key hash (hash % h.max))

  -- `wget_hashmap_put_noalloc`
  unfoldable pub put_noalloc : Hashmap K V → K → V → Hashmap K V × ℕ
  unfolding put_with
  put_noalloc h key value = put_with (λ e. record e { key = key; value = value }) h key value

  -- `wget_hashmap_put`
  unfoldable pub put : Hashmap K V → K → V → Hashmap K V × ℕ
  unfolding put_with
  put h key value = put_with (λ e. record e { value = value }) h key value

  -- `return entry->value`, or NULL
  abbrev pub value_of : Option (Entry K V) → Option V
  value_of none = none
  value_of (some e) = some e.value

  -- `wget_hashmap_get`, `wget_hashmap_get_null`: `none` where there is no entry
  unfoldable pub get : Hashmap K V → K → Option V
  get h key = let hash = h.hash key in value_of (hashmap_find_entry h key hash (hash % h.max))

  abbrev pub is_found : Option (Entry K V) → Bool
  is_found none = false
  is_found (some e) = true

  -- `wget_hashmap_contains` for a map that is not NULL
  unfoldable pub contains : Hashmap K V → K → Bool
  contains h key = let hash = h.hash key in is_found (hashmap_find_entry h key hash (hash % h.max))

  -- the chain without the entry that was found
  unfoldable pub unlink : (K → K → Bool) → K → ℕ → List (Entry K V) → List (Entry K V)
  unlink same key hash [] = []
  unlink same key hash (e ∷ chain) =
      if is_entry same key hash e then chain else e ∷ unlink same key hash chain

  -- `hashmap_remove_entry`, where the loop found an entry and where it did not
  unfoldable pub remove_found : Hashmap K V → K → Option (Entry K V) → Hashmap K V × ℕ
  remove_found h key none = (h, 0)
  remove_found h key (some _) =
      let hash = h.hash key in
      let p = hash % h.max in
      (with_chain h p (unlink h.same key hash (get_or h.entry p [])) (h.cur - 1), 1)

  -- `hashmap_remove_entry`
  unfoldable pub remove : Hashmap K V → K → Hashmap K V × ℕ
  remove h key =
      let hash = h.hash key in remove_found h key (hashmap_find_entry h key hash (hash % h.max))

  -- the loop of `wget_hashmap_clear`
  unfoldable pub clear_chains : List (List (Entry K V)) → ℕ → List (List (Entry K V))
  clear_chains [] cur = []
  clear_chains (chain ∷ chains) cur =
      let rest = clear_chains chains (cur - length chain) in
      if cur == 0 then chain ∷ chains else [] ∷ rest

  -- `wget_hashmap_clear`
  unfoldable pub clear : Hashmap K V → Hashmap K V
  unfolding clear_chains
  clear h = record h { entry = clear_chains h.entry h.cur; cur = 0 }

  -- `wget_hashmap_sethashfunc`
  unfoldable pub sethashfunc : Hashmap K V → (K → ℕ) → Hashmap K V
  unfolding hashmap_rehash
  sethashfunc h hash = hashmap_rehash (record h { hash = hash }) h.max true

  -- `wget_hashmap_setloadfactor`
  unfoldable pub setloadfactor : Hashmap K V → (ℕ → ℕ) → Hashmap K V
  setloadfactor h factor = record h { factor = factor; threshold = factor h.max }

  -- `wget_hashmap_set_growth_policy`
  abbrev pub set_growth_policy : Hashmap K V → ℤ → Hashmap K V
  set_growth_policy h off = record h { off = off }

  -- `wget_hashmap_setcmpfunc`
  abbrev pub setcmpfunc : Hashmap K V → (K → K → Bool) → Hashmap K V
  setcmpfunc h cmp = record h { same = cmp }
