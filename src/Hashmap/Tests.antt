-- ===== src/Hashmap/Tests.antt =====
-- Runs of the hash map, and the theorems at concrete maps.
use wget.Prelude.{ℕ, ◌≡◌, ◌%◌, refl, Bool, List, [], ◌∷◌, none, some, ◌==◌, arith}
use wget.Hashmap.{
  Hashmap, create, put, get, remove, hashmap_rehash, hashmap_find_entry, remove_found, put_found,
  put_noalloc, hashmap_new_entry, write_entry, unlink,
}
use wget.Hashmap.Chain.{IsKey}
use wget.Hashmap.Map.{IsMap}
use wget.Hashmap.Client.{
  Op, put_call, put_noalloc_call, remove_call, run, replay, run-create_refines,
}

-- keys that collide
abbrev hash_three : ℕ → ℕ
hash_three n = n % 3

abbrev equal : ℕ → ℕ → Bool
equal a b = a == b

key : IsKey hash_three equal
key = record {
  same_refl = λ a. ground arith;
  same_symm = λ a b. ground arith;
  same_trans = λ a b c h i. ground arith;
  hash-same = λ a b h. let e : a ≡ b = ground arith in rw e refl;
}

abbrev calls : List (Op ℕ ℕ)
calls = put_call 1 10 ∷ put_call 4 40 ∷ put_noalloc_call 7 70 ∷ put_call 4 41 ∷ remove_call 1 ∷ []

abbrev map : Hashmap ℕ ℕ
map = run calls (create 2 hash_three equal)

-- The table grew twice, and the chain of the three keys was moved with it.
map_grown : (map.max ≡ 8) × (map.cur ≡ 2) × (get map 4 ≡ some 41) × (get map 1 ≡ none)
unfolding run create get hashmap_find_entry remove remove_found put put_found put_noalloc
    hashmap_new_entry write_entry unlink hashmap_rehash
map_grown = (refl, refl, refl, refl)

run-create_refines_example :
    IsMap key (run calls (create 2 hash_three equal))
    × ((q : ℕ) → get (run calls (create 2 hash_three equal)) q ≡ replay equal calls (λ _. none) q)
run-create_refines_example = run-create_refines key 2 calls (omega arith)
