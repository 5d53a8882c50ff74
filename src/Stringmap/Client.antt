-- ===== src/Stringmap/Client.antt =====
-- The functions of the string maps as those of the hash map, and sequences of calls.
use wget.Prelude.{
  ℕ, ◌+◌, ◌*◌, ◌%◌, ◌<◌, ◌≡◌, refl, ap, ◌∙◌, sym, Bool, true, [], ◌∷◌, none, Bytes, streq,
  streq_iff, map, arith, List, ap,
}
use wget.Hashmap.{get}
use wget.Hashmap.Chain.{IsKey}
use wget.Hashmap.Client.{Op, run, replay, run-create_refines}
use wget.Stringmap.{
  hash_from, hash_string, hash_nocase_from, hash_string_nocase, stringmap_create,
  stringmap_create_nocase,
}

-- `!strcmp` and `!strcasecmp` as equalities of what a function makes of the strings
module _ (f : Bytes → Bytes) (same : Bytes → Bytes → Bool)
    (law : (s t : Bytes) → same s t ≡ streq (f s) (f t)) where
  same_intro : (s t : Bytes) → f s ≡ f t → same s t ≡ true
  same_intro s t e = law s t ∙ (streq_iff (f s) (f t)).1 e

  same_elim : (s t : Bytes) → same s t ≡ true → f s ≡ f t
  same_elim s t h = (streq_iff (f s) (f t)).0 (sym (law s t) ∙ h)

  image-IsKey : (hash : Bytes → ℕ) → ((s t : Bytes) → f s ≡ f t → hash s ≡ hash t) → IsKey hash same
  image-IsKey hash respects = record {
    same_refl = λ s. same_intro s s refl;
    same_symm = λ s t. ground (arith, same_intro t s, same_elim s t, same_intro s t, same_elim t s);
    same_trans = λ s t u h i. same_intro s u (same_elim s t h ∙ same_elim t u i);
    hash-same = λ s t h. respects s t (same_elim s t h);
  }

pub hash_string-IsKey : IsKey hash_string streq
hash_string-IsKey = image-IsKey (λ s. s) streq (λ s t. refl) hash_string (λ s t e. ap hash_string e)

module _ (lower : ℕ → ℕ) where
  -- The hash without regard to case is the other one of the string in lower case.
  hash_nocase_from-map :
      (hash : ℕ) (s : Bytes) → hash_nocase_from lower hash s ≡ hash_from hash (map lower s)
  hash_nocase_from-map hash [] = refl
  hash_nocase_from-map hash (c ∷ s) = hash_nocase_from-map ((hash * 101 + lower c) % 4294967296) s

  pub hash_string_nocase-map : (s : Bytes) → hash_string_nocase lower s ≡ hash_string (map lower s)
  unfolding hash_string_nocase hash_string
  hash_string_nocase-map s = hash_nocase_from-map 0 s

  pub hash_string_nocase-IsKey :
      (same : Bytes → Bytes → Bool)
      → ((s t : Bytes) → same s t ≡ streq (map lower s) (map lower t))
      → IsKey (hash_string_nocase lower) same
  hash_string_nocase-IsKey same law =
      image-IsKey (map lower) same law (hash_string_nocase lower)
        (λ s t e. hash_string_nocase-map s ∙ ap hash_string e ∙ sym (hash_string_nocase-map t))

-- A string map with room for a chain, after any calls that change it, reads like the function on
-- strings on which the same calls were replayed.
pub run-stringmap_create :
    {V : Type 0} (max : ℕ) (ops : List (Op Bytes V)) (q : Bytes)
    → 0 < max
    → get (run ops (stringmap_create max)) q ≡ replay streq ops (λ _. none) q
unfolding stringmap_create
run-stringmap_create max ops q room = (run-create_refines hash_string-IsKey max ops room).1 q

-- A string map without regard to case, after any calls that change it, reads a key as the function does
-- on which the same calls were replayed, if `strcasecmp` compares the strings in lower case.
pub run-stringmap_create_nocase :
    {V : Type 0} (lower : ℕ → ℕ) (same : Bytes → Bytes → Bool) (max : ℕ) (ops : List (Op Bytes V))
    (q : Bytes)
    → ((s t : Bytes) → same s t ≡ streq (map lower s) (map lower t))
    → 0 < max
    → get (run ops (stringmap_create_nocase lower same max)) q ≡ replay same ops (λ _. none) q
unfolding stringmap_create_nocase
run-stringmap_create_nocase lower same max ops q law room =
    (run-create_refines (hash_string_nocase-IsKey lower same law) max ops room).1 q
