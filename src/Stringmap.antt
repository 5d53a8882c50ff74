-- ===== src/Stringmap.antt =====
-- libwget/stringmap.c: the hash map with strings as keys. `lower` stands for the C library's
-- `tolower`, `same` for `!strcasecmp`.
pub mod Client
mod Tests
use wget.Prelude.{ℕ, ◌+◌, ◌*◌, ◌%◌, Bool, [], ◌∷◌, ◌==◌, Bytes, streq}
use wget.Hashmap
use wget.Hashmap.{Hashmap}

-- the loop of `hash_string` from a given hash on, an unsigned int of 32 bits
abbrev pub hash_from : ℕ → Bytes → ℕ
hash_from hash [] = hash
hash_from hash (c ∷ key) = hash_from ((hash * 101 + c) % 4294967296) key

unfoldable pub hash_string : Bytes → ℕ
hash_string key = hash_from 0 key

abbrev pub hash_nocase_from : (ℕ → ℕ) → ℕ → Bytes → ℕ
hash_nocase_from lower hash [] = hash
hash_nocase_from lower hash (c ∷ key) =
    hash_nocase_from lower ((hash * 101 + lower c) % 4294967296) key

unfoldable pub hash_string_nocase : (ℕ → ℕ) → Bytes → ℕ
hash_string_nocase lower key = hash_nocase_from lower 0 key

unfoldable pub stringmap_create : {V : Type 0} → ℕ → Hashmap Bytes V
stringmap_create max = Hashmap.create max hash_string streq

unfoldable pub stringmap_create_nocase :
    {V : Type 0} → (ℕ → ℕ) → (Bytes → Bytes → Bool) → ℕ → Hashmap Bytes V
stringmap_create_nocase lower same max = Hashmap.create max (hash_string_nocase lower) same
