-- ===== src/Stringmap/Tests.antt =====
-- Runs of the string maps, and the theorem at concrete calls.
use wget.Prelude.{◌≡◌, refl, List, [], ◌∷◌, none, ℕ, Bytes, codes, ascii, arith}
use wget.Hashmap.{get}
use wget.Hashmap.Client.{Op, put_call, remove_call, run, replay}
use wget.Stringmap.{hash_string, stringmap_create_nocase}
use wget.Stringmap.Client.{run-stringmap_create_nocase}

-- the hash wraps at 32 bits
hash_wraps : hash_string (codes "Set-Cookie") ≡ 1231968499
unfolding hash_string
hash_wraps = refl

abbrev calls : List (Op Bytes ℕ)
calls =
    put_call (codes "Realm") 1
    ∷ put_call (codes "nonce") 2
    ∷ put_call (codes "REALM") 3
    ∷ remove_call (codes "Nonce")
    ∷ []

run-stringmap_create_nocase_example :
    get (run calls (stringmap_create_nocase ascii.tolower ascii.strcaseeq 1)) (codes "realm")
    ≡ replay ascii.strcaseeq calls (λ _. none) (codes "realm")
run-stringmap_create_nocase_example =
    run-stringmap_create_nocase ascii.tolower ascii.strcaseeq 1 calls (codes "realm") (λ s t. refl)
      (omega arith)
