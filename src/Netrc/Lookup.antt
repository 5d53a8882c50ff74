-- ===== src/Netrc/Lookup.antt =====
-- What is found after entries were added.
use wget.Hashmap.{get}
use wget.Prelude.{
  sym, ◌≡◌, refl, ap, ◌∙◌, List, [], ◌∷◌, map, Option, none, some, Bytes, streq, if◌then◌else◌,
  arith,
}
use wget.Hashmap.Chain.{IsKey}
use wget.Hashmap.Client.{Op, put_noalloc_call, run, replay, run-create_refines}
use wget.Stringmap.Client.{hash_string-IsKey}
use wget.Netrc.{Netrc, NetrcDb, hash_netrc, compare_netrc, netrc_db_init, netrc_db_add, netrc_get}

abbrev pub add_all : NetrcDb → List Netrc → NetrcDb
add_all db [] = db
add_all db (n ∷ ns) = add_all (netrc_db_add db n) ns

-- the last entry for the host, or what was found before
abbrev pub last_for : Bytes → Option Netrc → List Netrc → Option Netrc
last_for host found [] = found
last_for host found (n ∷ ns) = last_for host (if streq host n.host then some n else found) ns

abbrev add_call : Netrc → Op Bytes Netrc
add_call n = put_noalloc_call n.host n

netrc-IsKey : IsKey hash_netrc compare_netrc
unfolding hash_netrc compare_netrc
netrc-IsKey = hash_string-IsKey

run-add_all : (db : NetrcDb) (ns : List Netrc) → run (map add_call ns) db ≡ add_all db ns
unfolding run netrc_db_add
run-add_all db [] = refl
run-add_all db (n ∷ ns) = run-add_all (netrc_db_add db n) ns

replay-last_for :
    (host : Bytes) (ns : List Netrc) (f : Bytes → Option Netrc)
    → replay compare_netrc (map add_call ns) f host ≡ last_for host (f host) ns
unfolding compare_netrc
replay-last_for host [] f = refl
replay-last_for host (n ∷ ns) f =
    replay-last_for host ns (λ q. if compare_netrc q n.host then some n else f q)

-- After any entries were added to a new database, a host is found with the last one that was added for it.
pub netrc_get-last :
    (ns : List Netrc) (host : Bytes)
    → netrc_get (some (add_all netrc_db_init ns)) host ≡ last_for host none ns
unfolding netrc_get netrc_db_init
netrc_get-last ns host =
    ap (λ h. get h host) (sym (run-add_all netrc_db_init ns))
    ∙ (run-create_refines netrc-IsKey 16 (map add_call ns) (omega arith)).1 host
    ∙ replay-last_for host ns (λ q. none)
