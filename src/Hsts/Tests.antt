-- ===== src/Hsts/Tests.antt =====
-- Runs of the HSTS database, and the theorems at concrete hosts.
use wget.Prelude.{
  pos, ◌≡◌, ◌↔◌, ◌⊎◌, refl, true, false, ◌∷◌, ◌++◌, codes, streq, arith, ◌==◌, if◌then◌else◌,
}
use wget.Hashmap
use wget.Hsts.{
  Db, hsts_db_init, hsts_db_add, hsts_db_add_entry, add_or_update, new_hsts, hsts_db_host_match,
  hash_hsts, compare_hsts, parent_match,
}
use wget.Hsts.Match.{Current, Covered, hsts_db_host_match_iff}
use wget.Hsts.Protect.{hsts_db_add-subdomain}
use wget.Hsts.Additions.{Added, hsts_db_add-Added}
use wget.Hsts.Update.{IsDb, hsts_db_init-IsDb}

abbrev db : Db
db = hsts_db_add hsts_db_init 1000 (codes "a.org") 0 (pos 60) true

db-IsDb : IsDb db
db-IsDb =
    (hsts_db_add-Added hsts_db_init 1000 (codes "a.org") 0 (pos 60) true hsts_db_init-IsDb).database

matched :
    (hsts_db_host_match db 1060 (codes "b.a.org") 80 ≡ true)
    × (hsts_db_host_match db 1061 (codes "a.org") 443 ≡ false)
    × (hsts_db_host_match db 1000 (codes "ba.org") 443 ≡ false)
unfolding hsts_db_host_match parent_match hsts_db_add hsts_db_add_entry add_or_update new_hsts
    hsts_db_init hash_hsts compare_hsts streq Hashmap.get Hashmap.put_noalloc Hashmap.create
    Hashmap.hashmap_find_entry Hashmap.hashmap_new_entry Hashmap.put_found
matched = (refl, refl, refl)

hsts_db_host_match_iff_example :
    (hsts_db_host_match db 1060 (codes "b.a.org") 80 ≡ true)
    ↔ (Current db 1060 443 (codes "b.a.org") ⊎ Covered db 1060 443 (codes "b.a.org"))
hsts_db_host_match_iff_example =
    hsts_db_host_match_iff db 1060 80 443 (codes "b.a.org") (λ h. refl) (λ h. absurd (h refl))

hsts_db_add-Added_example :
    Added db 1030
      (record { host = codes "a.org"; port = if 0 == 0 then 443 else 0 })
      (pos 100)
      false
      (hsts_db_add db 1030 (codes "a.org") 0 (pos 100) false)
hsts_db_add-Added_example = hsts_db_add-Added db 1030 (codes "a.org") 0 (pos 100) false db-IsDb

hsts_db_add-subdomain_example :
    hsts_db_host_match
      (hsts_db_add db 1030 (codes "a.org") 443 (pos 100) true)
      1130
      (codes "b" ++ (b'.' ∷ codes "a.org"))
      80
    ≡ true
hsts_db_add-subdomain_example =
    hsts_db_add-subdomain db 1030 (codes "a.org") 443 (pos 100) true (codes "b") 1130 80 db-IsDb
      refl (omega arith) (omega arith) refl
