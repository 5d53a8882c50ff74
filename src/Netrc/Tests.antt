-- ===== src/Netrc/Tests.antt =====
-- A run of the database.
use wget.Prelude.{◌≡◌, [], ◌∷◌, some, none, false, codes, Bytes, streq}
use wget.Netrc.{Netrc, netrc_db_init, netrc_get}
use wget.Netrc.Lookup.{add_all, netrc_get-last}

abbrev entry : Bytes → Bytes → Netrc
entry host login = record {
  host = host;
  login = some login;
  password = none;
  port = 0;
  force = false;
}

-- the second entry of a host counts
second_counts :
    netrc_get
      (some (
        add_all netrc_db_init (entry (codes "h") (codes "a") ∷ entry (codes "h") (codes "b") ∷ [])))
      (codes "h")
    ≡ some (entry (codes "h") (codes "b"))
unfolding streq
second_counts =
    netrc_get-last (entry (codes "h") (codes "a") ∷ entry (codes "h") (codes "b") ∷ []) (codes "h")
