-- ===== src/Netrc.antt =====
-- libwget/netrc.c: the logins of hosts, on the hash map. An entry is the value of the map, its host the key. The file is
-- left out, and the memory.
pub mod Lookup
mod Tests
use wget.Prelude.{ℕ, Bool, Option, none, some, Bytes, streq}
use wget.Hashmap
use wget.Hashmap.{Hashmap, put_noalloc, get}
use wget.Stringmap.{hash_string}

-- `wget_netrc_t`
pub record Netrc : Type 0 where
  pub host : Bytes
  pub login : Option Bytes
  pub password : Option Bytes
  pub port : ℕ
  pub force : Bool

-- `_hash_netrc`, the same loop as the one of the string map
unfoldable pub hash_netrc : Bytes → ℕ
hash_netrc host = hash_string host

-- `!_compare_netrc`
unfoldable pub compare_netrc : Bytes → Bytes → Bool
compare_netrc a b = streq a b

-- `wget_netrc_db_t`
abbrev pub NetrcDb : Type 0
NetrcDb = Hashmap Bytes Netrc

-- `wget_netrc_db_init`
unfoldable pub netrc_db_init : NetrcDb
netrc_db_init = Hashmap.create 16 hash_netrc compare_netrc

-- `wget_netrc_db_add`
unfoldable pub netrc_db_add : NetrcDb → Netrc → NetrcDb
netrc_db_add db netrc = (put_noalloc db netrc.host netrc).0

-- `wget_netrc_get`; no database has no entries
unfoldable pub netrc_get : Option NetrcDb → Bytes → Option Netrc
netrc_get none host = none
netrc_get (some db) host = get db host
