-- ===== src/Hsts.antt =====
-- libwget/hsts.c: the hosts that are to be reached by HTTPS. The time is an argument, in seconds; it
-- is not negative. An entry is the value of the map, its host and its port are the key; `put` of the
-- map stands for the assignments to the entry that was found. The file is left out, and the mutex.
pub mod Update
pub mod Additions
pub mod Match
pub mod Protect
mod Tests
use wget.Prelude.{
  ℕ, ◌+◌, Bool, true, false, not, ◌&&◌, ◌||◌, [], ◌∷◌, Option, none, some, ltb, leb, ◌==◌,
  if◌then◌else◌, Bytes, streq, ℤ, pos, negsuc,
}
use wget.Hashmap
use wget.Hashmap.{Hashmap, put, put_noalloc}
use wget.Stringmap.{hash_from}

-- what `_hash_hsts` and `_compare_hsts` read of an entry
pub record HstsKey : Type 0 where
  pub host : Bytes
  pub port : ℕ

-- `_hsts_t`
pub record Hsts : Type 0 where
  pub key : HstsKey
  pub expires : ℕ
  pub created : ℕ
  pub maxage : ℕ
  pub include_subdomains : Bool

-- `_hash_hsts`
unfoldable pub hash_hsts : HstsKey → ℕ
hash_hsts key = hash_from key.port key.host

-- `!_compare_hsts`
unfoldable pub compare_hsts : HstsKey → HstsKey → Bool
compare_hsts a b = streq a.host b.host && a.port == b.port

-- `INT64_MAX / 2`
abbrev pub half_max : ℕ
half_max = 4611686018427387903

-- a maximal age is stored as 0 if it is not positive or too large
abbrev pub stored_age : ℕ → ℤ → ℕ
stored_age now (negsuc n) = 0
stored_age now (pos maxage) = if leb half_max maxage || leb half_max now then 0 else maxage

abbrev pub expiry : ℕ → ℕ → ℕ
expiry now age = if age == 0 then 0 else now + age

-- `_new_hsts`
unfoldable pub new_hsts : ℕ → Bytes → ℕ → ℤ → Bool → Hsts
new_hsts now host port maxage include_subdomains = record {
  key = record { host = host; port = if port == 0 then 443 else port };
  expires = expiry now (stored_age now maxage);
  created = now;
  maxage = stored_age now maxage;
  include_subdomains = include_subdomains;
}

abbrev pub Db : Type 0
Db = Hashmap HstsKey Hsts

-- the entries of a new database
unfoldable pub hsts_db_init : Db
hsts_db_init = Hashmap.create 16 hash_hsts compare_hsts

abbrev pub same_bool : Bool → Bool → Bool
same_bool true b = b
same_bool false b = not b

-- `old->created < hsts->created || …`
abbrev pub is_outdated : Hsts → Hsts → Bool
is_outdated old hsts =
    ltb old.created hsts.created
    || (not (old.maxage == hsts.maxage)
        || not (same_bool old.include_subdomains hsts.include_subdomains))

-- the branch behind `wget_hashmap_get`
unfoldable pub add_or_update : Db → Hsts → Option Hsts → Db
add_or_update db hsts none = (put_noalloc db hsts.key hsts).0
add_or_update db hsts (some old) =
    if is_outdated old hsts then (put db hsts.key (record hsts { key = old.key })).0 else db

-- `_hsts_db_add_entry`
unfoldable pub hsts_db_add_entry : Db → Hsts → Db
hsts_db_add_entry db hsts =
    if hsts.maxage == 0
    then (Hashmap.remove db hsts.key).0
    else add_or_update db hsts (Hashmap.get db hsts.key)

-- `impl_hsts_db_add`
unfoldable pub hsts_db_add : Db → ℕ → Bytes → ℕ → ℤ → Bool → Db
hsts_db_add db now host port maxage include_subdomains =
    hsts_db_add_entry db (new_hsts now host port maxage include_subdomains)

-- `hstsp && hstsp->expires >= now`
abbrev pub is_fresh : ℕ → Option Hsts → Bool
is_fresh now none = false
is_fresh now (some hsts) = leb now hsts.expires

-- `hstsp && hstsp->include_subdomains && hstsp->expires >= now`
abbrev pub covers : ℕ → Option Hsts → Bool
covers now none = false
covers now (some hsts) = hsts.include_subdomains && leb now hsts.expires

-- `for (p = host; (p = strchr(p, '.')); )`
unfoldable pub parent_match : Db → ℕ → ℕ → Bytes → Bool
parent_match db now port [] = false
parent_match db now port (c ∷ p) =
    if c == b'.'
    then covers now (Hashmap.get db (record { host = p; port = port }))
      || parent_match db now port p
    else parent_match db now port p

-- `impl_hsts_db_host_match`
unfoldable pub hsts_db_host_match : Db → ℕ → Bytes → ℕ → Bool
hsts_db_host_match db now host port =
    let p = if port == 80 then 443 else port in
    is_fresh now (Hashmap.get db (record { host = host; port = p })) || parent_match db now p host
