-- ===== src/Hsts/Additions.antt =====
-- libwget/hsts.c: `wget_hsts_db_add` by its arguments.
use wget.Prelude.{
  subst, ℤ, ℕ, ◌+◌, ◌≡◌, ◌≢◌, inl, inr, refl, Bool, Bool-cases, ◌==◌, if◌then◌else◌, Bytes, arith,
  none, some, ◌≤◌, ◌<◌, pos, negsuc,
}
use wget.Hashmap
use wget.Hsts.{Db, Hsts, HstsKey, compare_hsts, hsts_db_add, new_hsts, stored_age, expiry}
use wget.Hsts.Update.{IsDb, hsts_db_add-AddedEntry, compare_hsts_elim}

-- What `wget_hsts_db_add` leaves under the key of a host, by its arguments.
pub record Added (db : Db) (now : ℕ) (key : HstsKey) (maxage : ℤ) (include_subdomains : Bool)
    (r : Db) : Type 0 where
  pub database : IsDb r
  pub others : (q : HstsKey) → q ≢ key → Hashmap.get r q ≡ Hashmap.get db q
  pub negative : (n : ℕ) → maxage ≡ negsuc n → Hashmap.get r key ≡ none
  pub no_age : maxage ≡ pos 0 → Hashmap.get r key ≡ none
  pub too_large : (n : ℕ) → maxage ≡ pos n → 4611686018427387903 ≤ n → Hashmap.get r key ≡ none
  pub too_late : 4611686018427387903 ≤ now → Hashmap.get r key ≡ none
  pub protected :
      (n : ℕ)
      → maxage ≡ pos n
      → 0 < n
      → n < 4611686018427387903
      → now < 4611686018427387903
      → (entry : Hsts) × (Hashmap.get r key ≡ some entry)
        × (entry.include_subdomains ≡ include_subdomains)
        × (now + n ≤ entry.expires)

expiry-in_range : (now : ℕ) (maxage : ℤ) → expiry now (stored_age now maxage) < 9223372036854775808
expiry-in_range now (negsuc n) = omega arith
expiry-in_range now (pos n) = ground arith

expiry_of : (now age n : ℕ) → age ≡ n → 0 < n → expiry now age ≡ now + n
expiry_of now age n e h = ground arith

too_late_age : (now : ℕ) (maxage : ℤ) → 4611686018427387903 ≤ now → stored_age now maxage ≡ 0
too_late_age now (negsuc n) h = refl
too_late_age now (pos n) h = ground arith

module _ (db : Db) (now : ℕ) (host : Bytes) (port : ℕ) (maxage : ℤ)
    (include_subdomains : Bool) where
  no_entry :
      IsDb db
      → stored_age now maxage ≡ 0
      → Hashmap.get
          (hsts_db_add db now host port maxage include_subdomains)
          (record { host = host; port = if port == 0 then 443 else port })
        ≡ none
  unfolding new_hsts
  no_entry d h = (hsts_db_add-AddedEntry db now host port maxage include_subdomains d).removed h

  -- The time of expiry that is computed fits in an `int64_t`.
  pub new_hsts-in_range :
      (new_hsts now host port maxage include_subdomains).expires < 9223372036854775808
  unfolding new_hsts
  new_hsts-in_range = expiry-in_range now maxage

  -- `wget_hsts_db_add` of a database in order leaves it in order, and the entries under other keys as
  -- they were. There is no entry for the host and the port after it if the age is negative, 0 or at
  -- least INT64_MAX / 2, or if the time is; otherwise there is one with the flag for subdomains that
  -- is asked for, and it does not expire before the age is over. Port 0 counts as 443.
  pub hsts_db_add-Added :
      IsDb db
      → Added db now
          (record { host = host; port = if port == 0 then 443 else port })
          maxage
          include_subdomains
          (hsts_db_add db now host port maxage include_subdomains)
  unfolding new_hsts
  hsts_db_add-Added d =
      let a = hsts_db_add-AddedEntry db now host port maxage include_subdomains d in
      record {
        database = a.database;
        others = λ q n.
            let key : HstsKey = record { host = host; port = if port == 0 then 443 else port } in
            elim (Bool-cases (compare_hsts q key)) [
              | inl e ↦ absurd (n (compare_hsts_elim q key e))
              | inr e ↦ a.others q e
            ];
        negative = λ n h. no_entry d (rw h refl);
        no_age = λ h. no_entry d (rw h (ground arith));
        too_large = λ n h k. no_entry d (rw h (ground arith));
        too_late = λ h. no_entry d (too_late_age now maxage h);
        protected = λ n h l k t.
            let age : stored_age now maxage ≡ n = rw h (ground arith) in
            let p = a.protected (rw age l) in
            (
              p.entry,
              p.found,
              p.same_subdomains,
              subst (λ e. e ≤ p.entry.expires) (expiry_of now (stored_age now maxage) n age l)
                  p.as_long,
            );
      }
