-- ===== src/Hsts/Protect.antt =====
-- Lookups behind an addition.
use wget.Prelude.{
  ℤ, ℕ, ◌+◌, ◌≡◌, inl, inr, refl, ◌∙◌, Bool, true, ◌∷◌, ◌++◌, ◌==◌, if◌then◌else◌, Bytes, arith,
  some, leb, ◌≤◌, ◌<◌,
}
use wget.Hashmap
use wget.Hsts.{Db, Hsts, hsts_db_host_match, hsts_db_add, new_hsts, stored_age}
use wget.Hsts.Update.{IsDb, Protected, hsts_db_add-AddedEntry}
use wget.Hsts.Match.{hsts_db_host_match-Reached}

module _ (db : Db) (now : ℕ) (host : Bytes) (port : ℕ) (maxage : ℤ)
    (include_subdomains : Bool) where
  abbrev after : Db
  after = hsts_db_add db now host port maxage include_subdomains

  new_entry :
      IsDb db
      → 0 < stored_age now maxage
      → Protected after (new_hsts now host port maxage include_subdomains)
  new_entry d l =
      (hsts_db_add-AddedEntry db now host port maxage include_subdomains d).protected
        (unfold new_hsts in l)

  new_entry_at :
      (later : ℕ)
      → IsDb db
      → 0 < stored_age now maxage
      → later ≤ now + stored_age now maxage
      → (entry : Hsts) × (Hashmap.get after
            (record { host = host; port = if port == 0 then 443 else port })
          ≡ some entry)
        × (entry.include_subdomains ≡ include_subdomains)
        × (leb later entry.expires ≡ true)
  unfolding new_hsts
  new_entry_at later d l t =
      let p = new_entry d l in (p.entry, p.found, p.same_subdomains, ground (arith, p.as_long))

  -- A host that was added with an age in range matches until that age is over, on its own port and, for
  -- 443, on port 80, whatever the database held before.
  pub hsts_db_add-matches :
      (later lookup : ℕ)
      → IsDb db
      → 0 < stored_age now maxage
      → later ≤ now + stored_age now maxage
      → (if lookup == 80 then 443 else lookup) ≡ (if port == 0 then 443 else port)
      → hsts_db_host_match after later host lookup ≡ true
  hsts_db_add-matches later lookup d l t e =
      let (entry, found, flag, late) = new_entry_at later d l t in
      (hsts_db_host_match-Reached after later lookup host).1 (inl (rw e (rw found late)))

  -- A subdomain of a host that was added with an age in range and for its subdomains matches until that
  -- age is over, whatever the database held before.
  pub hsts_db_add-subdomain :
      (label : Bytes) (later lookup : ℕ)
      → IsDb db
      → include_subdomains ≡ true
      → 0 < stored_age now maxage
      → later ≤ now + stored_age now maxage
      → (if lookup == 80 then 443 else lookup) ≡ (if port == 0 then 443 else port)
      → hsts_db_host_match after later (label ++ (b'.' ∷ host)) lookup ≡ true
  hsts_db_add-subdomain label later lookup d s l t e =
      let (entry, found, flag, late) = new_entry_at later d l t in
      (hsts_db_host_match-Reached after later lookup (label ++ (b'.' ∷ host))).1 (
        inr (record {
          label = label;
          parent = host;
          parts = refl;
          entry = rw e (rw found (rw (flag ∙ s) late));
        }))
