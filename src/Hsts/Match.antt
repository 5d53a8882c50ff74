-- ===== src/Hsts/Match.antt =====
-- Which hosts match.
use wget.Prelude.{
  ◌≢◌, Option, none, some, ◌≤◌, ℕ, ◌≡◌, ◌↔◌, ◌⊎◌, inl, inr, refl, ap, Bool, Bool-cases, true, false,
  ◌||◌, [], ◌∷◌, ◌++◌, ◌==◌, ==_iff, if◌then◌else◌, Bytes, arith,
}
use wget.Hashmap
use wget.Hsts.{Db, Hsts, is_fresh, covers, parent_match, hsts_db_host_match}

-- a parent domain whose entry passes the test
pub record Reached (db : Db) (now port : ℕ) (host : Bytes) : Type 0 where
  pub label : Bytes
  pub parent : Bytes
  pub parts : host ≡ label ++ (b'.' ∷ parent)
  pub entry : covers now (Hashmap.get db (record { host = parent; port = port })) ≡ true

longer :
    {db : Db} {now port : ℕ} {host : Bytes} (c : ℕ)
    → Reached db now port host
    → Reached db now port (c ∷ host)
longer c r = record {
  label = c ∷ r.label;
  parent = r.parent;
  parts = ap (◌∷◌ c) r.parts;
  entry = r.entry;
}

module _ (db : Db) (now port : ℕ) where
  parent_match-Reached :
      (host : Bytes) → parent_match db now port host ≡ true → Reached db now port host
  unfolding parent_match
  parent_match-Reached [] h = cc
  parent_match-Reached (c ∷ p) h = elim (Bool-cases (c == b'.')) [
    | inr e ↦ longer c (parent_match-Reached p (rw e at h))
    | inl e ↦ elim (Bool-cases (covers now (Hashmap.get db (record { host = p; port = port })))) [
      | inl k ↦ record {
        label = [];
        parent = p;
        parts = ap (λ d. d ∷ p) ((==_iff c b'.').0 e);
        entry = k;
      }
      | inr k ↦ longer c (parent_match-Reached p (rw k at (rw e at h)))
    ]
  ]

  Reached-parent_match :
      (label parent : Bytes)
      → covers now (Hashmap.get db (record { host = parent; port = port })) ≡ true
      → parent_match db now port (label ++ (b'.' ∷ parent)) ≡ true
  unfolding parent_match
  Reached-parent_match [] parent h = rw h refl
  Reached-parent_match (c ∷ label) parent h = ground (arith, Reached-parent_match label parent h)

match_elim :
    (db : Db) (now port : ℕ) (host : Bytes) (fresh : Bool)
    → (fresh || parent_match db now port host) ≡ true
    → (fresh ≡ true) ⊎ Reached db now port host
match_elim db now port host true h = inl refl
match_elim db now port host false h = inr (parent_match-Reached db now port host h)

match_intro :
    (db : Db) (now port : ℕ) (host : Bytes) (fresh : Bool)
    → (fresh ≡ true) ⊎ Reached db now port host
    → (fresh || parent_match db now port host) ≡ true
match_intro db now port host true h = refl
match_intro db now port host false (inl e) = cc
match_intro db now port host false (inr r) =
    rw r.parts (Reached-parent_match db now port r.label r.parent r.entry)

pub hsts_db_host_match-Reached :
    (db : Db) (now port : ℕ) (host : Bytes)
    → (hsts_db_host_match db now host port ≡ true) ↔ (
        (is_fresh now
            (Hashmap.get db (record { host = host; port = if port == 80 then 443 else port }))
          ≡ true)
        ⊎ Reached db now (if port == 80 then 443 else port) host)
unfolding hsts_db_host_match
hsts_db_host_match-Reached db now port host =
    let p = if port == 80 then 443 else port in
    let fresh = is_fresh now (Hashmap.get db (record { host = host; port = p })) in
    (match_elim db now p host fresh, match_intro db now p host fresh)

-- an entry that has not expired
pub record Current (db : Db) (now port : ℕ) (host : Bytes) : Type 0 where
  pub entry : Hsts
  pub found : Hashmap.get db (record { host = host; port = port }) ≡ some entry
  pub in_time : now ≤ entry.expires

-- a parent domain with an entry that has not expired and is for its subdomains too
pub record Covered (db : Db) (now port : ℕ) (host : Bytes) : Type 0 where
  pub label : Bytes
  pub parent : Bytes
  pub parts : host ≡ label ++ (b'.' ∷ parent)
  pub current : Current db now port parent
  pub for_subdomains : current.entry.include_subdomains ≡ true

is_fresh_elim :
    {now : ℕ} (found : Option Hsts)
    → is_fresh now found ≡ true
    → (e : Hsts) × (found ≡ some e) × (now ≤ e.expires)
is_fresh_elim none h = cc
is_fresh_elim (some e) h = (e, refl, ground (arith, h))

covers_elim :
    {now : ℕ} (found : Option Hsts)
    → covers now found ≡ true
    → (e : Hsts) × (found ≡ some e) × (now ≤ e.expires) × (e.include_subdomains ≡ true)
covers_elim none h = cc
covers_elim (some e) h = (e, refl, ground (arith, h), ground (arith, h))

module _ (db : Db) (now port : ℕ) (host : Bytes) where
  Current-is_fresh :
      Current db now port host
      → is_fresh now (Hashmap.get db (record { host = host; port = port })) ≡ true
  Current-is_fresh c = rw c.found (ground (arith, c.in_time))

  is_fresh-Current :
      is_fresh now (Hashmap.get db (record { host = host; port = port })) ≡ true
      → Current db now port host
  is_fresh-Current h =
      let (e, found, in_time) =
        is_fresh_elim (Hashmap.get db (record { host = host; port = port })) h in
      record { entry = e; found = found; in_time = in_time }

  Covered-Reached : Covered db now port host → Reached db now port host
  Covered-Reached c = record {
    label = c.label;
    parent = c.parent;
    parts = c.parts;
    entry = rw c.current.found (ground (arith, c.current.in_time, c.for_subdomains));
  }

  Reached-Covered : Reached db now port host → Covered db now port host
  Reached-Covered r =
      let (e, found, in_time, flag) =
        covers_elim (Hashmap.get db (record { host = r.parent; port = port })) r.entry in
      record {
        label = r.label;
        parent = r.parent;
        parts = r.parts;
        current = record { entry = e; found = found; in_time = in_time };
        for_subdomains = flag;
      }

-- A host matches on a port just if there is an entry for it that has not expired, or one for a parent
-- domain that has not expired and includes the subdomains. The entries are those of the same port, and
-- those of 443 for port 80.
pub hsts_db_host_match_iff :
    (db : Db) (now port p : ℕ) (host : Bytes)
    → (port ≡ 80 → p ≡ 443)
    → (port ≢ 80 → p ≡ port)
    → (hsts_db_host_match db now host port ≡ true) ↔ (Current db now p host ⊎ Covered db now p host)
hsts_db_host_match_iff db now port p host http other =
    let same : (if port == 80 then 443 else port) ≡ p = ground (arith, http, other) in
    let m = rw same at (hsts_db_host_match-Reached db now port host) in
    (
      λ h. elim (m.0 h) [
        | inl f ↦ inl (is_fresh-Current db now p host f)
        | inr r ↦ inr (Reached-Covered db now p host r)
      ],
      λ h. elim h [
        | inl c ↦ m.1 (inl (Current-is_fresh db now p host c))
        | inr c ↦ m.1 (inr (Covered-Reached db now p host c))
      ],
    )
