-- ===== src/Hsts/Update.antt =====
-- The entries that an addition leaves.
use wget.Prelude.{
  [], subst, ℤ, ℕ, ◌+◌, ◌≡◌, ◌↔◌, inl, inr, refl, ap, ◌∙◌, sym, Bool, Bool-cases, true, false, not,
  ◌||◌, ◌==◌, ==_iff, if◌then◌else◌, Bytes, arith, Option, none, some, streq_iff, ltb, ◌≤◌, ◌<◌,
}
use wget.Hashmap
use wget.Hashmap.{put, put_noalloc}
use wget.Hashmap.Chain.{IsKey}
use wget.Hashmap.Map.{IsMap}
use wget.Hashmap.Update.{remove-Removes}
use wget.Hashmap.Client.{run, run-create_refines, put-Puts, put_noalloc-Puts}
use wget.Hsts.{
  [], hsts_db_init, Db, Hsts, HstsKey, hash_hsts, compare_hsts, is_outdated, same_bool,
  add_or_update, hsts_db_add_entry, hsts_db_add, new_hsts,
}

compare_hsts_iff :
    (a b : HstsKey) → (compare_hsts a b ≡ true) ↔ ((a.host ≡ b.host) × (a.port ≡ b.port))
unfolding compare_hsts
compare_hsts_iff a b = ground (arith, streq_iff a.host b.host)

pub compare_hsts_elim : (a b : HstsKey) → compare_hsts a b ≡ true → a ≡ b
compare_hsts_elim a b h =
    let (hosts, ports) = (compare_hsts_iff a b).0 h in
    ap (λ s. record { host = s; port = a.port }) hosts
    ∙ ap (λ n. record { host = b.host; port = n }) ports

compare_hsts_intro : (a b : HstsKey) → a ≡ b → compare_hsts a b ≡ true
compare_hsts_intro a b e = (compare_hsts_iff a b).1 (ap (λ k. k.host) e, ap (λ k. k.port) e)

pub hsts-IsKey : IsKey hash_hsts compare_hsts
hsts-IsKey = record {
  same_refl = λ a. compare_hsts_intro a a refl;
  same_symm = λ a b. ground (arith, compare_hsts_iff a b, compare_hsts_iff b a);
  same_trans =
      λ a b c h i. compare_hsts_intro a c (compare_hsts_elim a b h ∙ compare_hsts_elim b c i);
  hash-same = λ a b h. ap hash_hsts (compare_hsts_elim a b h);
}

-- what an entry of the database satisfies: a positive age, and the time of expiry that follows
pub record IsEntry (hsts : Hsts) : Type 0 where
  pub lasting : 0 < hsts.maxage
  pub expiry_is : hsts.expires ≡ hsts.created + hsts.maxage

pub record IsDb (db : Db) : Type 0 where
  pub map : IsMap hsts-IsKey db
  pub entries : (q : HstsKey) (hsts : Hsts) → Hashmap.get db q ≡ some hsts → IsEntry hsts

-- the entry that protects a host as an addition asks for
pub record Protected (db : Db) (hsts : Hsts) : Type 0 where
  pub entry : Hsts
  pub found : Hashmap.get db hsts.key ≡ some entry
  pub same_subdomains : entry.include_subdomains ≡ hsts.include_subdomains
  pub as_long : hsts.expires ≤ entry.expires

-- What an addition leaves: a database with the other keys as they were, and under the key of the entry
-- nothing for an age of 0, and otherwise an entry that protects at least as long.
pub record AddedEntry (db : Db) (hsts : Hsts) (r : Db) : Type 0 where
  pub database : IsDb r
  pub others : (q : HstsKey) → compare_hsts q hsts.key ≡ false → Hashmap.get r q ≡ Hashmap.get db q
  pub removed : hsts.maxage ≡ 0 → Hashmap.get r hsts.key ≡ none
  pub protected : 0 < hsts.maxage → Protected r hsts

same_bool_elim : (a b : Bool) → not (same_bool a b) ≡ false → a ≡ b
same_bool_elim true true h = refl
same_bool_elim false false h = refl
same_bool_elim true false h = cc
same_bool_elim false true h = cc

or_false : (a b : Bool) → (a || b) ≡ false → (a ≡ false) × (b ≡ false)
or_false true b h = cc
or_false false b h = (refl, h)

-- an entry that is not outdated is no older, and has the same age and flag
current :
    (old hsts : Hsts)
    → is_outdated old hsts ≡ false
    → (hsts.created ≤ old.created)
      × (old.maxage ≡ hsts.maxage)
      × (old.include_subdomains ≡ hsts.include_subdomains)
current old hsts h =
    let (younger, rest) =
      or_false (ltb old.created hsts.created)
        (not (old.maxage == hsts.maxage)
          || not (same_bool old.include_subdomains hsts.include_subdomains))
        h in
    let (ages, flags) =
      or_false (not (old.maxage == hsts.maxage))
        (not (same_bool old.include_subdomains hsts.include_subdomains)) rest in
    (
      ground (arith, younger),
      ground (arith, ages),
      same_bool_elim old.include_subdomains hsts.include_subdomains flags,
    )

module _ (db : Db) (hsts : Hsts) (d : IsDb db) where
  -- a change of the map at the key
  module _ (r : Db) (v : Option Hsts) (m : IsMap hsts-IsKey r)
      (reads : (q : HstsKey)
        → Hashmap.get r q ≡ (if compare_hsts q hsts.key then v else Hashmap.get db q)) where
    changed_here : Hashmap.get r hsts.key ≡ v
    changed_here = rw (reads hsts.key) (rw (hsts-IsKey.same_refl hsts.key) refl)

    changed_others :
        (q : HstsKey) → compare_hsts q hsts.key ≡ false → Hashmap.get r q ≡ Hashmap.get db q
    changed_others q n = rw (reads q) (rw n refl)

    changed-IsDb : ((e : Hsts) → v ≡ some e → IsEntry e) → IsDb r
    changed-IsDb k = record {
      map = m;
      entries = λ q e h. elim (Bool-cases (compare_hsts q hsts.key)) [
        | inl s ↦ k e (rw s at (sym (reads q) ∙ h))
        | inr n ↦ d.entries q e (rw n at (sym (reads q) ∙ h))
      ];
    }

  write-AddedEntry :
      (r : Db) (e : Hsts)
      → IsMap hsts-IsKey r
      → ((q : HstsKey)
          → Hashmap.get r q ≡ (if compare_hsts q hsts.key then some e else Hashmap.get db q))
      → IsEntry e
      → 0 < hsts.maxage
      → e.include_subdomains ≡ hsts.include_subdomains
      → hsts.expires ≡ e.expires
      → AddedEntry db hsts r
  write-AddedEntry r e m reads k l s t = record {
    database =
        changed-IsDb r (some e) m reads
          (λ x h. subst (λ y. IsEntry y) (ap (λ o. elim o [ none ↦ e | some y ↦ y ]) h) k);
    others = changed_others r (some e) m reads;
    removed = λ z. absurd (omega (arith, z, l));
    protected = λ z. record {
      entry = e;
      found = changed_here r (some e) m reads;
      same_subdomains = s;
      as_long = omega (arith, t);
    };
  }

  add_or_update-AddedEntry :
      (old : Option Hsts)
      → Hashmap.get db hsts.key ≡ old
      → 0 < hsts.maxage
      → IsEntry hsts
      → AddedEntry db hsts (add_or_update db hsts old)
  unfolding add_or_update
  add_or_update-AddedEntry none e l k =
      let p = (put_noalloc-Puts hsts-IsKey db hsts.key d.map hsts).reads in
      write-AddedEntry (put_noalloc db hsts.key hsts).0 hsts p.map p.reads k l refl refl
  add_or_update-AddedEntry (some old) e l k = elim (Bool-cases (is_outdated old hsts)) [
    | inl o ↦
        let v : Hsts = record hsts { key = old.key } in
        let p = (put-Puts hsts-IsKey db hsts.key d.map v).reads in
        rw o (
          write-AddedEntry (put db hsts.key v).0 v p.map p.reads
            (record { lasting = k.lasting; expiry_is = k.expiry_is }) l refl refl)
    | inr o ↦
        let kept = d.entries hsts.key old e in
        rw o (record {
          database = d;
          others = λ q n. refl;
          removed = λ z. absurd (omega (arith, z, l));
          protected = λ z. record {
            entry = old;
            found = e;
            same_subdomains = (current old hsts o).2;
            as_long = omega (arith, current old hsts o, kept.expiry_is, k.expiry_is);
          };
        })
  ]

  add_entry-AddedEntry :
      (0 < hsts.maxage → IsEntry hsts) → AddedEntry db hsts (hsts_db_add_entry db hsts)
  unfolding hsts_db_add_entry
  add_entry-AddedEntry k = elim (Bool-cases (hsts.maxage == 0)) [
    | inl z ↦
        let p = (remove-Removes hsts-IsKey db hsts.key d.map).reads in
        let gone : hsts.maxage ≡ 0 = (==_iff hsts.maxage 0).0 z in
        rw z (record {
          database = changed-IsDb (Hashmap.remove db hsts.key).0 none p.map p.reads (λ x h. cc);
          others = changed_others (Hashmap.remove db hsts.key).0 none p.map p.reads;
          removed = λ y. changed_here (Hashmap.remove db hsts.key).0 none p.map p.reads;
          protected = λ y. absurd (omega (arith, gone, y));
        })
    | inr z ↦
        let l : 0 < hsts.maxage = ground (arith, z) in
        rw z (add_or_update-AddedEntry (Hashmap.get db hsts.key) refl l (k l))
  ]

new_hsts-IsEntry :
    (now : ℕ) (host : Bytes) (port : ℕ) (maxage : ℤ) (include_subdomains : Bool)
    → 0 < (new_hsts now host port maxage include_subdomains).maxage
    → IsEntry (new_hsts now host port maxage include_subdomains)
unfolding new_hsts
new_hsts-IsEntry now host port maxage include_subdomains l = record {
  lasting = l;
  expiry_is = ground (arith, l);
}

pub hsts_db_add-AddedEntry :
    (db : Db) (now : ℕ) (host : Bytes) (port : ℕ) (maxage : ℤ) (include_subdomains : Bool)
    → IsDb db
    → AddedEntry db
        (new_hsts now host port maxage include_subdomains)
        (hsts_db_add db now host port maxage include_subdomains)
unfolding hsts_db_add
hsts_db_add-AddedEntry db now host port maxage include_subdomains d =
    add_entry-AddedEntry db (new_hsts now host port maxage include_subdomains) d
      (new_hsts-IsEntry now host port maxage include_subdomains)

none_some : {A : Type 0} (hsts : Hsts) → none ≡ some hsts → A
none_some hsts h = cc

-- A new database is in order.
pub hsts_db_init-IsDb : IsDb hsts_db_init
unfolding hsts_db_init run
hsts_db_init-IsDb =
    let (map, reads) = run-create_refines hsts-IsKey 16 [] (omega arith) in
    record { map = map; entries = λ q hsts h. none_some hsts (sym (reads q) ∙ h) }
