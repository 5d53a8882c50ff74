-- ===== src/Cookie/Store/Update.antt =====
-- What `wget_cookie_store_cookie` does to the database.
use mathlib.Core.List.{Perm}
use mathlib.Core.Option.{some_inj}
use wget.Prelude.{
  subst, ℕ, ◌+◌, ◌*◌, ◌%◌, ◌<◌, ◌≡◌, ◌≢◌, ◌⊎◌, inl, inr, refl, sym, ◌∙◌, true, false, Bool-cases,
  List, [], ◌∷◌, none, some, length, length-perm, get_or, get_elem?, set, ℤ, pos, negsuc, zero, suc,
  minus_one, arith,
}
use wget.Cookie.{eq, some, ℕ, Cookie, compare_cookie}
use wget.Cookie.Store.{CookieDb, check_psl, put_cookie, store_cookie}
use wget.Vector.Order.{IsOrder}
use wget.Vector.Insert.{IsValid}
use wget.Vector.Lex.{lex-IsOrder, by_key-IsOrder, compare_bytes-IsOrder, compare_strings-IsOrder}
use wget.Vector.Search.{Finds, find-Finds}
use wget.Vector.Sorted.{Sorts, insert_sorted-InsertedSorted}
use wget.Vector.Replace.{replace-Replaced}
use wget.Vector.{Compare, Sorter, grown, find, get}

pub compare_cookie-IsOrder : IsOrder compare_cookie
unfolding compare_cookie
compare_cookie-IsOrder =
    lex-IsOrder (by_key-IsOrder (λ (c : Cookie). c.domain) compare_strings-IsOrder) (
      lex-IsOrder (by_key-IsOrder (λ (c : Cookie). c.name) compare_bytes-IsOrder)
        (by_key-IsOrder (λ (c : Cookie). c.path) compare_strings-IsOrder))

-- The database's vector is as `wget_cookie_db_init` made it, but for its elements.
pub record IsStore (db : CookieDb) : Type 0 where
  pub valid : IsValid db.cookies
  pub cmp : db.cookies.cmp ≡ some compare_cookie
  pub off : db.cookies.off ≡ negsuc 1
  pub size : 0 < db.cookies.max

-- The cookie at `p` compares equal and `c` stands in its place, with its creation time and its age.
pub record Renewed (db : CookieDb) (c : Cookie) (r : CookieDb) : Type 0 where
  pub place : ℕ
  pub old : Cookie
  pub stood : get_elem? db.cookies.entry place ≡ some old
  pub same_key : compare_cookie c old ≡ eq
  pub cookies :
      r.cookies.entry
      ≡ set db.cookies.entry place (record c { creation = old.creation; sort_age = old.sort_age })
  pub same_age : r.age ≡ db.age

-- No cookie compares equal, and `c` stands among the others with the next age.
pub record Added (db : CookieDb) (c : Cookie) (r : CookieDb) : Type 0 where
  pub is_new :
      (i : ℕ) (d : Cookie) → get_elem? db.cookies.entry i ≡ some d → compare_cookie c d ≢ eq
  pub cookies : Perm r.cookies.entry (record c { sort_age = r.age } ∷ db.cookies.entry)
  pub next_age : r.age ≡ (db.age + 1) % 4294967296

get_elem?-get_or :
    {A : Type 0} (xs : List A) (i : ℕ) (d x : A)
    → get_elem? xs i ≡ some x
    → (i < length xs) × (get_or xs i d ≡ x)
get_elem?-get_or [] i d x h = absurd cc
get_elem?-get_or (y ∷ xs) zero d x h = (omega arith, cc)
get_elem?-get_or (y ∷ xs) (suc i) d x h =
    let (inside, same) = get_elem?-get_or xs i d x h in (omega arith, same)

get_elem?-inside :
    {A : Type 0} (xs : List A) (i : ℕ) (d : A)
    → i < length xs
    → get_elem? xs i ≡ some (get_or xs i d)
get_elem?-inside [] i d h = absurd (omega arith)
get_elem?-inside (x ∷ xs) zero d h = refl
get_elem?-inside (x ∷ xs) (suc i) d h = get_elem?-inside xs i d (omega arith)

orders : (db : CookieDb) → IsStore db → (c : Compare Cookie) → db.cookies.cmp ≡ some c → IsOrder c
orders db s c e =
    let same : compare_cookie ≡ c = some_inj.0 (sym s.cmp ∙ e) in rw (← same) compare_cookie-IsOrder

renew :
    (qsort : Sorter Cookie) (db : CookieDb) (c : Cookie) (p : ℕ)
    → IsStore db
    → p < length db.cookies.entry
    → compare_cookie c (get_or db.cookies.entry p c) ≡ eq
    → IsStore (put_cookie qsort db c (pos p) (some (get_or db.cookies.entry p c)))
      × Renewed db c (put_cookie qsort db c (pos p) (some (get_or db.cookies.entry p c)))
unfolding put_cookie
renew qsort db c p s h e =
    let old = get_or db.cookies.entry p c in
    let new = record c { creation = old.creation; sort_age = old.sort_age } in
    let r = replace-Replaced db.cookies new p s.valid (orders db s) h in
    (
      record {
        valid = r.valid;
        cmp = r.same_cmp ∙ s.cmp;
        off = r.same_off ∙ s.off;
        size = omega (arith, r.same_max, s.size);
      },
      record {
        place = p;
        old = old;
        stood = get_elem?-inside db.cookies.entry p c h;
        same_key = e;
        cookies = r.entry;
        same_age = refl;
      },
    )

put_new :
    (qsort : Sorter Cookie) (sorts : Sorts qsort) (db : CookieDb) (c : Cookie) (p : ℤ)
    → IsStore db
    → ((i : ℕ) → i < length db.cookies.entry → compare_cookie c (get_or db.cookies.entry i c) ≢ eq)
    → IsStore (put_cookie qsort db c p none) × Added db c (put_cookie qsort db c p none)
unfolding put_cookie grown
put_new qsort sorts db c p s h =
    let age = (db.age + 1) % 4294967296 in
    let e = record c { sort_age = age } in
    let grows : grown db.cookies.max db.cookies.off ≡ some (db.cookies.max * 2) = rw s.off refl in
    let r =
      insert_sorted-InsertedSorted qsort sorts compare_cookie-IsOrder db.cookies e
        (db.cookies.max * 2) s.cmp s.valid s.size grows in
    (
      record {
        valid = record {
          fits = r.fits;
          truthful = λ d is_d flag.
              let same : compare_cookie ≡ d = some_inj.0 (sym (r.same_cmp ∙ s.cmp) ∙ is_d) in
              rw (← same) r.in_order;
        };
        cmp = r.same_cmp ∙ s.cmp;
        off = r.same_off ∙ s.off;
        size = omega (arith, r.fits, length-perm r.elements);
      },
      record {
        is_new = λ i d g.
            let (inside, same) = get_elem?-get_or db.cookies.entry i c d g in
            rw same at (h i inside);
        cookies = r.elements;
        next_age = refl;
      },
    )

-- What a store that succeeds leaves.
pub record Stored (db : CookieDb) (c : Cookie) (r : CookieDb × ℤ) : Type 0 where
  pub returned : r.1 ≡ pos 0
  pub is_store : IsStore r.0
  pub same_psl : r.0.psl ≡ db.psl
  pub stored : Renewed db c r.0 ⊎ Added db c r.0

module _ (qsort : Sorter Cookie) (sorts : Sorts qsort) (db : CookieDb) (c : Cookie) where
  put-Stored :
      (p : ℤ)
      → IsStore db
      → Finds compare_cookie c db.cookies.entry p
      → Stored db c (put_cookie qsort db c p (get db.cookies p), pos 0)
  put-Stored (pos i) s f =
      let there : get db.cookies (pos i) ≡ some (get_or db.cookies.entry i c) =
        unfold get in ground (arith, get_elem?-inside db.cookies.entry i c f.0) in
      let (is_store, renewed) = renew qsort db c i s f.0 f.1 in
      rw there (record {
        returned = refl;
        is_store = is_store;
        same_psl = unfold put_cookie in refl;
        stored = inl renewed;
      })
  put-Stored (negsuc k) s f =
      let there : get db.cookies (negsuc k) ≡ none = unfold get in refl in
      let (is_store, added) = put_new qsort sorts db c (negsuc k) s f in
      rw there (record {
        returned = refl;
        is_store = is_store;
        same_psl = unfold put_cookie in refl;
        stored = inr added;
      })

  store-put :
      c.normalized ≡ true
      → check_psl db c ≡ pos 0
      → store_cookie qsort db c
        ≡ (put_cookie qsort db c (find db.cookies c) (get db.cookies (find db.cookies c)), pos 0)
  unfolding store_cookie
  store-put h k = ground arith

  pub store_cookie-Stored :
      IsStore db
      → c.normalized ≡ true
      → check_psl db c ≡ pos 0
      → Stored db c (store_cookie qsort db c)
  store_cookie-Stored s h k =
      subst (λ r. Stored db c r) (sym (store-put h k))
        (put-Stored (find db.cookies c) s (
          find-Finds db.cookies c s.cmp compare_cookie-IsOrder
            (s.valid.truthful compare_cookie s.cmp)))

-- It refuses a cookie that is not normalized, and one for a public suffix: the database stays.
pub store_cookie_refused :
    (qsort : Sorter Cookie) (db : CookieDb) (c : Cookie)
    → (c.normalized ≡ false) ⊎ (check_psl db c ≡ minus_one)
    → store_cookie qsort db c ≡ (db, minus_one)
unfolding store_cookie
store_cookie_refused qsort db c (inl h) = rw h refl
store_cookie_refused qsort db c (inr h) = elim (Bool-cases c.normalized) [
  | inl t ↦ rw (t, h) refl
  | inr t ↦ rw t refl
]
