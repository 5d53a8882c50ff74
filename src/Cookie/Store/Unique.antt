-- ===== src/Cookie/Store/Unique.antt =====
-- The database holds at most one cookie for a domain, a name and a path.
use Prim.Native.Nat.{eq}
use mathlib.Core.List.{Perm, Permᴰ}
use mathlib.Core.List.Perm
use mathlib.Core.Logic.{∥∥₁_elim}
use mathlib.Core.Option.{some_inj}
use wget.Prelude.{
  ℕ, zero, suc, ◌≡◌, ◌≢◌, ◌⊎◌, inl, inr, refl, ◌∙◌, subst, Bool-cases, List, [], ◌∷◌, All, Option,
  some, get_elem?, set, arith,
}
use wget.Cookie.{Bool, Bytes, Cookie, compare_cookie}
use wget.Cookie.Store.{ℤ, CookieDb, db_init, is_public, check_psl, store_cookie, store_cookies}
use wget.Cookie.Store.Update.{
  compare_cookie-IsOrder, IsStore, Renewed, Added, Stored, store_cookie-Stored,
  store_cookie_refused,
}
use wget.Vector.Order.{IsOrder}
use wget.Vector.Sorted.{Sorts}
use wget.Vector.{Compare, Sorter, create}

-- no two elements compare equal
abbrev pub Distinct : {A : Type 0} → Compare A → List A → Type 0
Distinct c [] = Unit {0}
Distinct c (x ∷ xs) = All (λ y. c x y ≢ eq) xs × Distinct c xs

module _ {A : Type 0} {c : Compare A} (o : IsOrder c) where
  differ_sym : (a b : A) → c a b ≢ eq → c b a ≢ eq
  differ_sym a b h = ground (arith, o.turn a b)

  -- what differs from an element differs from all that compare equal to it
  differ_same : (a b x : A) → c a b ≡ eq → c b x ≢ eq → c a x ≢ eq
  differ_same a b x e h =
      ground (arith, o.turn a b, o.turn a x, o.turn b x, o.le_trans b a x, o.le_trans x a b)

  All-differ-IsProp : (a : A) (xs : List A) → IsProp (All (λ y. c a y ≢ eq) xs)
  All-differ-IsProp a [] = hlevel
  All-differ-IsProp a (x ∷ xs) = let rest = All-differ-IsProp a xs in hlevel

  Distinct-IsProp : (xs : List A) → IsProp (Distinct c xs)
  Distinct-IsProp [] = hlevel
  Distinct-IsProp (x ∷ xs) =
      let first = All-differ-IsProp x xs in let rest = Distinct-IsProp xs in hlevel

  All-permᴰ : {xs ys : List A} (P : A → Type 0) → Permᴰ xs ys → All P xs → All P ys
  All-permᴰ P Permᴰ.nil h = tt
  All-permᴰ P (Permᴰ.cons e p) h = (subst P e h.0, All-permᴰ P p h.1)
  All-permᴰ P (Permᴰ.swap e f) h = (subst P f h.1.0, (subst P e h.0, h.1.1))
  All-permᴰ P (Permᴰ.trans p q) h = All-permᴰ P q (All-permᴰ P p h)

  Distinct-permᴰ : {xs ys : List A} → Permᴰ xs ys → Distinct c xs → Distinct c ys
  Distinct-permᴰ Permᴰ.nil h = tt
  Distinct-permᴰ (Permᴰ.cons {b = b} {l₁ = l} e p) h = (
    All-permᴰ (λ y. c b y ≢ eq) p (subst (λ a. All (λ y. c a y ≢ eq) l) e h.0),
    Distinct-permᴰ p h.1,
  )
  Distinct-permᴰ (Permᴰ.swap {a} {b} {a'} {b'} {l} e f) h =
      let apart : c a' b' ≢ eq = rw (← e, ← f) (differ_sym a b h.0.0) in
      (
        (apart, subst (λ x. All (λ y. c x y ≢ eq) l) f h.1.0),
        (subst (λ x. All (λ y. c x y ≢ eq) l) e h.0.1, h.1.1),
      )
  Distinct-permᴰ (Permᴰ.trans p q) h = Distinct-permᴰ q (Distinct-permᴰ p h)

  Distinct-perm : {xs ys : List A} → Perm xs ys → Distinct c xs → Distinct c ys
  Distinct-perm {ys = ys} p h = ∥∥₁_elim p (Distinct-IsProp ys) (λ d. Distinct-permᴰ d h)

  All-set : (P : A → Type 0) (xs : List A) (p : ℕ) (e : A) → All P xs → P e → All P (set xs p e)
  All-set P [] p e h k = tt
  All-set P (x ∷ xs) zero e h k = (k, h.1)
  All-set P (x ∷ xs) (suc p) e h k = (h.0, All-set P xs p e h.1 k)

  All-get_elem? :
      (P : A → Type 0) (xs : List A) (p : ℕ) (e : A) → All P xs → get_elem? xs p ≡ some e → P e
  All-get_elem? P [] p e h k = absurd cc
  All-get_elem? P (x ∷ xs) zero e h k = subst P (some_inj.0 k) h.0
  All-get_elem? P (x ∷ xs) (suc p) e h k = All-get_elem? P xs p e h.1 k

  All-map : (P Q : A → Type 0) (xs : List A) → ((x : A) → P x → Q x) → All P xs → All Q xs
  All-map P Q [] f h = tt
  All-map P Q (x ∷ xs) f h = (f x h.0, All-map P Q xs f h.1)

  Distinct-set :
      (xs : List A) (p : ℕ) (old e : A)
      → get_elem? xs p ≡ some old
      → c e old ≡ eq
      → Distinct c xs
      → Distinct c (set xs p e)
  Distinct-set [] p old e g k h = tt
  Distinct-set (x ∷ xs) zero old e g k h =
      let same : x ≡ old = some_inj.0 g in
      (
        All-map (λ y. c x y ≢ eq) (λ y. c e y ≢ eq) xs (λ y d. differ_same e x y (rw same k) d) h.0,
        h.1,
      )
  Distinct-set (x ∷ xs) (suc p) old e g k h =
      let differs : c x old ≢ eq = All-get_elem? (λ y. c x y ≢ eq) xs p old h.0 g in
      (
        All-set (λ y. c x y ≢ eq) xs p e h.0
            (differ_sym e x (differ_same e old x k (differ_sym x old differs))),
        Distinct-set xs p old e g k h.1,
      )

  All-of-get_elem? :
      (P : A → Type 0) (xs : List A) → ((i : ℕ) (d : A) → get_elem? xs i ≡ some d → P d) → All P xs
  All-of-get_elem? P [] f = tt
  All-of-get_elem? P (x ∷ xs) f = (f 0 x refl, All-of-get_elem? P xs (λ i. f (suc i)))

-- A database as the functions of the module leave it.
pub record IsJar (db : CookieDb) : Type 0 where
  pub is_store : IsStore db
  pub distinct : Distinct compare_cookie db.cookies.entry

pub new-IsJar : (psl : Option (Option Bytes → Bool)) → IsJar (db_init psl)
unfolding db_init create
new-IsJar psl = record {
  is_store = record {
    valid = record { fits = omega arith; truthful = λ c e f. cc };
    cmp = refl;
    off = refl;
    size = omega arith;
  };
  distinct = tt;
}

compare-stamped :
    (c d : Cookie) (n m : ℕ)
    → compare_cookie (record c { creation = n; sort_age = m }) d ≡ compare_cookie c d
unfolding compare_cookie
compare-stamped c d n m = refl

compare-aged :
    (c d : Cookie) (m : ℕ) → compare_cookie (record c { sort_age = m }) d ≡ compare_cookie c d
unfolding compare_cookie
compare-aged c d m = refl

module _ (qsort : Sorter Cookie) (sorts : Sorts qsort) where
  Stored-IsJar :
      (db : CookieDb) (c : Cookie) (r : CookieDb × ℤ) → IsJar db → Stored db c r → IsJar r.0
  Stored-IsJar db c r jar s = record { is_store = s.is_store; distinct = distinct s.stored }
    where
      distinct : Renewed db c r.0 ⊎ Added db c r.0 → Distinct compare_cookie r.0.cookies.entry
      distinct (inl w) = rw w.cookies (
          Distinct-set compare_cookie-IsOrder db.cookies.entry w.place w.old _ w.stood
            (compare-stamped c w.old w.old.creation w.old.sort_age ∙ w.same_key) jar.distinct)
      distinct (inr a) = Distinct-perm compare_cookie-IsOrder (Perm.symm a.cookies) (
        All-of-get_elem? compare_cookie-IsOrder _ db.cookies.entry
            (λ i d g. rw (compare-aged c d r.0.age) (a.is_new i d g)),
        jar.distinct,
      )

  -- `wget_cookie_store_cookie` keeps the database well formed, whether it stores the cookie or
  -- refuses it.
  store_cookie-IsJar : (db : CookieDb) (c : Cookie) → IsJar db → IsJar (store_cookie qsort db c).0
  store_cookie-IsJar db c jar = elim (Bool-cases c.normalized) [
    | inr bare ↦ rw (store_cookie_refused qsort db c (inl bare)) jar
    | inl ready ↦ elim (Bool-cases (is_public db.psl c.domain)) [
      | inl refused ↦
          rw (store_cookie_refused qsort db c (inr (unfold check_psl in rw refused refl))) jar
      | inr free ↦ Stored-IsJar db c _ jar (
          store_cookie-Stored qsort sorts db c jar.is_store ready
            (unfold check_psl in rw free refl))
    ]
  ]

  store_cookies_keep :
      (db : CookieDb) (cs : List Cookie) → IsJar db → IsJar (store_cookies qsort db cs)
  unfolding store_cookies
  store_cookies_keep db [] jar = jar
  store_cookies_keep db (c ∷ cs) jar =
      store_cookies_keep (store_cookie qsort db c).0 cs (store_cookie-IsJar db c jar)

  -- Whatever cookies `wget_cookie_store_cookies` is given for a new database: the database holds at
  -- most one cookie for a domain, a name and a path, its vector is within its allocation, and it is
  -- sorted if it says so.
  pub store_cookies-IsJar :
      (psl : Option (Option Bytes → Bool)) (cs : List Cookie)
      → IsJar (store_cookies qsort (db_init psl) cs)
  store_cookies-IsJar psl cs = store_cookies_keep (db_init psl) cs (new-IsJar psl)
