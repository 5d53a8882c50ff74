-- ===== src/Cookie/Store.antt =====
-- libwget/cookie.c: the cookie database, `wget_cookie_check_psl` and `wget_cookie_store_cookie`.
-- The tables of libpsl are the parameter `psl`, which says whether a domain is a public suffix. The
-- mutex is left out: a call is one step.
pub mod Update
pub mod Unique
use wget.Prelude.{
  ℕ, ◌+◌, ◌%◌, Bool, false, not, List, [], ◌∷◌, Option, none, some, if◌then◌else◌, ℤ, pos, negsuc,
  zero, suc, minus_one,
}
use wget.Cookie.{ℕ, Bool, Bytes, Option, Cookie, compare_cookie}
use wget.Vector.{Vector, Sorter, create, find, get, replace, insert_sorted}

pub record CookieDb : Type 0 where
  pub cookies : Vector Cookie
  pub psl : Option (Option Bytes → Bool)
  pub age : ℕ

-- `wget_cookie_db_init`, with what `psl_latest` returns
unfoldable pub db_init : Option (Option Bytes → Bool) → CookieDb
unfolding create
db_init psl = record { cookies = create 32 (negsuc 1) (some compare_cookie); psl = psl; age = 0 }

-- `psl_is_public_suffix(cookie_db->psl, cookie->domain)`, without libpsl `false`
pub is_public : Option (Option Bytes → Bool) → Option Bytes → Bool
is_public none domain = false
is_public (some public_suffix) domain = public_suffix domain

-- `wget_cookie_check_psl`
unfoldable pub check_psl : CookieDb → Cookie → ℤ
unfolding is_public
check_psl db c = if is_public db.psl c.domain then minus_one else pos 0

module _ (qsort : Sorter Cookie) where
  -- the part that is locked, from the search on
  pub put_cookie : CookieDb → Cookie → ℤ → Option Cookie → CookieDb
  unfolding replace insert_sorted compare_cookie
  put_cookie db c p (some old) =
      let new = record c { creation = old.creation; sort_age = old.sort_age } in
      record db { cookies = (replace db.cookies new p).0 }
  put_cookie db c p none =
      let age = (db.age + 1) % 4294967296 in
      record db {
        cookies = (insert_sorted qsort db.cookies (record c { sort_age = age })).0;
        age = age;
      }

  -- `wget_cookie_store_cookie` for a database that is not NULL
  unfoldable pub store_cookie : CookieDb → Cookie → CookieDb × ℤ
  unfolding check_psl find get put_cookie
  store_cookie db c =
      let p = find db.cookies c in
      if not c.normalized then (db, minus_one) else elim (check_psl db c) [
        | negsuc k ↦ (db, minus_one)
        | pos (suc k) ↦ (db, minus_one)
        | pos zero ↦ (put_cookie db c p (get db.cookies p), pos 0)
      ]

  -- `wget_cookie_store_cookies` for a database that is not NULL
  unfoldable pub store_cookies : CookieDb → List Cookie → CookieDb
  unfolding store_cookie
  store_cookies db [] = db
  store_cookies db (c ∷ cs) = store_cookies (store_cookie db c).0 cs
