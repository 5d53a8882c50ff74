-- ===== src/Cookie.antt =====
-- libwget/cookie.c: cookies and the orders that they are sorted by. A `time_t` is a number of
-- seconds; a cookie that expires before the epoch is not modelled. `last_access`,
-- `domain_dot` and `keep_session_cookies`, which no function here reads, are left out.
pub mod Match
pub mod Normalize
pub mod Request
pub mod Store
mod Tests
use Prim.Native.Nat.{Ordering, lt, eq, gt, compare}
use wget.Prelude.{[], none, some, [], ℕ, Bool, Option, Bytes, length, if◌then◌else◌, ltb}
use wget.Vector.Lex.{lex, by_key, compare_strings, compare_bytes}
use wget.Vector.{Compare}

-- `wget_cookie_t`. The name, the value and the path of a stored cookie are strings; the parser and
-- the loader leave the domain and the path NULL where they are not given.
pub record Cookie : Type 0 where
  pub name : Bytes
  pub value : Bytes
  pub domain : Option Bytes
  pub path : Option Bytes
  pub expires : ℕ
  pub maxage : ℕ
  pub creation : ℕ
  pub sort_age : ℕ
  pub normalized : Bool
  pub persistent : Bool
  pub host_only : Bool
  pub secure_only : Bool
  pub http_only : Bool

-- what the cookie functions read of a `wget_iri_t`: `https` is `scheme == WGET_IRI_SCHEME_HTTPS`
pub record Iri : Type 0 where
  pub https : Bool
  pub host : Bytes
  pub path : Option Bytes

-- A string that is not NULL. The C code dereferences the domain and the path where this is called: an
-- empty one stands for NULL, and what is read of one says nothing about the C code.
abbrev pub text : Option Bytes → Bytes
text none = []
text (some s) = s

-- `_compare_cookie`
unfoldable pub compare_cookie : Compare Cookie
unfolding compare_strings compare_bytes
compare_cookie =
    lex (by_key (λ c. c.domain) compare_strings)
      (lex (by_key (λ c. c.name) compare_bytes) (by_key (λ c. c.path) compare_strings))

-- `_compare_cookie2`: longer paths first, then the older cookie
unfoldable pub compare_cookie2 : Compare Cookie
compare_cookie2 c1 c2 =
    let len1 = length (text c1.path) in
    let len2 = length (text c2.path) in
    if ltb len1 len2
    then gt
    else if ltb len2 len1
    then lt
    else if ltb c1.sort_age c2.sort_age
    then lt
    else if ltb c2.sort_age c1.sort_age
    then gt
    else eq
