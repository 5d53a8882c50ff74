-- ===== src/Cookie/Tests.antt =====
-- Runs of the cookie functions, and the theorems at concrete cookies.
use mathlib.Core.List.{Perm}
use wget.Prelude.{
  streq, starts, last_index, List, ◌≡◌, ◌↔◌, refl, inl, true, false, [], ◌∷◌, none, some, codes,
  ascii, minus_one,
}
use wget.Cookie.{Cookie, Iri}
use wget.Cookie.Match.{domain_match, path_match, directory}
use wget.Cookie.Match.Domain.{Covers, domain_match_iff}
use wget.Cookie.Match.Prefix.{IsPrefix, path_match_slash}
use wget.Cookie.Normalize.{normalize}
use wget.Cookie.Normalize.Accepted.{Accepted}
use wget.Cookie.Request.{selected, create_request_header}
use wget.Cookie.Request.Header.{create_request_header_lem, InOrder, header_of, kept}
use wget.Cookie.Store.{CookieDb, db_init, store_cookie, store_cookies}
use wget.Cookie.Store.Update.{store_cookie_refused}
use wget.Cookie.Store.Unique.{IsJar, store_cookies-IsJar}
use wget.Vector.Numbers.{by_insertion, by_insertion-Sorts, insertion_sort}

abbrev plain : Cookie
plain = record {
  name = codes "id";
  value = codes "7";
  domain = some (codes "example.org");
  path = some (codes "/docs");
  expires = 0;
  maxage = 0;
  creation = 100;
  sort_age = 0;
  normalized = false;
  persistent = false;
  host_only = false;
  secure_only = false;
  http_only = false;
}

abbrev page : Iri
page = record {
  https = true;
  host = codes "www.example.org";
  path = some (codes "docs/a/index.html");
}

abbrev ready : Cookie
ready = (normalize ascii (some page) plain).0

abbrev second : Cookie
second = record ready { name = codes "tag"; value = codes "x" }

domain_dot : domain_match (codes "example.org") (codes "www.example.org") ≡ true
unfolding domain_match streq starts last_index path_match
domain_dot = refl

domain_no_dot : domain_match (codes "example.org") (codes "badexample.org") ≡ false
unfolding domain_match streq starts last_index path_match
domain_no_dot = refl

path_inside : path_match (codes "/foo") (some (codes "foobar/x")) ≡ true
unfolding path_match streq starts last_index
path_inside = refl

path_outside : path_match (codes "/foo") (some (codes "foo")) ≡ false
unfolding path_match streq starts last_index
path_outside = refl

-- The header has the cookies in the order in which they were stored.
header_two :
    create_request_header by_insertion 200 page (second ∷ record ready { sort_age = 1 } ∷ [])
    ≡ some (codes "tag=x; id=7")
unfolding normalize create_request_header insertion_sort streq starts last_index path_match
header_two = refl

-- A cookie with the same domain, name and path takes the old cookie's place.
store_again :
    (store_cookies by_insertion
      (db_init none)
      (ready ∷ second ∷ record ready { value = codes "8"; creation = 300 } ∷ [])).cookies.entry
    ≡ record ready { value = codes "8"; sort_age = 1 } ∷ record second { sort_age = 2 } ∷ []
unfolding normalize store_cookies db_init insertion_sort streq starts last_index path_match
store_again = refl

domain_match_iff_example :
    (domain_match (codes "example.org") (codes "www.example.org") ≡ true)
    ↔ Covers (codes "example.org") (codes "www.example.org")
domain_match_iff_example = domain_match_iff (codes "example.org") (codes "www.example.org")

path_match_slash_example :
    (path_match (codes "/foo") (some (codes "foobar/x")) ≡ true)
    ↔ IsPrefix (codes "foo") (directory (some (codes "foobar/x")))
path_match_slash_example = path_match_slash (codes "foo") (some (codes "foobar/x"))

create_request_header_lem_example :
    (order : List Cookie) × (create_request_header by_insertion 200 page (second ∷ ready ∷ [])
      ≡ header_of order)
    × Perm order (kept (selected 200 page) (second ∷ ready ∷ []))
    × InOrder order
create_request_header_lem_example =
    create_request_header_lem by_insertion by_insertion-Sorts 200 page (second ∷ ready ∷ [])

abbrev jar : CookieDb
jar = db_init (some (λ d. false))

store_cookie_refused_example : store_cookie by_insertion jar plain ≡ (jar, minus_one)
store_cookie_refused_example = store_cookie_refused by_insertion jar plain (inl refl)

store_cookies-IsJar_example :
    IsJar (store_cookies by_insertion (db_init none) (ready ∷ second ∷ ready ∷ []))
store_cookies-IsJar_example =
    store_cookies-IsJar by_insertion by_insertion-Sorts none (ready ∷ second ∷ ready ∷ [])
