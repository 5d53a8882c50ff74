-- ===== src/Cookie/Request.antt =====
-- libwget/cookie.c: `wget_cookie_create_request_header`. The time is an argument, `qsort_r` is the
-- parameter `Sorter`, and the collected vector holds the cookies themselves for pointers to them.
pub mod Header
use wget.Cookie.Match.{domain_match, path_match}
use wget.Cookie.{Cookie, Iri, text, compare_cookie2}
use wget.Prelude.{
  ℕ, Bool, true, false, not, ◌&&◌, ◌||◌, List, [], ◌∷◌, ◌++◌, Option, none, some, length, leb, ◌==◌,
  if◌then◌else◌, Bytes, codes, streq, negsuc,
}
use wget.Vector.{Vector, Sorter, create, add, sort}

-- the tests of the first loop: `false` is a `continue`
unfoldable pub selected : ℕ → Iri → Cookie → Bool
selected now iri c =
    if c.host_only && not (streq (text c.domain) iri.host)
    then false
    else if not c.host_only && not (domain_match (text c.domain) iri.host)
    then false
    else if not (c.expires == 0) && leb c.expires now
    then false
    else if c.secure_only && not iri.https
    then false
    else if not (path_match (text c.path) iri.path)
    then false
    else true

-- the first loop
unfoldable pub collect : ℕ → Iri → List Cookie → Vector Cookie → Vector Cookie
unfolding selected add
collect now iri [] found = found
collect now iri (c ∷ cs) found =
    collect now iri cs (if selected now iri c then (add found c).0 else found)

-- `name=value`
abbrev pub pair : Cookie → Bytes
pair c = c.name ++ (b'=' ∷ c.value)

-- the last loop
unfoldable pub print : List Cookie → Bytes → Bytes
print [] buf = buf
print (c ∷ cs) buf =
    print cs (if length buf == 0 then buf ++ pair c else buf ++ (codes "; " ++ pair c))

-- `init ? buf.data : NULL`
unfoldable pub result : List Cookie → Option Bytes
unfolding print
result [] = none
result (c ∷ cs) = some (print (c ∷ cs) [])

-- `wget_cookie_create_request_header` for a database and an IRI that are not NULL
unfoldable pub create_request_header : Sorter Cookie → ℕ → Iri → List Cookie → Option Bytes
unfolding collect create sort result compare_cookie2
create_request_header qsort now iri cookies =
    result
      (sort qsort (collect now iri cookies (create 16 (negsuc 1) (some compare_cookie2)))).entry
