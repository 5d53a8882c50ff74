-- ===== src/Cookie/Match.antt =====
-- libwget/cookie.c: `_domain_match` and `_path_match`.
pub mod Domain
pub mod Prefix
pub mod Within
use wget.Prelude.{
  ℕ, ◌+◌, ◌-◌, Bool, true, false, ◌&&◌, ◌||◌, [], ◌∷◌, Option, none, some, length, drop, ltb, leb,
  ◌==◌, if◌then◌else◌, Bytes, at, streq, starts, last_index,
}

-- `_domain_match`; `p` is `host + host_length - domain_length`
unfoldable pub domain_match : Bytes → Bytes → Bool
domain_match domain host =
    let before = length host - length domain in
    if streq domain host
    then true
    else if leb (length host) (length domain)
    then false
    else streq (drop before host) domain && at host (before - 1) == b'.'

-- `if (*p == '/') p++`
pub skip_slash : Bytes → Bytes
skip_slash p = if at p 0 == b'/' then drop 1 p else p

-- `request_path` and `iri_path_length` behind the search for the last slash
pub directory : Option Bytes → Bytes × ℕ
directory none = ([], 0)
directory (some request) =
    let p = skip_slash request in elim (last_index b'/' p) [ none ↦ ([], 0) | some i ↦ (p, i) ]

-- `_path_match` from the lengths on; `slash` is `cookie_path_slash`
pub prefix_match : Bool → Bytes → Bytes × ℕ → Bool
prefix_match slash cookie (request, size) =
    let n = length cookie in
    if ltb size n
    then false
    else if size == 0 && n == 0
    then true
    else if starts cookie request
    then at request n == 0
      || ((ltb 0 n && at cookie (n - 1) == b'/') || slash)
      || at request n == b'/'
    else false

-- `_path_match`
unfoldable pub path_match : Bytes → Option Bytes → Bool
unfolding skip_slash directory prefix_match
path_match cookie request =
    prefix_match (at cookie 0 == b'/') (skip_slash cookie) (directory request)
