-- ===== src/Cookie/Normalize.antt =====
-- libwget/cookie.c: `wget_cookie_normalize`. A refused cookie is returned as it was left, with -1.
pub mod Accepted
use wget.Cookie.Match.{domain_match}
use wget.Cookie.{Cookie, Iri, text}
use wget.Prelude.{
  ℕ, Bool, true, false, not, ◌&&◌, ◌||◌, [], ◌∷◌, Option, none, some, map, take, ◌==◌,
  if◌then◌else◌, Bytes, codes, at, streq, starts, last_index, Ctype, ℤ, pos, minus_one,
}

-- `!wget_strcmp(cookie->path, "/")`
pub path_is_root : Option Bytes → Bool
path_is_root none = false
path_is_root (some p) = streq p (codes "/")

-- `if (!wget_strncmp(cookie->name, "__Secure-", 9)) … else if …`: whether the cookie goes on
pub prefix_allowed : Iri → Cookie → Bool
unfolding path_is_root
prefix_allowed iri c =
    if starts (codes "__Secure-") c.name
    then c.secure_only && iri.https
    else if starts (codes "__Host-") c.name
    then (c.secure_only && iri.https) && (c.host_only && path_is_root c.path)
    else true

-- `if (!cookie->domain) … if (*cookie->domain) … else …`: the domain and `host_only`, or none for
-- a domain that does not match
pub fix_domain : Iri → Bytes → Option (Bytes × Bool)
unfolding domain_match
fix_domain iri [] = some (iri.host, true)
fix_domain iri (d ∷ domain) =
    if streq (d ∷ domain) iri.host
    then some (d ∷ domain, true)
    else if domain_match (d ∷ domain) iri.host
    then some (d ∷ domain, false)
    else none

-- the directory of the request's path, or `/`
pub default_path : Option Bytes → Bytes
default_path none = codes "/"
default_path (some p) = elim (last_index b'/' p) [
  | none ↦ codes "/"
  | some i ↦ if i == 0 then codes "/" else take i p
]

-- `if (!cookie->path || *cookie->path != '/') …`
pub fix_path : Iri → Option Bytes → Bytes
unfolding default_path
fix_path iri none = default_path iri.path
fix_path iri (some p) = if at p 0 == b'/' then p else default_path iri.path

-- behind the check of the domain
pub accept : Iri → Cookie → Option (Bytes × Bool) → Cookie × ℤ
unfolding fix_path
accept iri c none = (c, minus_one)
accept iri c (some (domain, host_only)) = (
  record c {
    domain = some domain;
    host_only = host_only;
    path = some (fix_path iri c.path);
    normalized = true;
  },
  pos 0,
)

module _ (ctype : Ctype) where
  -- `wget_strtolower`
  pub lower : Bytes → Bytes
  lower = map (λ c. if ctype.isupper c then ctype.tolower c else c)

  pub lower_domain : Option Bytes → Option Bytes
  unfolding lower
  lower_domain none = none
  lower_domain (some d) = some (lower d)

  -- the part in front of `if (iri)`
  pub prepare : Cookie → Cookie
  unfolding lower_domain
  prepare c =
      let expires = if c.maxage == 0 then c.expires else c.maxage in
      record c {
        normalized = false;
        expires = expires;
        persistent = not (expires == 0);
        domain = lower_domain c.domain;
      }

  -- `_wget_cookie_normalize_cookie`
  unfoldable pub normalize : Option Iri → Cookie → Cookie × ℤ
  unfolding prepare prefix_allowed fix_domain accept
  normalize none c = (record (prepare c) { normalized = true }, pos 0)
  normalize (some iri) c =
      let p = prepare c in
      if prefix_allowed iri p
      then accept iri (record p { domain = some (text p.domain) }) (fix_domain iri (text p.domain))
      else (p, minus_one)
