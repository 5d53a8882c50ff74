-- ===== src/Cookie/Normalize/Accepted.antt =====
-- What `wget_cookie_normalize` guarantees of a cookie that it accepts.
use wget.Cookie.Match.Domain.{Covers}
use wget.Cookie.{Cookie, Iri, text}
use wget.Prelude.{◌≡◌, ◌≢◌, true, false, not, none, some, ◌==◌, if◌then◌else◌, codes, starts}

-- An accepted cookie: it is marked, its domain covers the host and is the host if the cookie is for
-- the host only, it has a path, and its lifetime is that of the header with max-age first. A name
-- that begins with `__Secure-` came with the flag and over HTTPS; one that begins with `__Host-` came
-- with the path `/` and with `host_only` set too, before the call.
pub record Accepted (iri : Iri) (old c : Cookie) : Type 0 where
  pub marked : c.normalized ≡ true
  pub host_only : c.host_only ≡ true → text c.domain ≡ iri.host
  pub subdomains : c.host_only ≡ false → Covers (text c.domain) iri.host
  pub has_path : c.path ≢ none
  pub lifetime : c.expires ≡ (if old.maxage == 0 then old.expires else old.maxage)
  pub persistent : c.persistent ≡ not (c.expires == 0)
  pub secure_prefix :
      starts (codes "__Secure-") c.name ≡ true → (c.secure_only ≡ true) × (iri.https ≡ true)
  pub host_prefix :
      starts (codes "__Host-") c.name ≡ true
      → (c.secure_only ≡ true)
        × (iri.https ≡ true)
        × (old.host_only ≡ true)
        × (old.path ≡ some (codes "/"))
