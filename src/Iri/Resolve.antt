-- ===== src/Iri/Resolve.antt =====
-- libwget/iri.c: `wget_iri_get_connection_part`, `wget_iri_relative_to_abs` and `wget_iri_parse_base`. What
-- the C code caches in the field `connection_part` is computed at each call.
pub mod Origin
pub mod Colon
pub mod Address
mod Tests
use wget.Prelude.{
  ℕ, suc, Bool, true, false, not, ◌&&◌, ◌||◌, [], ◌∷◌, ◌++◌, Option, none, some, drop, take, length,
  ltb, leb, ◌==◌, if◌then◌else◌, Bytes, codes, at, Ctype, span, last_index,
}
use wget.Iri.Parse.{Conversions, Scheme, http, https, other_scheme, Iri, iri_parse}
use wget.Iri.DotSegments.{normalize_path}

-- what `vsnprintf` writes for `%hu`, and for `%s` of NULL
pub record Printf : Type 0 where
  pub decimal : ℕ → Bytes
  pub null_string : Bytes

-- the base and the buffer
pub data Target : Type 0 where
  no_base : Bool → Target
  with_base : Iri → Target

abbrev pub scheme_text : Scheme → Bytes
scheme_text http = codes "http"
scheme_text https = codes "https"
scheme_text (other_scheme s) = s

-- `strrchr(base->path, '/')`: the bytes up to and with it
abbrev pub up_to : Bytes → Option ℕ → Bytes
up_to path none = []
up_to path (some i) = take (suc i) path

abbrev pub directory : Option Bytes → Bytes
directory none = []
directory (some path) = up_to path (last_index b'/' path)

-- `if ((p = strchr(path + 2, '/'))) _normalize_path(p + 1);`
abbrev pub normalize_behind : Bytes × Bytes → Bytes
normalize_behind (authority, []) = authority
normalize_behind (authority, c ∷ path) = authority ++ (c ∷ normalize_path path)

abbrev pub network_path : Bytes → Bytes
network_path path = take 2 path ++ normalize_behind (span (λ c. not (c == b'/')) (drop 2 path))

-- `memchr(val, ':', len)`
abbrev pub has_colon : Bytes → Bool
has_colon [] = false
has_colon (c ∷ s) = c == b':' || has_colon s

module _ (printf : Printf) where
  abbrev pub or_null : Option Bytes → Bytes
  or_null none = printf.null_string
  or_null (some s) = s

  -- `wget_iri_get_connection_part`
  unfoldable pub connection_part : Iri → Bytes
  connection_part iri =
      let front = scheme_text iri.scheme ++ (codes "://" ++ or_null iri.host) in
      if iri.port_given then front ++ (b':' ∷ printf.decimal iri.port) else front

  -- with a base and a buffer
  abbrev pub resolved : Iri → Bytes → Bytes → Bytes
  resolved base val follow =
      if at (val ++ follow) 0 == b'/'
      then (if leb 2 (length val) && at val 1 == b'/'
          then scheme_text base.scheme ++ (b':' ∷ network_path val)
          else connection_part base ++ (b'/' ∷ normalize_path val))
      else if has_colon val
      then val
      else connection_part base ++ (b'/' ∷ normalize_path (directory base.path ++ val))

  -- `wget_iri_relative_to_abs`: `val` is the reference, `follow` the bytes of the string behind it. What it
  -- returns is the string in the buffer, or the one from `val` on.
  unfoldable pub relative_to_abs : Target → Bytes → Bytes → Option Bytes
  relative_to_abs (with_base base) val follow = some (resolved base val follow)
  relative_to_abs (no_base has_buffer) val follow =
      if at (val ++ follow) 0 == b'/'
      then none
      else if has_colon val
      then some (if has_buffer then val else val ++ follow)
      else if length follow == 0
      then some val
      else none

module _ (ctype : Ctype) (conv : Conversions) (printf : Printf) where
  abbrev pub parse_resolved : Option Bytes → Option Iri
  parse_resolved none = none
  parse_resolved (some url) = iri_parse ctype conv url

  -- `wget_iri_parse_base`
  unfoldable pub parse_base : Option Iri → Bytes → Option Iri
  parse_base (some base) url = parse_resolved (relative_to_abs printf (with_base base) url [])
  parse_base none url = parse_resolved (relative_to_abs printf (no_base false) url [])
