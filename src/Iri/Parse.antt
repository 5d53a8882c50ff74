-- ===== src/Iri/Parse.antt =====
-- libwget/iri.c: `wget_iri_parse`. A string that is cut by a NUL is split; a string that is unescaped in
-- place ends at the first NUL that comes out. The components are lists of bytes.
pub mod Pieces
pub mod Schemes
pub mod Tails
pub mod Authorities
pub mod Logins
pub mod RoundTrip
pub mod Whole
pub mod Tests
use wget.Prelude.{
  ℕ, suc, Bool, true, false, not, ◌&&◌, ◌||◌, [], ◌∷◌, Option, none, some, drop, map, ltb, ◌==◌,
  if◌then◌else◌, Bytes, codes, at, Ctype, ℤ, pos, negsuc, span, skip, last_index, take,
}
use wget.Iri.Percent.{isgendelim, unescape}
use wget.Utils.{strtolower, str_needs_encoding}

-- what is called outside the repository: iconv for the encoding of the string, libidn, `inet_pton` and
-- `atoi`
pub record Conversions : Type 0 where
  pub to_utf8 : Bytes → Option Bytes
  pub idn : Bytes → Bytes
  pub is_ip : Bytes → Bool
  pub atoi : Bytes → ℤ

-- `wget_iri_schemes`, and a scheme that is not in it
pub data Scheme : Type 0 where
  http https : Scheme
  other_scheme : Bytes → Scheme

-- `wget_iri_t`; `display` is never set, and the connection part is computed where it is asked for
pub record Iri : Type 0 where
  pub uri : Bytes
  pub scheme : Scheme
  pub port : ℕ
  pub port_given : Bool
  pub userinfo : Option Bytes
  pub password : Option Bytes
  pub host : Option Bytes
  pub path : Option Bytes
  pub query : Option Bytes
  pub fragment : Option Bytes
  pub is_ip_address : Bool

-- the string in front of the first NUL
abbrev pub c_string : Bytes → Bytes
c_string s = (span (λ c. not (c == 0)) s).0

-- `while (*s && !stops(*s)) s++; c = *s; if (c) *s++ = 0;`: what is cut off, `c`, and the rest
abbrev pub cut : (ℕ → Bool) → Bytes → Bytes × ℕ × Bytes
cut stops s = let (front, rest) = span (λ c. not (stops c)) s in (front, at rest 0, drop 1 rest)

abbrev pub ends_authority : ℕ → Bool
ends_authority c = c == b'/' || (c == b'?' || c == b'#')

abbrev pub ends_path : ℕ → Bool
ends_path c = c == b'?' || c == b'#'

abbrev pub ends_query : ℕ → Bool
ends_query c = c == b'#'

abbrev pub default_port : Scheme → ℕ
default_port http = 80
default_port https = 443
default_port (other_scheme s) = 0

-- what stands behind the authority
pub record Tail : Type 0 where
  pub path : Option Bytes
  pub query : Option Bytes
  pub fragment : Option Bytes

-- what the authority holds; the port where one is given
pub record Authority : Type 0 where
  pub userinfo : Option Bytes
  pub password : Option Bytes
  pub host : Option Bytes
  pub port : Option ℕ

abbrev pub or_port : Option ℕ → ℕ → ℕ
or_port none port = port
or_port (some given) port = given

abbrev pub is_given : Option ℕ → Bool
is_given none = false
is_given (some port) = true

-- `if (port > 0 && port < 65536) …`
abbrev pub valid_port : ℤ → Option ℕ
valid_port (negsuc n) = none
valid_port (pos port) = if ltb 0 port && ltb port 65536 then some port else none

-- behind `[`: what stands in front of the last `]` and behind it
abbrev pub bracket_host : Bytes → Option ℕ → Bytes × Bytes
bracket_host s none = (drop 1 s, [])
bracket_host s (some i) = (drop 1 (take i s), drop (suc i) s)

-- the host, and what stands behind it
abbrev pub host_part : Bytes → Bytes × Bytes
host_part s =
    if at s 0 == b'[' then bracket_host s (last_index b']' s) else span (λ c. not (c == b':')) s

abbrev pub behind_colon : Bytes → Option Bytes
behind_colon [] = none
behind_colon (c ∷ s) = some s

abbrev pub plus_to_space : ℕ → ℕ
plus_to_space c = if c == b'+' then b' ' else c

module _ (ctype : Ctype) where
  -- `wget_iri_unescape_inline`, as the C string that it leaves
  abbrev pub unescaped : Bytes → Bytes
  unescaped s = c_string (unescape ctype s).1

  -- `_iri_isscheme`
  abbrev pub isscheme : ℕ → Bool
  isscheme c = ctype.isalnum c || (c == b'+' || (c == b'-' || c == b'.'))

  abbrev pub all_scheme : Bytes → Bool
  all_scheme [] = true
  all_scheme (c ∷ s) = isscheme c && all_scheme s

  -- the search in `wget_iri_schemes`
  abbrev pub scheme_of : Bytes → Scheme
  scheme_of p =
      if ctype.strcaseeq (codes "http") p
      then http
      else if ctype.strcaseeq (codes "https") p
      then https
      else other_scheme (strtolower ctype p)

  -- the scheme, and what stands behind its colon
  unfoldable pub parse_scheme : Bytes → Scheme × Bytes
  parse_scheme s =
      let (word, rest) = span (λ c. not (isgendelim c)) s in
      if ctype.isalpha (at s 0)
        && (all_scheme word && (at rest 0 == b':' && not (ctype.isdigit (at rest 1))))
      then (scheme_of (unescaped word), drop 1 rest)
      else (http, s)

  -- `if (c == '#') …`
  abbrev pub fragment_from : ℕ → Bytes → Option Bytes
  fragment_from c s = if c == b'#' then some (unescaped s) else none

  -- `if (c == '?') …` and what follows
  abbrev pub query_from : Option Bytes → ℕ → Bytes → Tail
  query_from path c s =
      let (query, d, rest) = cut ends_query s in
      if c == b'?'
      then record {
        path = path;
        query = some (map plus_to_space query);
        fragment = fragment_from d rest;
      }
      else record { path = path; query = none; fragment = fragment_from c s }

  -- `if (c == '/') …` and what follows
  unfoldable pub parse_tail : ℕ → Bytes → Tail
  parse_tail c s =
      let (path, d, rest) = cut ends_path s in
      if c == b'/' then query_from (some (unescaped path)) d rest else query_from none c s

module _ (conv : Conversions) where
  abbrev pub utf8_or : Bytes → Option Bytes → Bytes
  utf8_or s none = s
  utf8_or s (some t) = t

  -- `if (wget_str_needs_encoding(s)) …`
  unfoldable pub in_utf8 : Bytes → Bytes
  in_utf8 s = if str_needs_encoding s then utf8_or s (conv.to_utf8 s) else s

  -- `wget_str_to_ascii`
  abbrev pub str_to_ascii : Bytes → Bytes
  str_to_ascii s = if str_needs_encoding s then conv.idn s else s

  abbrev pub converted : Option Bytes → Option Bytes
  converted none = none
  converted (some s) = some (in_utf8 s)

module _ (ctype : Ctype) (conv : Conversions) where
  -- `if (*s == ':') …`
  abbrev pub parse_port : Bytes → Option ℕ
  parse_port s =
      if at s 0 == b':' && ctype.isdigit (at s 1) then valid_port (conv.atoi (drop 1 s)) else none

  abbrev pub with_host : Option Bytes → Option Bytes → Bytes → Authority
  with_host userinfo password s =
      let (host, rest) = host_part s in
      record { userinfo = userinfo; password = password; host = some host; port = parse_port rest }

  -- from what stands in front of `@` and from it on
  abbrev pub with_userinfo : Bytes → Bytes × Bytes → Authority
  with_userinfo s (front, []) = with_host none none s
  with_userinfo s (front, c ∷ back) =
      let (user, password) = span (λ d. not (d == b':')) front in
      with_host (some user) (behind_colon password) back

  -- `if (*authority) …`
  unfoldable pub parse_authority : Bytes → Authority
  parse_authority [] = record { userinfo = none; password = none; host = none; port = none }
  parse_authority (c ∷ s) = with_userinfo (c ∷ s) (span (λ d. not (d == b'@')) (c ∷ s))

  unfoldable pub host_name : Bytes → Bytes
  host_name host = str_to_ascii conv (in_utf8 conv (strtolower ctype host))

  -- from the components on; NULL for http and https without a host
  abbrev pub finished : Bytes → Scheme → Authority → Tail → Option Bytes → Option Iri
  finished uri scheme authority tail (some host) = some (record {
    uri = uri;
    scheme = scheme;
    port = or_port authority.port (default_port scheme);
    port_given = is_given authority.port;
    userinfo = authority.userinfo;
    password = authority.password;
    host = some (host_name host);
    path = converted conv tail.path;
    query = converted conv tail.query;
    fragment = converted conv tail.fragment;
    is_ip_address = conv.is_ip (host_name host);
  })
  finished uri (other_scheme s) authority tail none = some (record {
    uri = uri;
    scheme = other_scheme s;
    port = 0;
    port_given = false;
    userinfo = none;
    password = none;
    host = none;
    path = converted conv tail.path;
    query = converted conv tail.query;
    fragment = converted conv tail.fragment;
    is_ip_address = false;
  })
  finished uri http authority tail none = none
  finished uri https authority tail none = none

  -- behind the scheme
  unfoldable pub parse_rest : Bytes → Scheme → Bytes → Option Iri
  parse_rest uri scheme s =
      let (authority, c, rest) = cut ends_authority (skip (λ d. d == b'/') s) in
      let parsed = parse_authority (unescaped ctype authority) in
      finished uri scheme parsed (parse_tail ctype c rest) parsed.host

  -- `wget_iri_parse` of the string from the first byte that is no space on
  abbrev pub parse_url : Bytes → Option Iri
  parse_url [] = none
  parse_url (c ∷ s) =
      let (scheme, rest) = parse_scheme ctype (c ∷ s) in parse_rest (c ∷ s) scheme rest

  -- `wget_iri_parse`
  unfoldable pub iri_parse : Bytes → Option Iri
  iri_parse url = parse_url (skip ctype.isspace url)
