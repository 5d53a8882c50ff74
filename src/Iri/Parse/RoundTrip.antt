-- ===== src/Iri/Parse/RoundTrip.antt =====
-- An IRI that is written from its components.
use wget.Prelude.{
  refl, ℕ, ◌<◌, ◌≡◌, ap, ◌∙◌, Bool, not, [], ◌∷◌, ◌++◌, Option, some, Bytes, at, drop, length,
  length-append, arith, Ctype, Stops, skip-stop, ◌==◌,
}
use wget.Iri.Parse.{
  Conversions, Iri, Scheme, Tail, iri_parse, parse_rest, parse_tail, parse_authority, finished,
  ends_authority, converted, default_port, or_port, is_given, unescaped, cut,
}
use wget.Iri.Parse.Pieces.{Each, Each-weaken, is_plain, cut-append, unescaped-Each}
use wget.Iri.Parse.Schemes.{Supported, scheme_name, print_scheme, plain, secure, parse_scheme-print}
use wget.Iri.Parse.Authorities.{
  Login, no_login, user_only, user_password, print_port, IsLogin, no_login, user_only,
  user_password, print_port, IsHost, IsPort, user_of, password_of, port_of, print_authority,
  authority_char, authority-Each,
}
use wget.Iri.Parse.Logins.{parse_authority-print, host_name-Each}

-- scheme, authority and what follows
abbrev pub print_url : Supported → Bytes → Bytes
print_url s rest = print_scheme s ++ (b':' ∷ b'/' ∷ b'/' ∷ rest)

-- `wget_iri_t` of the components
abbrev pub iri_of :
    Conversions → Bytes → Supported → Login → Bytes → Option (Bytes × ℕ) → Tail → Iri
iri_of conv uri scheme login host port tail = record {
  uri = uri;
  scheme = scheme_name scheme;
  port = or_port (port_of port) (default_port (scheme_name scheme));
  port_given = is_given (port_of port);
  userinfo = user_of login;
  password = password_of login;
  host = some host;
  path = tail.path;
  query = tail.query;
  fragment = tail.fragment;
  is_ip_address = conv.is_ip host;
}

-- the tail in UTF-8
abbrev pub tail_utf8 : Conversions → Tail → Tail
tail_utf8 conv tail = record {
  path = converted conv tail.path;
  query = converted conv tail.query;
  fragment = converted conv tail.fragment;
}

pub Stops-Each :
    (test : ℕ → Bool) (s more : Bytes)
    → 0 < length s
    → Each (λ c. not (test c)) s
    → Stops test (s ++ more)
Stops-Each test [] more h k = absurd (omega (arith, h))
Stops-Each test (c ∷ s) more h k = ground (arith, k.0)

authority-filled :
    (login : Login) (host : Bytes) (port : Option (Bytes × ℕ))
    → IsHost host
    → 0 < length (print_authority login host port)
authority-filled no_login host port h =
    rw (length-append host (print_port port)) (omega (arith, h.0))
authority-filled (user_only user) host port h =
    rw (length-append user (b'@' ∷ (host ++ print_port port))) (omega arith)
authority-filled (user_password user password) host port h =
    rw (length-append (user ++ (b':' ∷ password)) (b'@' ∷ (host ++ print_port port))) (omega arith)

module _ (ctype : Ctype) (conv : Conversions) where
  abbrev parse_cut : Bytes → Scheme → Bytes × ℕ × Bytes → Option Iri
  parse_cut uri scheme (authority, c, rest) =
      let parsed = parse_authority ctype conv (unescaped ctype authority) in
      finished ctype conv uri scheme parsed (parse_tail ctype c rest) parsed.host

  pub iri_parse-scheme :
      (scheme : Supported) (rest : Bytes)
      → iri_parse ctype conv (print_url scheme rest)
        ≡ parse_rest ctype conv (print_url scheme rest) (scheme_name scheme) (b'/' ∷ b'/' ∷ rest)
  unfolding iri_parse
  iri_parse-scheme plain rest =
      rw (skip-stop ctype.isspace (print_url plain rest) (ctype.isspace_ascii b'h')) (
        ap (λ r. parse_rest ctype conv (print_url plain rest) r.0 r.1)
          (parse_scheme-print ctype plain (b'/' ∷ rest)))
  iri_parse-scheme secure rest =
      rw (skip-stop ctype.isspace (print_url secure rest) (ctype.isspace_ascii b'h')) (
        ap (λ r. parse_rest ctype conv (print_url secure rest) r.0 r.1)
          (parse_scheme-print ctype secure (b'/' ∷ rest)))

  pub parse_rest-slashes :
      (uri s : Bytes) (scheme : Scheme)
      → parse_rest ctype conv uri scheme (b'/' ∷ b'/' ∷ s) ≡ parse_rest ctype conv uri scheme s
  unfolding parse_rest
  parse_rest-slashes uri s scheme = refl

  -- from the authority on: the bytes of the authority as they come
  pub parse_rest-cut :
      (uri authority more : Bytes) (scheme : Scheme)
      → 0 < length authority
      → Each (λ c. not (ends_authority c)) authority
      → Stops (λ c. not (ends_authority c)) more
      → let parsed = parse_authority ctype conv (unescaped ctype authority) in
        parse_rest ctype conv uri scheme (authority ++ more)
        ≡ finished ctype conv uri scheme parsed
            (parse_tail ctype (at more 0) (drop 1 more))
            parsed.host
  unfolding parse_rest
  parse_rest-cut uri authority more scheme filled h k =
      let no_slash =
        Each-weaken (λ c. not (ends_authority c)) (λ c. not (c == b'/')) authority
          (λ c g. ground (arith, g)) h in
      ap (λ r. parse_cut uri scheme (cut ends_authority r))
        (skip-stop (λ c. c == b'/') (authority ++ more)
          (Stops-Each (λ c. c == b'/') authority more filled no_slash))
      ∙ ap (parse_cut uri scheme) (cut-append ends_authority authority more h k)

  -- the IRI of an authority that is unescaped to a printed one
  pub iri_parse-raw :
      (scheme : Supported) (raw : Bytes) (login : Login) (host : Bytes) (port : Option (Bytes × ℕ))
      (more : Bytes)
      → IsLogin login
      → IsHost host
      → IsPort conv port
      → 0 < length raw
      → Each (λ c. not (ends_authority c)) raw
      → unescaped ctype raw ≡ print_authority login host port
      → Stops (λ c. not (ends_authority c)) more
      → let uri = print_url scheme (raw ++ more) in
        iri_parse ctype conv uri
        ≡ some (
            iri_of conv uri scheme login host port
              (tail_utf8 conv (parse_tail ctype (at more 0) (drop 1 more))))
  iri_parse-raw scheme raw login host port more l h k filled inside written stops =
      let uri = print_url scheme (raw ++ more) in
      let name = scheme_name scheme in
      let tail = parse_tail ctype (at more 0) (drop 1 more) in
      iri_parse-scheme scheme (raw ++ more)
      ∙ parse_rest-slashes uri (raw ++ more) name
      ∙ parse_rest-cut uri raw more name filled inside stops
      ∙ ap (λ parsed. finished ctype conv uri name parsed tail parsed.host)
          (ap (parse_authority ctype conv) written
            ∙ parse_authority-print ctype conv login host port l h k)
      ∙ ap (λ name. some (iri_of conv uri scheme login name port (tail_utf8 conv tail)))
          (host_name-Each ctype conv host h.1)

  -- Scheme, user, password, host and port are read back, whatever stands behind the authority.
  pub iri_parse-authority :
      (scheme : Supported) (login : Login) (host : Bytes) (port : Option (Bytes × ℕ)) (more : Bytes)
      → IsLogin login
      → IsHost host
      → IsPort conv port
      → Stops (λ c. not (ends_authority c)) more
      → let uri = print_url scheme (print_authority login host port ++ more) in
        iri_parse ctype conv uri
        ≡ some (
            iri_of conv uri scheme login host port
              (tail_utf8 conv (parse_tail ctype (at more 0) (drop 1 more))))
  iri_parse-authority scheme login host port more l h k stops =
      let authority = print_authority login host port in
      let chars = authority-Each conv login host port l h k in
      let inside =
        Each-weaken authority_char (λ c. not (ends_authority c)) authority
          (λ c g. ground (arith, g)) chars in
      let kept =
        unescaped-Each ctype authority
          (Each-weaken authority_char is_plain authority (λ c g. ground (arith, g)) chars) in
      iri_parse-raw scheme authority login host port more l h k (authority-filled login host port h)
        inside kept stops
