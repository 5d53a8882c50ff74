-- ===== src/Iri/Resolve/Origin.antt =====
-- A reference that is resolved against a base.
use wget.Prelude.{
  ℕ, ◌≡◌, refl, ap, ◌∙◌, sym, Bool, true, false, ◌&&◌, [], ◌∷◌, ◌++◌, append_assoc, append-nil,
  Option, none, some, length, leb, ◌==◌, if◌then◌else◌, Bytes, codes, at, arith, Ctype,
}
use wget.Iri.Parse.{Conversions, Iri, default_port, or_port, is_given, iri_parse, parse_tail}
use wget.Iri.Parse.Schemes.{Supported, plain, secure, scheme_name, print_scheme}
use wget.Iri.Parse.Authorities.{no_login, IsHost, IsPort, port_of, print_authority}
use wget.Iri.Parse.RoundTrip.{print_url, iri_of, tail_utf8, iri_parse-authority}
use wget.Iri.Resolve.{
  Printf, scheme_text, network_path, directory, has_colon, connection_part, resolved,
  relative_to_abs, parse_base,
}
use wget.Iri.DotSegments.{normalize_path}

abbrev pub port_text : Printf → Iri → Option (Bytes × ℕ)
port_text printf base = if base.port_given then some (printf.decimal base.port, base.port) else none

-- a base of a supported scheme with a host, and a port that is the default or is read back as it is printed
pub record IsOrigin (conv : Conversions) (printf : Printf) (base : Iri) (scheme : Supported)
    (host : Bytes) : Type 0 where
  pub scheme_fits : base.scheme ≡ scheme_name scheme
  pub host_fits : base.host ≡ some host
  pub host_plain : IsHost host
  pub port_read : IsPort conv (port_text printf base)
  pub port_fits :
      or_port (port_of (port_text printf base)) (default_port (scheme_name scheme)) ≡ base.port

-- what stands behind the connection part
abbrev pub resolved_path : Iri → Bytes → Bytes
resolved_path base url =
    normalize_path (if at url 0 == b'/' then url else directory base.path ++ url)

scheme_text-print : (s : Supported) → scheme_text (scheme_name s) ≡ print_scheme s
scheme_text-print plain = refl
scheme_text-print secure = refl

connection_shape :
    (printf : Printf) (given : Bool) (port : ℕ) (scheme : Supported) (host more : Bytes)
    → (if given
          then (print_scheme scheme ++ (codes "://" ++ host)) ++ (b':' ∷ printf.decimal port)
          else print_scheme scheme ++ (codes "://" ++ host))
        ++ more
      ≡ print_url scheme (
          print_authority no_login host (if given then some (printf.decimal port, port) else none)
          ++ more)
connection_shape printf true port scheme host more =
    let front = print_scheme scheme in
    let text = b':' ∷ printf.decimal port in
    append_assoc (front ++ (codes "://" ++ host)) text more
    ∙ append_assoc front (codes "://" ++ host) (text ++ more)
    ∙ ap (print_url scheme) (sym (append_assoc host text more))
connection_shape printf false port scheme host more =
    append_assoc (print_scheme scheme) (codes "://" ++ host) more
    ∙ ap (print_url scheme) (sym (append_assoc host [] more))

choose :
    (slash second long colon : Bool) (network val url other : Bytes) (at_path : Bytes → Bytes)
    → (slash && second) ≡ false
    → colon ≡ false
    → (if slash
        then (if long && second then network else at_path url)
        else if colon
        then val
        else at_path other)
      ≡ at_path (if slash then url else other)
choose true true long colon network val url other at_path h k = absurd (ground (arith, h))
choose true false true colon network val url other at_path h k = refl
choose true false false colon network val url other at_path h k = refl
choose false second long true network val url other at_path h k = absurd (ground (arith, k))
choose false second long false network val url other at_path h k = refl

module _ (ctype : Ctype) (conv : Conversions) (printf : Printf) where
  pub connection_part-print :
      (base : Iri) (scheme : Supported) (host more : Bytes)
      → base.scheme ≡ scheme_name scheme
      → base.host ≡ some host
      → connection_part printf base ++ more
        ≡ print_url scheme (print_authority no_login host (port_text printf base) ++ more)
  unfolding connection_part
  connection_part-print base scheme host more h k = rw h (
      rw k (
        rw (scheme_text-print scheme)
          (connection_shape printf base.port_given base.port scheme host more)))

  -- a reference without a colon that does not begin with `//`
  pub resolved-path :
      (base : Iri) (url : Bytes)
      → has_colon url ≡ false
      → (at url 0 == b'/' && at url 1 == b'/') ≡ false
      → resolved printf base url [] ≡ connection_part printf base ++ (b'/' ∷ resolved_path base url)
  resolved-path base url h k = rw (append-nil url) (
      choose (at url 0 == b'/') (at url 1 == b'/') (leb 2 (length url)) (has_colon url)
        (scheme_text base.scheme ++ (b':' ∷ network_path url)) url url (directory base.path ++ url)
        (λ path. connection_part printf base ++ (b'/' ∷ normalize_path path)) k h)

  -- the IRI that it is resolved to
  parse_base-path :
      (base : Iri) (scheme : Supported) (host url : Bytes)
      → IsOrigin conv printf base scheme host
      → has_colon url ≡ false
      → (at url 0 == b'/' && at url 1 == b'/') ≡ false
      → let port = port_text printf base in
        let path = b'/' ∷ resolved_path base url in
        parse_base ctype conv printf (some base) url
        ≡ some (
            iri_of conv
              (print_url scheme (print_authority no_login host port ++ path))
              scheme
              no_login
              host
              port
              (tail_utf8 conv (parse_tail ctype b'/' (resolved_path base url))))
  unfolding parse_base relative_to_abs
  parse_base-path base scheme host url h k g =
      ap (iri_parse ctype conv) (
        resolved-path base url k g
        ∙ connection_part-print base scheme host (b'/' ∷ resolved_path base url) h.scheme_fits
            h.host_fits)
      ∙ iri_parse-authority ctype conv scheme no_login host (port_text printf base)
          (b'/' ∷ resolved_path base url) tt h.host_plain h.port_read refl

  given_port :
      (given : Bool) (port : ℕ) (text : Bytes)
      → is_given (port_of (if given then some (text, port) else none)) ≡ given
  given_port true port text = refl
  given_port false port text = refl

  is_given-port_text : (base : Iri) → is_given (port_of (port_text printf base)) ≡ base.port_given
  is_given-port_text base = given_port base.port_given base.port (printf.decimal base.port)

  -- A reference without a colon that does not begin with `//`, resolved against a base of a supported scheme
  -- whose host and port the parser reads back, is an IRI with the scheme, the host and the port of the base and without a user: no path,
  -- query or fragment of a link, whatever dots and slashes it holds, leads to another server.
  pub parse_base-origin :
      (base : Iri) (scheme : Supported) (host url : Bytes)
      → IsOrigin conv printf base scheme host
      → has_colon url ≡ false
      → (at url 0 == b'/' && at url 1 == b'/') ≡ false
      → (iri : Iri) × (parse_base ctype conv printf (some base) url ≡ some iri)
        × (iri.scheme ≡ base.scheme)
        × (iri.host ≡ base.host)
        × (iri.port ≡ base.port)
        × (iri.port_given ≡ base.port_given)
        × (iri.userinfo ≡ none)
  parse_base-origin base scheme host url h k g = (
    _,
    parse_base-path base scheme host url h k g,
    sym h.scheme_fits,
    sym h.host_fits,
    h.port_fits,
    is_given-port_text base,
    refl,
  )
