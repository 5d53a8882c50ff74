-- ===== src/Iri/Resolve/Address.antt =====
-- A base with an IPv6 address.
use wget.Prelude.{
  ◌<◌, ◌≡◌, refl, ap, ◌∙◌, true, false, not, ◌&&◌, [], ◌∷◌, ◌++◌, append-nil, none, some, length,
  length-append, ◌==◌, if◌then◌else◌, Bytes, at, arith, Ctype, Stops, All-append, drop,
}
use wget.Iri.Parse.{
  Conversions, Iri, iri_parse, parse_tail, parse_authority, with_userinfo, with_host, host_part,
  host_name, finished, ends_authority,
}
use wget.Iri.Parse.Pieces.{Each, Each-weaken, is_plain, unescaped-Each, span-all}
use wget.Iri.Parse.Schemes.{Supported, scheme_name}
use wget.Iri.Parse.Authorities.{host_char, password_char, print_port}
use wget.Iri.Parse.Logins.{parse_authority-filled, host_part-append, host_name-Each}
use wget.Iri.Parse.RoundTrip.{print_url, parse_rest-cut, parse_rest-slashes, iri_parse-scheme}
use wget.Iri.Resolve.{Printf, has_colon, connection_part, relative_to_abs, parse_base}
use wget.Iri.Resolve.Origin.{connection_part-print, resolved_path, resolved-path}

host_part-colon :
    (front back : Bytes)
    → Each host_char front
    → host_part (front ++ (b':' ∷ back)) ≡ (front, b':' ∷ back)
host_part-colon [] back h = refl
host_part-colon (c ∷ front) back h =
    host_part-append (c ∷ front) (b':' ∷ back) (omega arith, h) refl

colon-Each :
    (front back : Bytes)
    → Each host_char front
    → Each password_char back
    → Each password_char (front ++ (b':' ∷ back))
colon-Each front back h k =
    All-append (λ c. password_char c ≡ true) front (b':' ∷ back)
      (Each-weaken host_char password_char front (λ c g. ground (arith, g)) h) (refl, k)

module _ (ctype : Ctype) (conv : Conversions) where
  parse_authority-bare :
      (s : Bytes)
      → 0 < length s
      → Each password_char s
      → parse_authority ctype conv s ≡ with_host ctype conv none none s
  parse_authority-bare s filled h =
      parse_authority-filled ctype conv s filled
      ∙ ap (with_userinfo ctype conv s) (
          span-all (λ d. not (d == b'@')) s
            (Each-weaken password_char (λ d. not (d == b'@')) s (λ d g. ground (arith, g)) h))

  iri_parse-bare :
      (scheme : Supported) (front back more : Bytes)
      → Each host_char front
      → Each password_char back
      → Stops (λ c. not (ends_authority c)) more
      → let raw = front ++ (b':' ∷ back) in
        iri_parse ctype conv (print_url scheme (raw ++ more))
        ≡ finished ctype conv
            (print_url scheme (raw ++ more))
            (scheme_name scheme)
            (with_host ctype conv none none raw)
            (parse_tail ctype (at more 0) (drop 1 more))
            (some (host_part raw).0)
  iri_parse-bare scheme front back more f b stops =
      let raw = front ++ (b':' ∷ back) in
      let uri = print_url scheme (raw ++ more) in
      let name = scheme_name scheme in
      let tail = parse_tail ctype (at more 0) (drop 1 more) in
      let chars = colon-Each front back f b in
      let filled : 0 < length raw = rw (length-append front (b':' ∷ back)) (omega arith) in
      let inside =
        Each-weaken password_char (λ d. not (ends_authority d)) raw (λ d g. ground (arith, g))
          chars in
      let kept =
        unescaped-Each ctype raw
          (Each-weaken password_char is_plain raw (λ d g. ground (arith, g)) chars) in
      iri_parse-scheme ctype conv scheme (raw ++ more)
      ∙ parse_rest-slashes ctype conv uri (raw ++ more) name
      ∙ parse_rest-cut ctype conv uri raw more name filled inside stops
      ∙ ap (λ a. finished ctype conv uri name a tail a.host)
          (ap (parse_authority ctype conv) kept ∙ parse_authority-bare raw filled chars)

module _ (ctype : Ctype) (conv : Conversions) (printf : Printf) where
  connection_part-bare :
      (base : Iri) (scheme : Supported) (raw more : Bytes)
      → base.scheme ≡ scheme_name scheme
      → base.host ≡ some raw
      → base.port_given ≡ false
      → connection_part printf base ++ more ≡ print_url scheme (raw ++ more)
  connection_part-bare base scheme raw more s h p =
      connection_part-print ctype conv printf base scheme raw more s h
      ∙ ap
          (λ given. print_url scheme (
            (raw ++ print_port (if given then some (printf.decimal base.port, base.port) else none))
            ++ more))
          p
      ∙ ap (λ r. print_url scheme (r ++ more)) (append-nil raw)

  -- A reference with no colon, and with no two slashes in front, is resolved against a base with a
  -- supported scheme, no explicit port and a host with a colon, as an IPv6 address, to an IRI whose host
  -- is only what stands in front of the first colon, since the host is written without brackets. In front
  -- of that colon stand bytes of a host name, behind it bytes of a password.
  pub parse_base-address :
      (base : Iri) (scheme : Supported) (front back url : Bytes)
      → base.scheme ≡ scheme_name scheme
      → base.host ≡ some (front ++ (b':' ∷ back))
      → base.port_given ≡ false
      → Each host_char front
      → Each password_char back
      → has_colon url ≡ false
      → (at url 0 == b'/' && at url 1 == b'/') ≡ false
      → (iri : Iri) × (parse_base ctype conv printf (some base) url ≡ some iri)
        × (iri.host ≡ some front)
  unfolding parse_base relative_to_abs
  parse_base-address base scheme front back url s h p f b k g =
      let raw = front ++ (b':' ∷ back) in
      let more = b'/' ∷ resolved_path base url in
      (
        _,
        ap (iri_parse ctype conv) (
              resolved-path ctype conv printf base url k g
              ∙ connection_part-bare base scheme raw more s h p)
            ∙ iri_parse-bare ctype conv scheme front back more f b refl,
        ap (λ r. some (host_name ctype conv r.0)) (host_part-colon front back f)
            ∙ ap some (host_name-Each ctype conv front f),
      )
