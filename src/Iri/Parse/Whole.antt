-- ===== src/Iri/Parse/Whole.antt =====
-- A whole IRI that is printed and parsed, and an authority with an escaped character.
use wget.Prelude.{
  ℕ, ◌<◌, ◌≡◌, refl, ap, ◌∙◌, Bool, true, not, ltb, ◌∷◌, ◌++◌, Option, none, some, Bytes, at, drop,
  length, length-append, arith, Ctype, Stops, All-append,
}
use wget.Iri.Parse.{
  c_string, unescape, Conversions, Tail, iri_parse, parse_tail, ends_authority, converted,
  unescaped,
}
use wget.Iri.Percent.{unescape}
use wget.Iri.Parse.Pieces.{
  unescape-append, unescape-Each, c_string-Each, Each, Each-weaken, is_plain, in_utf8-Each,
}
use wget.Iri.Parse.Schemes.{Supported}
use wget.Iri.Parse.Tails.{
  IsTail, Maybe, behind, path_char, query_char, print_tail, parse_tail-print,
}
use wget.Iri.Parse.Authorities.{
  password_char, host_port-Each, Login, user_only, IsLogin, IsHost, IsPort, print_authority,
  print_port, user_char,
}
use wget.Iri.Parse.RoundTrip.{print_url, iri_of, tail_utf8, iri_parse-authority, iri_parse-raw}

behind-Stops :
    (path query fragment : Option Bytes)
    → Stops
        (λ c. not (ends_authority c))
        (behind b'/' path ++ (behind b'?' query ++ behind b'#' fragment))
behind-Stops none none none = tt
behind-Stops none none (some s) = refl
behind-Stops none (some s) fragment = refl
behind-Stops (some s) query fragment = refl

print_tail-Stops : (tail : Tail) → Stops (λ c. not (ends_authority c)) (print_tail tail)
print_tail-Stops tail = behind-Stops tail.path tail.query tail.fragment

converted-Maybe :
    (conv : Conversions) (test : ℕ → Bool) (s : Option Bytes)
    → ((c : ℕ) → test c ≡ true → ltb c 128 ≡ true)
    → Maybe test s
    → converted conv s ≡ s
converted-Maybe conv test none h k = refl
converted-Maybe conv test (some s) h k =
    ap some (in_utf8-Each conv s (Each-weaken test (λ c. ltb c 128) s h k))

tail_utf8-IsTail : (conv : Conversions) (tail : Tail) → IsTail tail → tail_utf8 conv tail ≡ tail
tail_utf8-IsTail conv tail t =
    let path = converted-Maybe conv path_char tail.path (λ c g. ground (arith, g)) t.path_plain in
    let query =
      converted-Maybe conv query_char tail.query (λ c g. ground (arith, g)) t.query_plain in
    let fragment =
      converted-Maybe conv is_plain tail.fragment (λ c g. ground (arith, g)) t.fragment_plain in
    ap
      (λ x. record {
        path = x;
        query = converted conv tail.query;
        fragment = converted conv tail.fragment;
      })
      path
    ∙ ap (λ x. record { path = tail.path; query = x; fragment = converted conv tail.fragment })
        query
    ∙ ap (λ x. record { path = tail.path; query = tail.query; fragment = x }) fragment

-- `%40` is an escaped `@`
abbrev pub escaped_at : Bytes → Bytes → Bytes
escaped_at front back = front ++ (b'%' ∷ b'4' ∷ b'0' ∷ back)

module _ (ctype : Ctype) where
  unescape-at :
      (back : Bytes)
      → (unescape ctype (b'%' ∷ b'4' ∷ b'0' ∷ back)).1 ≡ b'@' ∷ (unescape ctype back).1
  unfolding unescape
  unescape-at back = rw (ctype.isxdigit_ascii b'4') (rw (ctype.isxdigit_ascii b'0') refl)

  unescaped-at :
      (front back : Bytes)
      → Each is_plain front
      → Each is_plain back
      → unescaped ctype (escaped_at front back) ≡ front ++ (b'@' ∷ back)
  unescaped-at front back h k =
      ap c_string (
        unescape-append ctype front (b'%' ∷ b'4' ∷ b'0' ∷ back) h
        ∙ ap (◌++◌ front) (unescape-at back ∙ ap (◌∷◌ b'@') (unescape-Each ctype back k)))
      ∙ c_string-Each ctype (front ++ (b'@' ∷ back))
          (All-append (λ c. is_plain c ≡ true) front (b'@' ∷ back) h (refl, k))

module _ (ctype : Ctype) (conv : Conversions) where
  -- A URL that is put together from a scheme of the list, a login, a host, a port that `atoi` reads back and a tail,
  -- each of the characters that the component may hold unescaped, is parsed into exactly these components; without
  -- a port the port is the one of the scheme.
  pub iri_parse-print :
      (scheme : Supported) (login : Login) (host : Bytes) (port : Option (Bytes × ℕ)) (tail : Tail)
      → IsLogin login
      → IsHost host
      → IsPort conv port
      → IsTail tail
      → let uri = print_url scheme (print_authority login host port ++ print_tail tail) in
        iri_parse ctype conv uri ≡ some (iri_of conv uri scheme login host port tail)
  iri_parse-print scheme login host port tail l h k t =
      let uri = print_url scheme (print_authority login host port ++ print_tail tail) in
      iri_parse-authority ctype conv scheme login host port (print_tail tail) l h k
        (print_tail-Stops tail)
      ∙ ap (λ r. some (iri_of conv uri scheme login host port (tail_utf8 conv r)))
          (parse_tail-print ctype tail t)
      ∙ ap (λ r. some (iri_of conv uri scheme login host port r)) (tail_utf8-IsTail conv tail t)

  -- An escaped at sign in the authority is taken for the separator: the host of `front%40host` is `host`, and `front`
  -- is the user, for every front without a separator and every host of the characters that it may hold.
  pub iri_parse-escaped_at :
      (scheme : Supported) (front host : Bytes) (port : Option (Bytes × ℕ)) (more : Bytes)
      → Each user_char front
      → IsHost host
      → IsPort conv port
      → Stops (λ c. not (ends_authority c)) more
      → let uri = print_url scheme (escaped_at front (host ++ print_port port) ++ more) in
        iri_parse ctype conv uri
        ≡ some (
            iri_of conv uri scheme
              (user_only front)
              host
              port
              (tail_utf8 conv (parse_tail ctype (at more 0) (drop 1 more))))
  iri_parse-escaped_at scheme front host port more l h k stops =
      let back = host ++ print_port port in
      let chars = host_port-Each conv host port h k in
      let test : ℕ → Bool = λ c. not (ends_authority c) in
      let filled : 0 < length (escaped_at front back) =
        rw (length-append front (b'%' ∷ b'4' ∷ b'0' ∷ back)) (omega arith) in
      let inside =
        All-append (λ c. test c ≡ true) front (b'%' ∷ b'4' ∷ b'0' ∷ back)
          (Each-weaken user_char test front (λ c g. ground (arith, g)) l)
          (
            refl,
            (refl, (refl, Each-weaken password_char test back (λ c g. ground (arith, g)) chars)),
          ) in
      iri_parse-raw ctype conv scheme (escaped_at front back) (user_only front) host port more l h k
        filled inside
        (unescaped-at ctype front back
          (Each-weaken user_char is_plain front (λ c g. ground (arith, g)) l)
          (Each-weaken password_char is_plain back (λ c g. ground (arith, g)) chars))
        stops
