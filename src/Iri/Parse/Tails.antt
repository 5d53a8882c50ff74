-- ===== src/Iri/Parse/Tails.antt =====
-- Path, query and fragment.
use wget.Prelude.{
  ℕ, ◌≡◌, refl, ap, ◌∙◌, Bool, false, not, ◌&&◌, [], ◌∷◌, ◌++◌, Option, none, some, drop, ◌==◌,
  Bytes, at, Ctype, arith, map, ltb, Stops,
}
use wget.Iri.Parse.{
  Tail, ends_path, ends_query, fragment_from, query_from, plus_to_space, parse_tail, unescaped,
}
use wget.Iri.Parse.Pieces.{Each, Each-weaken, is_plain, cut-append, unescaped-Each}

abbrev pub Maybe : (ℕ → Bool) → Option Bytes → Type 0
Maybe test none = Unit {0}
Maybe test (some s) = Each test s

-- the characters of the components
abbrev pub path_char : ℕ → Bool
path_char c = is_plain c && not (ends_path c)

abbrev pub query_char : ℕ → Bool
query_char c = ltb 0 c && (ltb c 128 && (not (c == b'#') && not (c == b'+')))

pub record IsTail (tail : Tail) : Type 0 where
  pub path_plain : Maybe path_char tail.path
  pub query_plain : Maybe query_char tail.query
  pub fragment_plain : Maybe is_plain tail.fragment

abbrev pub behind : ℕ → Option Bytes → Bytes
behind c none = []
behind c (some s) = c ∷ s

abbrev pub print_tail : Tail → Bytes
print_tail tail = behind b'/' tail.path ++ (behind b'?' tail.query ++ behind b'#' tail.fragment)

plus_to_space-Each : (s : Bytes) → Each query_char s → map plus_to_space s ≡ s
plus_to_space-Each [] h = refl
plus_to_space-Each (c ∷ s) h =
    let kept : (c == b'+') ≡ false = ground (arith, h.0) in
    rw kept (ap (◌∷◌ c) (plus_to_space-Each s h.1))

module _ (ctype : Ctype) where
  fragment_from-behind :
      (fragment : Option Bytes)
      → Maybe is_plain fragment
      → fragment_from ctype (at (behind b'#' fragment) 0) (drop 1 (behind b'#' fragment)) ≡ fragment
  fragment_from-behind none h = refl
  fragment_from-behind (some s) h = ap some (unescaped-Each ctype s h)

  behind-Stops : (fragment : Option Bytes) → Stops (λ c. not (ends_query c)) (behind b'#' fragment)
  behind-Stops none = tt
  behind-Stops (some s) = refl

  behind-behind-Stops :
      (query fragment : Option Bytes)
      → Stops (λ c. not (ends_path c)) (behind b'?' query ++ behind b'#' fragment)
  behind-behind-Stops none none = tt
  behind-behind-Stops none (some s) = refl
  behind-behind-Stops (some s) fragment = refl

  query_from-behind :
      (path query fragment : Option Bytes)
      → Maybe query_char query
      → Maybe is_plain fragment
      → let text = behind b'?' query ++ behind b'#' fragment in
        query_from ctype path (at text 0) (drop 1 text)
        ≡ record { path = path; query = query; fragment = fragment }
  query_from-behind path none none h k = refl
  query_from-behind path none (some s) h k =
      ap (λ f. record { path = path; query = none; fragment = f }) (fragment_from-behind (some s) k)
  query_from-behind path (some s) fragment h k =
      let fine = Each-weaken query_char (λ c. not (ends_query c)) s (λ c g. ground (arith, g)) h in
      ap
        (λ r. record {
          path = path;
          query = some (map plus_to_space r.0);
          fragment = fragment_from ctype r.1 r.2;
        })
        (cut-append ends_query s (behind b'#' fragment) fine (behind-Stops fragment))
      ∙ ap
          (λ q. record {
            path = path;
            query = some q;
            fragment =
                fragment_from ctype (at (behind b'#' fragment) 0) (drop 1 (behind b'#' fragment));
          })
          (plus_to_space-Each s h)
      ∙ ap (λ f. record { path = path; query = some s; fragment = f })
          (fragment_from-behind fragment k)

  parse_tail-behind :
      (path query fragment : Option Bytes)
      → Maybe path_char path
      → Maybe query_char query
      → Maybe is_plain fragment
      → let text = behind b'/' path ++ (behind b'?' query ++ behind b'#' fragment) in
        parse_tail ctype (at text 0) (drop 1 text)
        ≡ record { path = path; query = query; fragment = fragment }
  unfolding parse_tail
  parse_tail-behind none none none p h k = refl
  parse_tail-behind none none (some s) p h k = query_from-behind none none (some s) h k
  parse_tail-behind none (some s) fragment p h k = query_from-behind none (some s) fragment h k
  parse_tail-behind (some s) query fragment p h k =
      let text = behind b'?' query ++ behind b'#' fragment in
      let fine = Each-weaken path_char (λ c. not (ends_path c)) s (λ c g. ground (arith, g)) p in
      let plain = Each-weaken path_char is_plain s (λ c g. ground (arith, g)) p in
      ap (λ r. query_from ctype (some (unescaped ctype r.0)) r.1 r.2)
        (cut-append ends_path s text fine (behind-behind-Stops query fragment))
      ∙ ap (λ q. query_from ctype (some q) (at text 0) (drop 1 text)) (unescaped-Each ctype s plain)
      ∙ query_from-behind (some s) query fragment h k

  -- Path, query and fragment are read back.
  pub parse_tail-print :
      (tail : Tail)
      → IsTail tail
      → parse_tail ctype (at (print_tail tail) 0) (drop 1 (print_tail tail)) ≡ tail
  parse_tail-print tail h =
      parse_tail-behind tail.path tail.query tail.fragment h.path_plain h.query_plain
        h.fragment_plain
