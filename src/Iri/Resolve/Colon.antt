-- ===== src/Iri/Resolve/Colon.antt =====
-- References and bases with a colon.
use wget.Prelude.{
  ℕ, ◌<◌, ◌≡◌, refl, ap, ◌∙◌, sym, Bool, true, false, not, ◌&&◌, ◌||◌, [], ◌∷◌, ◌++◌, append-nil,
  none, some, length, ◌==◌, if◌then◌else◌, Bytes, at, arith, between, Ctype, span-append, drop,
  skip-stop,
}
use wget.Iri.Percent.{isgendelim}
use wget.Iri.Parse.{
  Conversions, Scheme, http, Iri, iri_parse, parse_scheme, scheme_of, unescaped, all_scheme,
  parse_tail, parse_rest, parse_authority, finished, ends_authority,
}
use wget.Iri.Parse.Pieces.{Each, Each-weaken, is_plain, unescaped-Each}
use wget.Iri.Parse.Schemes.{plain}
use wget.Iri.Parse.Authorities.{no_login, host_char}
use wget.Iri.Parse.Logins.{parse_authority-print, host_name-Each}
use wget.Iri.Parse.RoundTrip.{iri_of, tail_utf8, parse_rest-cut}
use wget.Iri.Resolve.{Printf, has_colon, relative_to_abs, parse_base}

-- the characters of a file name
abbrev pub word_char : ℕ → Bool
word_char c = host_char c && (not (isgendelim c) && not (c == b' ' || between 9 13 c))

abbrev pub IsWord : Bytes → Type 0
IsWord word = (0 < length word) × Each word_char word

no_scheme : (a b d : Bool) (x y : Scheme × Bytes) → (if a && (b && (false && d)) then x else y) ≡ y
no_scheme true true d x y = refl
no_scheme true false d x y = refl
no_scheme false b d x y = refl

module _ (ctype : Ctype) where
  -- a query in front of a colon
  parse_scheme-query :
      (word query : Bytes)
      → Each (λ c. not (isgendelim c)) word
      → parse_scheme ctype (word ++ (b'?' ∷ query)) ≡ (http, word ++ (b'?' ∷ query))
  unfolding parse_scheme isgendelim
  parse_scheme-query word query h =
      let s = word ++ (b'?' ∷ query) in
      ap
        (λ r.
          if ctype.isalpha (at s 0)
            && (all_scheme ctype r.0 && (at r.1 0 == b':' && not (ctype.isdigit (at r.1 1))))
          then (scheme_of ctype (unescaped ctype r.0), drop 1 r.1)
          else (http, s))
        (span-append (λ c. not (isgendelim c)) word (b'?' ∷ query) h refl)
      ∙ no_scheme (ctype.isalpha (at s 0)) (all_scheme ctype word)
          (not (ctype.isdigit (at query 0))) _ _

has_colon-append : (s t : Bytes) → has_colon t ≡ true → has_colon (s ++ t) ≡ true
has_colon-append [] t h = h
has_colon-append (c ∷ s) t h = ground (arith, has_colon-append s t h)

no_slash : (word more : Bytes) → IsWord word → (at (word ++ more) 0 == b'/') ≡ false
no_slash [] more h = absurd (omega (arith, h.0))
no_slash (c ∷ word) more h = ground (arith, h.1.0)

module _ (ctype : Ctype) (conv : Conversions) (printf : Printf) where
  relative_to_abs-colon :
      (base : Iri) (url : Bytes)
      → (at url 0 == b'/') ≡ false
      → has_colon url ≡ true
      → parse_base ctype conv printf (some base) url ≡ iri_parse ctype conv url
  unfolding parse_base relative_to_abs
  relative_to_abs-colon base url h k = rw (append-nil url) (rw h (rw k refl))

  iri_parse-schemeless :
      (word query : Bytes)
      → IsWord word
      → let url = word ++ (b'?' ∷ query) in
        iri_parse ctype conv url ≡ parse_rest ctype conv url http url
  unfolding iri_parse
  iri_parse-schemeless [] query h = absurd (omega (arith, h.0))
  iri_parse-schemeless (c ∷ word) query h =
      let url = c ∷ (word ++ (b'?' ∷ query)) in
      let solid : ctype.isspace c ≡ false = rw (ctype.isspace_ascii c) (ground (arith, h.1.0)) in
      let bare =
        Each-weaken word_char (λ d. not (isgendelim d)) (c ∷ word) (λ d g. ground (arith, g)) h.1 in
      rw (skip-stop ctype.isspace url solid) (
        ap (λ r. parse_rest ctype conv url r.0 r.1)
          (parse_scheme-query ctype (c ∷ word) query bare))

  iri_parse-word :
      (word query : Bytes)
      → IsWord word
      → let url = word ++ (b'?' ∷ query) in
        iri_parse ctype conv url
        ≡ some (
            iri_of conv url plain no_login word none (tail_utf8 conv (parse_tail ctype b'?' query)))
  iri_parse-word host query h =
      let url = host ++ (b'?' ∷ query) in
      let tail = parse_tail ctype b'?' query in
      let name = Each-weaken word_char host_char host (λ d g. ground (arith, g)) h.1 in
      let inside =
        Each-weaken host_char (λ d. not (ends_authority d)) host (λ d g. ground (arith, g)) name in
      let kept =
        unescaped-Each ctype host
          (Each-weaken host_char is_plain host (λ d g. ground (arith, g)) name) in
      let parsed = parse_authority-print ctype conv no_login host none tt (h.0, name) tt in
      iri_parse-schemeless host query h
      ∙ parse_rest-cut ctype conv url host (b'?' ∷ query) http h.0 inside refl
      ∙ ap (λ a. finished ctype conv url http a tail a.host)
          (ap (parse_authority ctype conv) (kept ∙ sym (append-nil host)) ∙ parsed)
      ∙ ap (λ n. some (iri_of conv url plain no_login n none (tail_utf8 conv tail)))
          (host_name-Each ctype conv host name)

  -- A reference that is a file name and a query with a colon is not resolved: the file name becomes
  -- the host of an http IRI, whatever the base is.
  pub parse_base-colon :
      (base : Iri) (word query : Bytes)
      → IsWord word
      → has_colon query ≡ true
      → let url = word ++ (b'?' ∷ query) in
        parse_base ctype conv printf (some base) url
        ≡ some (
            iri_of conv url plain no_login word none (tail_utf8 conv (parse_tail ctype b'?' query)))
  parse_base-colon base word query h k =
      relative_to_abs-colon base (word ++ (b'?' ∷ query)) (no_slash word (b'?' ∷ query) h)
        (has_colon-append word (b'?' ∷ query) k)
      ∙ iri_parse-word word query h
