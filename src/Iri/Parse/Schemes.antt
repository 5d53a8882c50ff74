-- ===== src/Iri/Parse/Schemes.antt =====
-- The schemes that are supported.
use wget.Prelude.{◌≡◌, refl, true, ◌∷◌, ◌++◌, Bytes, codes, Ctype, strcaseeq-ascii, streq}
use wget.Iri.Parse.{Scheme, http, https, parse_scheme, unescaped, all_scheme, scheme_of}
use wget.Iri.Parse.Pieces.{unescaped-Each}
use wget.Iri.Percent.{isgendelim}

-- a scheme of the list, with its colon
pub data Supported : Type 0 where
  plain secure : Supported

abbrev pub scheme_name : Supported → Scheme
scheme_name plain = http
scheme_name secure = https

abbrev pub print_scheme : Supported → Bytes
print_scheme plain = codes "http"
print_scheme secure = codes "https"

module _ (ctype : Ctype) where
  scheme_of-print : (s : Supported) → scheme_of ctype (print_scheme s) ≡ scheme_name s
  unfolding streq
  scheme_of-print plain = rw (strcaseeq-ascii ctype (codes "http") (codes "http")) refl
  scheme_of-print secure =
      rw (strcaseeq-ascii ctype (codes "http") (codes "https"))
        (rw (strcaseeq-ascii ctype (codes "https") (codes "https")) refl)

  all_scheme-print : (s : Supported) → all_scheme ctype (print_scheme s) ≡ true
  all_scheme-print plain =
      rw (ctype.isalnum_ascii b'h')
        (rw (ctype.isalnum_ascii b't') (rw (ctype.isalnum_ascii b'p') refl))
  all_scheme-print secure = rw (ctype.isalnum_ascii b'h') (
      rw (ctype.isalnum_ascii b't')
        (rw (ctype.isalnum_ascii b'p') (rw (ctype.isalnum_ascii b's') refl)))

  unescaped-print : (s : Supported) → unescaped ctype (print_scheme s) ≡ print_scheme s
  unescaped-print plain = unescaped-Each ctype (codes "http") (refl, (refl, (refl, (refl, tt))))
  unescaped-print secure =
      unescaped-Each ctype (codes "https") (refl, (refl, (refl, (refl, (refl, tt)))))

  pub parse_scheme-print :
      (s : Supported) (rest : Bytes)
      → parse_scheme ctype (print_scheme s ++ (b':' ∷ b'/' ∷ rest)) ≡ (scheme_name s, b'/' ∷ rest)
  unfolding parse_scheme isgendelim
  parse_scheme-print plain rest = rw (ctype.isalpha_ascii b'h') (
      rw (ctype.isdigit_ascii b'/') (
        rw (all_scheme-print plain) (rw (unescaped-print plain) (rw (scheme_of-print plain) refl))))
  parse_scheme-print secure rest = rw (ctype.isalpha_ascii b'h') (
      rw (ctype.isdigit_ascii b'/') (
        rw (all_scheme-print secure)
          (rw (unescaped-print secure) (rw (scheme_of-print secure) refl))))
