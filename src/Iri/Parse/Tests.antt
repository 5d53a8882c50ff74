-- ===== src/Iri/Parse/Tests.antt =====
-- Runs of the parser, and its theorems at concrete strings.
use wget.Prelude.{
  last_index, ℕ, ◌+◌, ◌-◌, ◌*◌, ◌≡◌, refl, [], ◌∷◌, ◌++◌, Option, none, some, Bytes, codes, ascii,
  pos, arith,
}
use wget.Iri.Percent.{isgendelim, unescape}
use wget.Utils.{strtolower, str_needs_encoding}
use wget.Iri.Parse.{
  parse_scheme, parse_rest, parse_authority, host_name, in_utf8, false, Conversions, Iri, Tail,
  iri_parse, parse_tail,
}
use wget.Iri.Parse.Pieces.{each_passes-Each}
use wget.Iri.Parse.Schemes.{plain, secure}
use wget.Iri.Parse.Tails.{path_char, query_char, print_tail}
use wget.Iri.Parse.Authorities.{
  Login, user_password, user_only, print_authority, print_port, user_char, password_char, host_char,
  is_digit,
}
use wget.Iri.Parse.RoundTrip.{print_url, iri_of, tail_utf8}
use wget.Iri.Parse.Whole.{escaped_at, iri_parse-print, iri_parse-escaped_at}

abbrev read_digits : ℕ → Bytes → ℕ
read_digits n [] = n
read_digits n (c ∷ s) = read_digits (n * 10 + (c - b'0')) s

abbrev pub plain_conv : Conversions
plain_conv = record {
  to_utf8 = λ s. none;
  idn = λ s. s;
  is_ip = λ s. false;
  atoi = λ s. pos (read_digits 0 s);
}

abbrev fields : Option Iri → Option (Option Bytes × ℕ × Option Bytes × Option Bytes)
fields none = none
fields (some iri) = some (iri.host, iri.port, iri.path, iri.query)

fields_of : Bytes → Option (Option Bytes × ℕ × Option Bytes × Option Bytes)
fields_of s = fields (iri_parse ascii plain_conv s)

-- a host without a scheme and a port
reads_host_port :
    fields_of (codes "Localhost:8080/a%20b?c+d#e")
    ≡ some (some (codes "localhost"), 8080, some (codes "a b"), some (codes "c d"))
unfolding fields_of iri_parse parse_scheme isgendelim parse_rest parse_tail parse_authority unescape
    strtolower host_name in_utf8 str_needs_encoding last_index
reads_host_port = refl

abbrev login : Login
login = user_password (codes "me") (codes "a:b")

abbrev tail : Tail
tail = record { path = some (codes "dir/file"); query = some (codes "q=1"); fragment = none }

iri_parse-print_example :
    let uri =
      print_url secure
        (print_authority login (codes "host") (some (codes "8080", 8080)) ++ print_tail tail) in
    iri_parse ascii plain_conv uri
    ≡ some (iri_of plain_conv uri secure login (codes "host") (some (codes "8080", 8080)) tail)
iri_parse-print_example =
    iri_parse-print ascii plain_conv secure login (codes "host") (some (codes "8080", 8080)) tail
      (
        each_passes-Each user_char (codes "me") refl,
        each_passes-Each password_char (codes "a:b") refl,
      )
      (omega arith, each_passes-Each host_char (codes "host") refl)
      (omega arith, each_passes-Each is_digit (codes "8080") refl, refl, omega arith, omega arith)
      (record {
        path_plain = each_passes-Each path_char (codes "dir/file") refl;
        query_plain = each_passes-Each query_char (codes "q=1") refl;
        fragment_plain = tt;
      })

iri_parse-escaped_at_example :
    let uri =
      print_url plain
        (escaped_at (codes "good.org") (codes "bad.org" ++ print_port none) ++ codes "/x") in
    iri_parse ascii plain_conv uri
    ≡ some (
        iri_of plain_conv uri plain
          (user_only (codes "good.org"))
          (codes "bad.org")
          none
          (tail_utf8 plain_conv (parse_tail ascii b'/' (codes "x"))))
iri_parse-escaped_at_example =
    iri_parse-escaped_at ascii plain_conv plain (codes "good.org") (codes "bad.org") none
      (codes "/x") (each_passes-Each user_char (codes "good.org") refl)
      (omega arith, each_passes-Each host_char (codes "bad.org") refl) tt refl
