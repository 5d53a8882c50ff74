-- ===== src/Iri/Resolve/Tests.antt =====
-- Runs of the resolver, and its theorems at concrete references.
use wget.Prelude.{
  last_index, ℕ, zero, suc, ◌+◌, ◌/◌, ◌%◌, ◌≡◌, refl, true, false, [], ◌∷◌, Option, none, some,
  Bytes, codes, ascii, ltb, if◌then◌else◌, arith,
}
use wget.Iri.Parse.{Iri, https, parse_tail}
use wget.Iri.Percent.{isgendelim}
use wget.Iri.DotSegments.{
  normalize_path, dot_segments, skip_dots, skipped, rounds, round, go_up, end_slash,
}
use wget.Iri.Parse.Pieces.{each_passes, each_passes-Each}
use wget.Iri.Parse.Schemes.{plain, secure}
use wget.Iri.Parse.Authorities.{no_login, host_char, password_char, is_digit}
use wget.Iri.Parse.RoundTrip.{iri_of, tail_utf8}
use wget.Iri.Parse.Tests.{plain_conv}
use wget.Iri.Resolve.{Printf, connection_part, with_base, no_base, relative_to_abs, parse_base}
use wget.Iri.Resolve.Origin.{parse_base-origin}
use wget.Iri.Resolve.Colon.{word_char, parse_base-colon}
use wget.Iri.Resolve.Address.{parse_base-address}

abbrev print_digits : ℕ → ℕ → Bytes → Bytes
print_digits zero n s = s
print_digits (suc fuel) n s =
    let more = print_digits fuel (n / 10) ((n % 10 + b'0') ∷ s) in
    if ltb n 10 then (n + b'0') ∷ s else more

abbrev plain_printf : Printf
plain_printf = record { decimal = λ n. print_digits 5 n []; null_string = codes "(null)" }

abbrev base : Iri
base = record {
  uri = codes "https://host:8080/a/b/c?q";
  scheme = https;
  port = 8080;
  port_given = true;
  userinfo = none;
  password = none;
  host = some (codes "host");
  path = some (codes "a/b/c");
  query = some (codes "q");
  fragment = none;
  is_ip_address = false;
}

absolute : Bytes → Option Bytes
absolute s = relative_to_abs plain_printf (with_base base) s []

relative_path : absolute (codes "../d?x=../y") ≡ some (codes "https://host:8080/a/d?x=../y")
unfolding absolute relative_to_abs connection_part normalize_path dot_segments skip_dots skipped
    rounds round go_up end_slash last_index
relative_path = refl

network_reference : absolute (codes "//other/x/../y") ≡ some (codes "https://other/y")
unfolding absolute relative_to_abs connection_part normalize_path dot_segments skip_dots skipped
    rounds round go_up end_slash last_index
network_reference = refl

-- a query alone takes the place of the file name
query_only : absolute (codes "?z") ≡ some (codes "https://host:8080/a/b/?z")
unfolding absolute relative_to_abs connection_part normalize_path dot_segments skip_dots skipped
    rounds round go_up end_slash last_index
query_only = refl

missing_base : relative_to_abs plain_printf (no_base true) (codes "x") (codes "y") ≡ none
unfolding relative_to_abs
missing_base = refl

parse_base-origin_example :
    (iri : Iri) × (parse_base ascii plain_conv plain_printf (some base) (codes "/../../x")
      ≡ some iri)
    × (iri.scheme ≡ https)
    × (iri.host ≡ some (codes "host"))
    × (iri.port ≡ 8080)
    × (iri.port_given ≡ true)
    × (iri.userinfo ≡ none)
parse_base-origin_example =
    parse_base-origin ascii plain_conv plain_printf base secure (codes "host") (codes "/../../x")
      (record {
        scheme_fits = refl;
        host_fits = refl;
        host_plain = (omega arith, each_passes-Each host_char (codes "host") refl);
        port_read = (
          omega arith,
          each_passes-Each is_digit (codes "8080") refl,
          refl,
          omega arith,
          omega arith,
        );
        port_fits = refl;
      })
      refl refl

page_word : each_passes word_char (codes "page") ≡ true
unfolding isgendelim
page_word = refl

parse_base-colon_example :
    parse_base ascii plain_conv plain_printf (some base) (codes "page?u=a:b")
    ≡ some (
        iri_of plain_conv
          (codes "page?u=a:b")
          plain
          no_login
          (codes "page")
          none
          (tail_utf8 plain_conv (parse_tail ascii b'?' (codes "u=a:b"))))
parse_base-colon_example =
    parse_base-colon ascii plain_conv plain_printf base (codes "page") (codes "u=a:b")
      (omega arith, each_passes-Each word_char (codes "page") page_word) refl

abbrev address : Iri
address = record base { host = some (codes "2001:db8::1"); port_given = false; port = 443 }

parse_base-address_example :
    (iri : Iri) × (parse_base ascii plain_conv plain_printf (some address) (codes "x") ≡ some iri)
    × (iri.host ≡ some (codes "2001"))
parse_base-address_example =
    parse_base-address ascii plain_conv plain_printf address secure (codes "2001") (codes "db8::1")
      (codes "x") refl refl refl (each_passes-Each host_char (codes "2001") refl)
      (each_passes-Each password_char (codes "db8::1") refl) refl refl
