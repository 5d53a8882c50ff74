-- ===== src/Http/HeaderTests.antt =====
-- Runs of the parsers of whole headers, and the theorems at concrete ones.
use wget.Prelude.{
  ◌+◌, ◌*◌, ◌≡◌, refl, true, false, [], ◌∷◌, ◌++◌, some, none, Option, length, Bytes, codes, arith,
  ascii, ℤ, pos, streq,
}
use wget.Http.{
  istoken, isseparator, parse_token, parse_param, parse_named, parse_equals, parse_value,
  parse_quoted_string, scan_quoted,
}
use wget.Http.Challenge.{parse_challenges}
use wget.Http.Challenge.Loops.{parse_challenges_stall}
use wget.Http.Date.{scanned, time_of, is_valid, day_number, leap_days, parse_full_date}
use wget.Http.Sscanf.{scan, signed, unsigned, digits, word_bytes}
use wget.Http.Disposition.{
  parse_content_disposition, disposition_name, plain_name, path_part, extended_name,
}
use wget.Http.Disposition.FileName.{parse_content_disposition-slash}
use wget.Http.Links.{
  link_rel_duplicate, parse_link, link_params, parse_digest, set_include_subdomains, set_maxage,
  pin_add, parse_public_key_pins,
}
use wget.Http.Directives.{each_param}
use wget.Http.RoundTrip.{IsToken, bare, quoted, print_params}
use wget.Utils.{percent_unescape, str_is_valid_utf8, str_needs_encoding}

-- stands for `atoi` and `atoll`
abbrev count : Bytes → ℤ
count s = pos (length s)

-- stands for iconv
abbrev no_conversion : Bytes → Bytes → Option Bytes
no_conversion s charset = none

link_read : parse_link ascii count (codes "<http://a/>; rel=duplicate; pri=1; type=\"b\"") ≡ (
  record {
    uri = some (codes "http://a/");
    type = some (codes "b");
    pri = pos 1;
    rel = link_rel_duplicate;
  },
  some [],
)
unfolding parse_link link_params parse_param parse_named parse_token istoken isseparator
    parse_equals parse_value parse_quoted_string scan_quoted streq
link_read = refl

digest_read :
    parse_digest ascii (codes "SHA-256=abc;x y")
    ≡ (record { algorithm = codes "SHA-256"; encoded_digest = some (codes "abc") }, codes " y")
unfolding parse_digest parse_token istoken isseparator
digest_read = refl

pins_read :
    parse_public_key_pins ascii count (codes "pin-a=\"b\"; max-age=10; includeSubDomains")
    ≡ set_include_subdomains false
      ∷ pin_add (codes "a") (codes "b")
      ∷ set_maxage (pos 2)
      ∷ set_include_subdomains true
      ∷ []
unfolding parse_public_key_pins each_param parse_param parse_named parse_token istoken isseparator
    parse_equals parse_value parse_quoted_string scan_quoted streq
pins_read = refl

extended_read :
    parse_content_disposition ascii no_conversion (codes "a; filename=x; filename*=UTF-8''b%2Fc")
    ≡ some (codes "x")
unfolding parse_content_disposition disposition_name plain_name path_part extended_name
    percent_unescape str_is_valid_utf8 str_needs_encoding parse_param parse_named parse_token
    istoken isseparator parse_equals parse_value streq
extended_read = refl

-- a percent sign hides a slash
hidden_slash : plain_name ascii no_conversion (codes "..%2Fa") ≡ some (codes "../a")
unfolding plain_name path_part percent_unescape str_is_valid_utf8
hidden_slash = refl

parse_challenges_stall_example :
    parse_challenges ascii ascii.tolower ascii.strcaseeq 1000 []
      (codes "NTLM" ++ (b',' ∷ codes " Basic"))
    ≡ none
parse_challenges_stall_example =
    parse_challenges_stall ascii ascii.tolower ascii.strcaseeq 1000 [] (codes "NTLM")
      (codes " Basic") b',' (unfold istoken isseparator in (refl, (refl, (refl, (refl, tt)))))
      (unfold istoken isseparator in refl) refl

two_digits :
    parse_full_date ascii (codes "Sunday, 01-Mar-70 23:59:58 GMT")
    ≡ ((59 * 24 + 23) * 60 + 59) * 60 + 58
unfolding parse_full_date scanned scan signed unsigned digits word_bytes time_of is_valid day_number
    leap_days streq
two_digits = refl

parse_content_disposition-slash_example :
    parse_content_disposition ascii no_conversion (
      print_params (
        (codes "attachment", bare)
        ∷ (codes "filename", quoted (codes "a" ++ (b'/' ∷ codes "../b")))
        ∷ []))
    ≡ some (codes "../b")
unfolding istoken isseparator
parse_content_disposition-slash_example =
    let type : IsToken (codes "attachment") = (
      omega arith,
      (refl, (refl, (refl, (refl, (refl, (refl, (refl, (refl, (refl, (refl, tt)))))))))),
    ) in
    parse_content_disposition-slash ascii no_conversion (codes "attachment") (codes "a")
      (codes "../b") b'/' [] type (refl, tt) refl
      (
        (omega arith, omega arith),
        (
          (omega arith, omega arith),
          ((omega arith, omega arith), ((omega arith, omega arith), tt)),
        ),
      )
      (refl, (refl, (refl, (refl, (refl, (refl, refl))))))
