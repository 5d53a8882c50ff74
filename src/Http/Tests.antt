-- ===== src/Http/Tests.antt =====
-- Runs of the header parsers, and the theorems at concrete strings.
use wget.Prelude.{
  streq, All, ◌≡◌, refl, false, List, [], ◌∷◌, some, length, Bytes, codes, arith, ascii, ℤ, pos,
}
use wget.Http.{
  isseparator, istoken, parse_token, scan_quoted, parse_quoted_string, parse_value, parse_equals,
  parse_named, parse_param, skip_colon, parse_name,
}
use wget.Http.Directives.{
  encoding_lzma, parse_content_encoding, content_encoding, parse_content_type, find_charset,
  each_param, sts_step, parse_strict_transport_security,
}
use wget.Http.RoundTrip.{Value, IsParam, IsToken, IsQuotable, bare, quoted, print_params}
use wget.Http.Announced.{Announced, parse_strict_transport_security-print}
use wget.Http.Loops.{each_param_ends}

param_quoted :
    parse_param ascii (codes " ;name = \"a\\\"b\"; x")
    ≡ (record { name = some (codes "name"); value = some (codes "a\\\"b") }, codes "; x")
unfolding parse_param parse_named parse_token istoken isseparator parse_equals parse_value
    parse_quoted_string scan_quoted
param_quoted = refl

name_read : parse_name ascii (codes " Host : a") ≡ (codes "Host", codes " a")
unfolding parse_name parse_token istoken isseparator skip_colon
name_read = refl

encoding_read : parse_content_encoding ascii (codes " xz") ≡ (encoding_lzma, [])
unfolding streq parse_content_encoding content_encoding istoken isseparator
encoding_read = refl

type_read :
    parse_content_type ascii (codes "text/html; charset=utf-8")
    ≡ (codes "text/html", some (codes "utf-8"), [])
unfolding streq parse_content_type find_charset parse_param parse_named parse_token istoken
    isseparator parse_equals parse_value
type_read = refl

-- stands for `atoll`
abbrev count : Bytes → ℤ
count s = pos (length s)

abbrev directives : List (Bytes × Value)
directives = (codes "max-age", quoted (codes "31536000")) ∷ (codes "includeSubDomains", bare) ∷ []

directives-IsParam : All IsParam directives
unfolding istoken isseparator
directives-IsParam =
    let max_age : IsToken (codes "max-age") =
      (omega arith, (refl, (refl, (refl, (refl, (refl, (refl, (refl, tt)))))))) in
    let number : IsQuotable false (codes "31536000") =
      (refl, (refl, (refl, (refl, (refl, (refl, (refl, (refl, refl)))))))) in
    let subdomains : IsToken (codes "includeSubDomains") = (
      omega arith,
      (
        refl,
        (
          refl,
          (
            refl,
            (
              refl,
              (
                refl,
                (
                  refl,
                  (
                    refl,
                    (
                      refl,
                      (refl, (refl, (refl, (refl, (refl, (refl, (refl, (refl, (refl, tt))))))))),
                    ),
                  ),
                ),
              ),
            ),
          ),
        ),
      ),
    ) in
    ((max_age, number), ((subdomains, tt), tt))

each_param_ends_example :
    each_param ascii (sts_step ascii count) 40 (codes "max-age=1; =, ;") (pos 0, false)
    ≡ each_param ascii (sts_step ascii count) 15 (codes "max-age=1; =, ;") (pos 0, false)
each_param_ends_example =
    each_param_ends ascii (sts_step ascii count) 40 15 (codes "max-age=1; =, ;") (pos 0, false)
      (omega arith) (omega arith)

parse_strict_transport_security-print_example :
    Announced count directives
      (parse_strict_transport_security ascii count (print_params directives))
parse_strict_transport_security-print_example =
    parse_strict_transport_security-print ascii count directives directives-IsParam
