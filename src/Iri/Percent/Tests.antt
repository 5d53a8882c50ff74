-- ===== src/Iri/Percent/Tests.antt =====
-- Runs of the percent escapes, and the theorems at a concrete string.
use wget.Iri.Percent.RoundTrip.{plus_of_space, unescape-escapes}
use wget.Iri.Percent.Each.{some_escaped}
use wget.Iri.Percent.{
  true, isunreserved, isunreserved_path, [], Bytes, escape_path, unescape, escape_query, escape,
}
use wget.Prelude.{ascii, arith, map, ◌≡◌, codes, refl}

escape_text : escape ascii (codes "a b/c~%") (codes "?") ≡ codes "?a%20b%2Fc~%25"
unfolding escape
escape_text = refl

escape_path_text : escape_path ascii (codes "a b/c") [] ≡ codes "a%20b/c"
unfolding escape_path
escape_path_text = refl

escape_query_text : escape_query ascii (codes "k=a b+") [] ≡ codes "k=a+b%2B"
unfolding escape_query
escape_query_text = refl

unescape_text : unescape ascii (codes "%7euser%2x%41%") ≡ (true, codes "~user%2xA%")
unfolding unescape
unescape_text = refl

abbrev text : Bytes
text = codes "a/b c%"

unescape-escapes_example :
    (unescape ascii (escape ascii text []) ≡ (some_escaped (isunreserved ascii) text, text))
    × (unescape ascii (escape_path ascii text [])
        ≡ (some_escaped (isunreserved_path ascii) text, text))
    × ((unescape ascii (escape_query ascii text [])).1 ≡ map plus_of_space text)
unescape-escapes_example = unescape-escapes ascii text (omega arith)
