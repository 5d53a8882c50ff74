-- ===== src/Iri/Filename/Tests.antt =====
-- Runs of the names, and the theorems at a concrete IRI.
use wget.Prelude.{
  ◌≡◌, refl, true, false, [], ◌∷◌, ◌++◌, some, none, Bytes, codes, ascii, arith, last_index,
}
use wget.Iri.Percent.Visible.{Visible}
use wget.Iri.Parse.{Iri, http}
use wget.Iri.Filename.{Locale, get_filename, get_path, get_query_as_filename, get_escaped_resource}
use wget.Iri.Filename.Names.{get_escaped_resource-Visible}

abbrev iri : Iri
iri = record {
  uri = codes "http://h/a/b%0D?x/y";
  scheme = http;
  port = 80;
  port_given = false;
  userinfo = none;
  password = none;
  host = some (codes "h");
  path = some (codes "a/b" ++ (13 ∷ []));
  query = some (codes "x/y");
  fragment = none;
  is_ip_address = false;
}

abbrev utf8 : Locale
utf8 = record { is_utf8 = true; utf8_to_str = λ s. none; default_page = some (codes "index.html") }

-- the default page follows a buffer that ends in a slash
default_name :
    get_filename utf8 (record iri { path = some (codes "a/"); query = none }) (codes "dir/")
    ≡ codes "dir/index.html"
unfolding get_filename get_query_as_filename last_index
default_name = refl

whole_path :
    get_path utf8 (record iri { path = some (codes "a/b") }) (codes "dir") ≡ codes "dir/a/b"
unfolding get_path
whole_path = refl

get_escaped_resource-Visible_example :
    (out : Bytes) × (get_escaped_resource ascii iri (codes "/") ≡ codes "/" ++ out) × Visible out
get_escaped_resource-Visible_example =
    get_escaped_resource-Visible ascii iri (codes "/") (omega arith) (omega arith)
