-- ===== src/Robots/Tests.antt =====
-- Runs of the parser, and its theorem at a concrete file.
use wget.Prelude.{
  not, ℕ, ◌≡◌, refl, Bool, ◌||◌, List, [], ◌∷◌, Option, some, codes, ascii, ◌==◌, between, All,
  streq,
}
use wget.Iri.Parse.Pieces.{each_passes-Each}
use wget.Robots.{Robots, robots_parse, parse_lines, line, user_agent}
use wget.Robots.Lines.{Line, agent, disallow, sitemap, print_lines, IsLine, is_newline, IsWord}

abbrev pub space : ℕ → Bool
space c = c == b' ' || between 9 13 c

abbrev parse : List Line → Option Robots
parse lines = robots_parse ascii space (some (codes "Wget")) (print_lines lines)

-- a second `User-agent:` in the same record ends it
second_agent :
    parse (agent (codes "wget") ∷ agent (codes "curl") ∷ disallow (codes "/a") ∷ [])
    ≡ some (record { paths = []; sitemaps = [] })
unfolding robots_parse parse_lines line user_agent streq
second_agent = refl

-- the record for all is taken if it comes first
first_record :
    parse (
      agent (codes "*") ∷ disallow (codes "/a") ∷ agent (codes "wget") ∷ disallow (codes "/b") ∷ [])
    ≡ some (record { paths = codes "/a" ∷ []; sitemaps = [] })
unfolding robots_parse parse_lines line user_agent streq
first_record = refl

abbrev pub text : List Line
text = disallow (codes "/a") ∷ sitemap (codes "http://h/s") ∷ []

pub a-IsWord : IsWord space (codes "/a")
a-IsWord = record {
  solid = each_passes-Each (λ c. not (space c)) (codes "/a") refl;
  no_newline = each_passes-Each (λ c. not (is_newline c)) (codes "/a") refl;
  unindented = refl;
  filled = refl;
}

url-IsWord : IsWord space (codes "http://h/s")
url-IsWord = record {
  solid = each_passes-Each (λ c. not (space c)) (codes "http://h/s") refl;
  no_newline = each_passes-Each (λ c. not (is_newline c)) (codes "http://h/s") refl;
  unindented = refl;
  filled = refl;
}

pub text-IsLine : All (IsLine space) (agent (codes "*") ∷ text)
text-IsLine = (((refl, tt), refl), (a-IsWord, (url-IsWord, tt)))
