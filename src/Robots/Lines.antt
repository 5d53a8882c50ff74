-- ===== src/Robots/Lines.antt =====
-- A robots.txt of whole lines.
use wget.Prelude.{
  ℕ, ◌≡◌, Bool, true, false, not, ◌||◌, List, [], ◌∷◌, ◌++◌, Option, none, some, ◌==◌,
  if◌then◌else◌, Bytes, codes, Ctype, ascii, All, Stops,
}
use wget.Robots.{
  before, within, after, is_before, is_within, is_open, Parser, stop_collecting, add_path,
  add_sitemap, begins, is_client,
}

-- the lines that are told apart; the empty path allows all
pub data Line : Type 0 where
  agent disallow sitemap other : Bytes → Line

abbrev pub print_line : Line → Bytes
print_line (agent name) = codes "User-agent: " ++ name
print_line (disallow path) = codes "Disallow: " ++ path
print_line (sitemap url) = codes "Sitemap: " ++ url
print_line (other text) = text

abbrev pub print_lines : List Line → Bytes
print_lines [] = []
print_lines (l ∷ lines) = print_line l ++ (10 ∷ print_lines lines)

abbrev pub is_blank : ℕ → Bool
is_blank c = c == b' ' || c == 9

abbrev pub is_keyword : Bytes → Bool
is_keyword text =
    begins ascii (codes "User-agent:") text
    || (begins ascii (codes "Disallow:") text || begins ascii (codes "Sitemap:") text)

abbrev pub No : (ℕ → Bool) → Bytes → Type 0
No test s = All (λ c. not (test c) ≡ true) s

abbrev pub is_newline : ℕ → Bool
is_newline c = c == 10

abbrev pub ends_value : ℕ → Bool
ends_value c = c == 13 || (c == 10 || c == 0)

-- a value without white space, which begins with no blank
pub record IsWord (isspace : ℕ → Bool) (s : Bytes) : Type 0 where
  pub solid : No isspace s
  pub no_newline : No is_newline s
  pub unindented : Stops is_blank s
  pub filled : Stops ends_value s

abbrev pub IsLine : (ℕ → Bool) → Line → Type 0
IsLine isspace (agent name) = No is_newline name × Stops is_blank name
IsLine isspace (disallow path) = IsWord isspace path
IsLine isspace (sitemap url) = IsWord isspace url
IsLine isspace (other text) = No is_newline text × (is_keyword text ≡ false)

-- what a line does
abbrev pub disallowed : Parser → Bytes → Parser
disallowed p [] = record { collect = after; robots = record p.robots { paths = [] } }
disallowed p (c ∷ path) = add_path p (c ∷ path)

abbrev pub apply : Ctype → Option Bytes → Parser → Line → Parser
apply ctype client p (agent name) =
    if is_before p.collect
    then record p { collect = if is_client ctype client name then within else before }
    else if is_open p.collect
    then stop_collecting p
    else p
apply ctype client p (disallow path) = if is_within p.collect then disallowed p path else p
apply ctype client p (sitemap url) = add_sitemap p url
apply ctype client p (other text) = p

abbrev pub apply_all : Ctype → Option Bytes → Parser → List Line → Parser
apply_all ctype client p [] = p
apply_all ctype client p (l ∷ lines) = apply_all ctype client (apply ctype client p l) lines

-- the client holds no newline
abbrev pub IsClient : Option Bytes → Type 0
IsClient none = Unit {0}
IsClient (some client) = No is_newline client
