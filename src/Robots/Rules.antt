-- ===== src/Robots/Rules.antt =====
-- The record of a robots.txt that counts, and its rules.
use wget.Prelude.{
  ℕ, zero, suc, ◌<◌, ◌≤◌, ◌≡◌, refl, ap, ◌∙◌, sym, Bool, true, false, List, [], ◌∷◌, ◌++◌,
  append_assoc, append-nil, Option, some, length, length-append, if◌then◌else◌, Bytes, arith, Ctype,
  All,
}
use wget.Robots.{
  Robots, Parser, before, within, after, next_line, is_client, line, parse_lines, robots_parse,
}
use wget.Robots.Lines.{
  Line, agent, disallow, sitemap, other, print_line, print_lines, IsLine, IsClient, apply,
  apply_all,
}
use wget.Robots.Print.{Does, line-print}

-- the lines behind the first one that names the client or all
abbrev pub behind_agent : Ctype → Option Bytes → List Line → List Line
behind_agent ctype client [] = []
behind_agent ctype client (agent name ∷ lines) =
    if is_client ctype client name then lines else behind_agent ctype client lines
behind_agent ctype client (disallow path ∷ lines) = behind_agent ctype client lines
behind_agent ctype client (sitemap url ∷ lines) = behind_agent ctype client lines
behind_agent ctype client (other text ∷ lines) = behind_agent ctype client lines

-- the lines in front of the next `User-agent:`
abbrev pub own_record : List Line → List Line
own_record [] = []
own_record (agent name ∷ lines) = []
own_record (disallow path ∷ lines) = disallow path ∷ own_record lines
own_record (sitemap url ∷ lines) = sitemap url ∷ own_record lines
own_record (other text ∷ lines) = other text ∷ own_record lines

-- an empty `Disallow:`
abbrev pub allows_all : List Line → Bool
allows_all [] = false
allows_all (agent name ∷ lines) = allows_all lines
allows_all (disallow [] ∷ lines) = true
allows_all (disallow (c ∷ path) ∷ lines) = allows_all lines
allows_all (sitemap url ∷ lines) = allows_all lines
allows_all (other text ∷ lines) = allows_all lines

abbrev pub paths_of : List Line → List Bytes
paths_of [] = []
paths_of (agent name ∷ lines) = paths_of lines
paths_of (disallow path ∷ lines) = path ∷ paths_of lines
paths_of (sitemap url ∷ lines) = paths_of lines
paths_of (other text ∷ lines) = paths_of lines

abbrev pub sitemaps_of : List Line → List Bytes
sitemaps_of [] = []
sitemaps_of (agent name ∷ lines) = sitemaps_of lines
sitemaps_of (disallow path ∷ lines) = sitemaps_of lines
sitemaps_of (sitemap url ∷ lines) = url ∷ sitemaps_of lines
sitemaps_of (other text ∷ lines) = sitemaps_of lines

abbrev pub rules_behind : List Bytes → List Line → List Bytes
rules_behind paths lines = if allows_all lines then [] else paths ++ paths_of lines

-- the rules and the sitemaps of a file
abbrev pub rules : Ctype → Option Bytes → List Line → Robots
rules ctype client lines = record {
  paths = rules_behind [] (own_record (behind_agent ctype client lines));
  sitemaps = sitemaps_of lines;
}

module _ (ctype : Ctype) (client : Option Bytes) where
  apply_all-after :
      (r : Robots) (lines : List Line)
      → (apply_all ctype client (record { collect = after; robots = r }) lines).robots
        ≡ record { paths = r.paths; sitemaps = r.sitemaps ++ sitemaps_of lines }
  apply_all-after r [] =
      ap (λ s. record { paths = r.paths; sitemaps = s }) (sym (append-nil r.sitemaps))
  apply_all-after r (agent name ∷ lines) = apply_all-after r lines
  apply_all-after r (disallow path ∷ lines) = apply_all-after r lines
  apply_all-after r (sitemap url ∷ lines) =
      apply_all-after (record r { sitemaps = r.sitemaps ++ (url ∷ []) }) lines
      ∙ ap (λ s. record { paths = r.paths; sitemaps = s })
          (append_assoc r.sitemaps (url ∷ []) (sitemaps_of lines))
  apply_all-after r (other text ∷ lines) = apply_all-after r lines

  apply_all-within :
      (r : Robots) (lines : List Line)
      → (apply_all ctype client (record { collect = within; robots = r }) lines).robots ≡ record {
        paths = rules_behind r.paths (own_record lines);
        sitemaps = r.sitemaps ++ sitemaps_of lines;
      }
  apply_all-within r [] =
      ap (λ ps. record { paths = ps; sitemaps = r.sitemaps }) (sym (append-nil r.paths))
      ∙ ap (λ t. record { paths = r.paths ++ []; sitemaps = t }) (sym (append-nil r.sitemaps))
  apply_all-within r (agent name ∷ lines) =
      apply_all-after r lines
      ∙ ap (λ ps. record { paths = ps; sitemaps = r.sitemaps ++ sitemaps_of lines })
          (sym (append-nil r.paths))
  apply_all-within r (disallow [] ∷ lines) = apply_all-after (record r { paths = [] }) lines
  apply_all-within r (disallow (c ∷ path) ∷ lines) =
      apply_all-within (record r { paths = r.paths ++ ((c ∷ path) ∷ []) }) lines
      ∙ ap
          (λ ps. record {
            paths = if allows_all (own_record lines) then [] else ps;
            sitemaps = r.sitemaps ++ sitemaps_of lines;
          })
          (append_assoc r.paths ((c ∷ path) ∷ []) (paths_of (own_record lines)))
  apply_all-within r (sitemap url ∷ lines) =
      apply_all-within (record r { sitemaps = r.sitemaps ++ (url ∷ []) }) lines
      ∙ ap (λ s. record { paths = rules_behind r.paths (own_record lines); sitemaps = s })
          (append_assoc r.sitemaps (url ∷ []) (sitemaps_of lines))
  apply_all-within r (other text ∷ lines) = apply_all-within r lines

  agent_choice :
      (named : Bool) (s : List Bytes) (lines behind : List Line)
      → let result : List Line → Robots = λ t. record {
        paths = rules_behind [] (own_record t);
        sitemaps = s ++ sitemaps_of lines;
      } in
        let none_yet : Robots = record { paths = []; sitemaps = s } in
        ((apply_all ctype client (record { collect = before; robots = none_yet }) lines).robots
          ≡ result behind)
        → (apply_all ctype client
            (record { collect = if named then within else before; robots = none_yet })
            lines).robots
          ≡ result (if named then lines else behind)
  agent_choice true s lines behind h = apply_all-within (record { paths = []; sitemaps = s }) lines
  agent_choice false s lines behind h = h

  apply_all-before :
      (sitemaps : List Bytes) (lines : List Line)
      → (apply_all ctype client
          (record { collect = before; robots = record { paths = []; sitemaps = sitemaps } })
          lines).robots
        ≡ record {
          paths = rules_behind [] (own_record (behind_agent ctype client lines));
          sitemaps = sitemaps ++ sitemaps_of lines;
        }
  apply_all-before s [] = ap (λ t. record { paths = []; sitemaps = t }) (sym (append-nil s))
  apply_all-before s (agent name ∷ lines) =
      agent_choice (is_client ctype client name) s lines (behind_agent ctype client lines)
        (apply_all-before s lines)
  apply_all-before s (disallow path ∷ lines) = apply_all-before s lines
  apply_all-before s (sitemap url ∷ lines) =
      apply_all-before (s ++ (url ∷ [])) lines
      ∙ ap
          (λ t. record {
            paths = rules_behind [] (own_record (behind_agent ctype client lines));
            sitemaps = t;
          })
          (append_assoc s (url ∷ []) (sitemaps_of lines))
  apply_all-before s (other text ∷ lines) = apply_all-before s lines

abbrev start : Parser
start = record { collect = before; robots = record { paths = []; sitemaps = [] } }

-- the end of a round of the loop
abbrev go_on : Ctype → (ℕ → Bool) → Option Bytes → ℕ → Parser → Bytes → Parser
go_on ctype isspace client fuel p [] = p
go_on ctype isspace client fuel p (c ∷ rest) = parse_lines ctype isspace client fuel p (c ∷ rest)

module _ (ctype : Ctype) (isspace : ℕ → Bool) where
  go_on-filled :
      (client : Option Bytes) (fuel : ℕ) (p : Parser) (rest : Bytes)
      → 0 < length rest
      → go_on ctype isspace client fuel p rest ≡ parse_lines ctype isspace client fuel p rest
  go_on-filled client fuel p [] h = absurd (omega (arith, h))
  go_on-filled client fuel p (c ∷ rest) h = refl

  parse_lines-suc :
      (client : Option Bytes) (fuel : ℕ) (p next : Parser) (text rest : Bytes)
      → Does (line ctype isspace client p text) next rest
      → parse_lines ctype isspace client (suc fuel) p text
        ≡ go_on ctype isspace client fuel next rest
  unfolding parse_lines
  parse_lines-suc client fuel p next text rest h =
      ap (λ q. go_on ctype isspace client fuel q (next_line (line ctype isspace client p text).1))
        h.0
      ∙ ap (go_on ctype isspace client fuel next) h.1

  length-print_lines :
      (l : Line) (lines : List Line) → length (print_lines lines) < length (print_lines (l ∷ lines))
  length-print_lines l lines =
      rw (length-append (print_line l) (10 ∷ print_lines lines)) (omega arith)

  parse_lines-print :
      (client : Option Bytes) (fuel : ℕ) (p : Parser) (l : Line) (lines : List Line)
      → isspace 10 ≡ true
      → IsClient client
      → All (IsLine isspace) (l ∷ lines)
      → length (print_lines (l ∷ lines)) ≤ fuel
      → parse_lines ctype isspace client fuel p (print_lines (l ∷ lines))
        ≡ apply_all ctype client p (l ∷ lines)
  parse_lines-print client zero p l lines newline k h enough =
      absurd (omega (arith, length-print_lines l lines, enough))
  parse_lines-print client (suc fuel) p l [] newline k h enough =
      parse_lines-suc client fuel p (apply ctype client p l) (print_lines (l ∷ [])) []
        (line-print ctype isspace client p l [] newline k h.0)
  parse_lines-print client (suc fuel) p l (m ∷ lines) newline k h enough =
      let rest = print_lines (m ∷ lines) in
      let next = apply ctype client p l in
      parse_lines-suc client fuel p next (print_lines (l ∷ m ∷ lines)) rest
        (line-print ctype isspace client p l rest newline k h.0)
      ∙ go_on-filled client fuel next rest (omega (arith, length-print_lines m lines))
      ∙ parse_lines-print client fuel next m lines newline k h.1
          (omega (arith, length-print_lines l (m ∷ lines), enough))

  robots_parse-filled :
      (client : Option Bytes) (text : Bytes)
      → 0 < length text
      → robots_parse ctype isspace client text
        ≡ some (parse_lines ctype isspace client (length text) start text).robots
  unfolding robots_parse
  robots_parse-filled client [] h = absurd (omega (arith, h))
  robots_parse-filled client (c ∷ text) h = refl

  pub robots_parse-print :
      (client : Option Bytes) (l : Line) (lines : List Line)
      → isspace 10 ≡ true
      → IsClient client
      → All (IsLine isspace) (l ∷ lines)
      → robots_parse ctype isspace client (print_lines (l ∷ lines))
        ≡ some (rules ctype client (l ∷ lines))
  robots_parse-print client l lines newline k h =
      let text = print_lines (l ∷ lines) in
      robots_parse-filled client text (omega (arith, length-print_lines l lines))
      ∙ ap (λ p. some p.robots)
          (parse_lines-print client (length text) start l lines newline k h (omega arith))
      ∙ ap some (apply_all-before ctype client [] (l ∷ lines))
