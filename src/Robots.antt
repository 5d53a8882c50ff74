-- ===== src/Robots.antt =====
-- libwget/robots.c: `wget_robots_parse`. The argument NULL is the empty string, a missing vector the empty list, and
-- `isspace` of the C library a parameter. A line takes a byte at least, so the length is fuel enough.
pub mod Lines
pub mod Newline
pub mod Print
pub mod Rules
pub mod Tests
use wget.Prelude.{
  ℕ, zero, suc, Bool, true, false, not, ◌&&◌, ◌||◌, List, [], ◌∷◌, ◌++◌, Option, none, some, drop,
  take, length, ltb, ◌==◌, if◌then◌else◌, Bytes, codes, at, Ctype, span, skip,
}

-- `wget_robots_t`
pub record Robots : Type 0 where
  pub paths : List Bytes
  pub sitemaps : List Bytes

-- the values 0, 1 and 2 of `collect`
pub data Collect : Type 0 where
  before within after : Collect

abbrev pub is_before : Collect → Bool
is_before before = true
is_before within = false
is_before after = false

abbrev pub is_within : Collect → Bool
is_within before = false
is_within within = true
is_within after = false

-- `collect < 2`
abbrev pub is_open : Collect → Bool
is_open before = true
is_open within = true
is_open after = false

-- the variables of the loop
pub record Parser : Type 0 where
  pub collect : Collect
  pub robots : Robots

-- `for (data += n; *data == ' ' || *data == '\t'; data++);`
abbrev pub value_behind : ℕ → Bytes → Bytes
value_behind n text = skip (λ c. c == b' ' || c == 9) (drop n text)

-- `if ((data = strchr(data, '\n'))) data++;`
abbrev pub next_line : Bytes → Bytes
next_line text = drop 1 (span (λ c. not (c == 10)) text).1

abbrev pub stop_collecting : Parser → Parser
stop_collecting p = record p { collect = after }

abbrev pub add_path : Parser → Bytes → Parser
add_path p path = record p { robots = record p.robots { paths = p.robots.paths ++ (path ∷ []) } }

abbrev pub add_sitemap : Parser → Bytes → Parser
add_sitemap p url = record p {
  robots = record p.robots { sitemaps = p.robots.sitemaps ++ (url ∷ []) };
}

module _ (ctype : Ctype) where
  -- `!wget_strncasecmp_ascii(data, word, strlen(word))`
  abbrev pub begins : Bytes → Bytes → Bool
  begins word text = ctype.strcaseeq word (take (length word) text)

  -- the test for the client, and for `*`
  abbrev pub is_client : Option Bytes → Bytes → Bool
  is_client none text = at text 0 == b'*'
  is_client (some client) text = begins client text || at text 0 == b'*'

  -- the body of `User-agent:`
  unfoldable pub user_agent : Option Bytes → Parser → Bytes → Parser × Bytes
  user_agent client p text =
      if is_before p.collect
      then (
        record p { collect = if is_client client (value_behind 11 text) then within else before },
        value_behind 11 text,
      )
      else (stop_collecting p, text)

module _ (isspace : ℕ → Bool) where
  -- `for (p = data; *p && !isspace(*p); p++);`
  abbrev pub word : Bytes → Bytes
  word text = (span (λ c. not (isspace c)) text).0

  abbrev pub disallow_value : Parser → Bytes → Parser
  disallow_value p text =
      if at text 0 == 13 || (at text 0 == 10 || at text 0 == 0)
      then record { collect = after; robots = record p.robots { paths = [] } }
      else add_path p (word text)

module _ (ctype : Ctype) (isspace : ℕ → Bool) where
  -- the body of the loop up to the search for the next line: the variables, and where `data` is then
  unfoldable pub line : Option Bytes → Parser → Bytes → Parser × Bytes
  line client p text =
      if is_open p.collect && begins ctype (codes "User-agent:") text
      then user_agent ctype client p text
      else if is_within p.collect && begins ctype (codes "Disallow:") text
      then (disallow_value isspace p (value_behind 9 text), value_behind 9 text)
      else if begins ctype (codes "Sitemap:") text
      then (add_sitemap p (word isspace (value_behind 8 text)), value_behind 8 text)
      else (p, text)

  -- `do … while (data && *data)`
  unfoldable pub parse_lines : Option Bytes → ℕ → Parser → Bytes → Parser
  parse_lines client zero p text = p
  parse_lines client (suc fuel) p text =
      let (next, behind) = line client p text in
      elim (next_line behind) [ [] ↦ next | ◌∷◌ c rest ↦ parse_lines client fuel next (c ∷ rest) ]

  -- `wget_robots_parse`
  unfoldable pub robots_parse : Option Bytes → Bytes → Option Robots
  robots_parse client [] = none
  robots_parse client (c ∷ text) =
      some
        (parse_lines client (length (c ∷ text))
          (record { collect = before; robots = record { paths = []; sitemaps = [] } })
          (c ∷ text)).robots
