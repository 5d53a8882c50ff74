-- ===== src/Http.antt =====
-- libwget/http_parse.c: tokens, quoted strings and parameters. A parser returns what it read and the
-- rest of the string.
pub mod Directives
pub mod Progress
pub mod RoundTrip
pub mod Loops
pub mod Announced
pub mod Challenge
pub mod Sscanf
pub mod Date
pub mod Disposition
pub mod Links
mod Tests
pub mod Ends
mod HeaderTests
use wget.Prelude.{
  span, skip, ℕ, Bool, true, false, not, ◌&&◌, ◌||◌, List, [], ◌∷◌, Option, none, some, drop, ltb,
  leb, ◌==◌, if◌then◌else◌, Bytes, codes, at, Ctype,
}

-- the entries of `http_ctype`
abbrev pub separators : Bytes
separators = codes "()<>@,;:\\\"/[]?={} \t"

abbrev pub member : ℕ → Bytes → Bool
member c [] = false
member c (d ∷ s) = c == d || member c s

-- `wget_http_isseparator`
unfoldable pub isseparator : ℕ → Bool
isseparator c = member c separators

-- `wget_http_istoken`
unfoldable pub istoken : ℕ → Bool
istoken c = ltb 32 c && leb c 126 && not (isseparator c)

-- `wget_http_parse_token`
unfoldable pub parse_token : Bytes → Bytes × Bytes
parse_token s = span istoken s

-- the scan of a quoted string; `escaped` says whether a backslash stands in front
unfoldable pub scan_quoted : Bool → Bytes → Bytes × Bytes
scan_quoted escaped [] = ([], [])
scan_quoted escaped (c ∷ s) =
    let rest = scan_quoted (not escaped && c == b'\\') s in
    if not escaped && c == b'"' then ([], c ∷ s) else (c ∷ rest.0, rest.1)

-- `if (*s == '\"') s++`
abbrev pub skip_quote : Bytes → Bytes
skip_quote s = if at s 0 == b'"' then drop 1 s else s

-- `wget_http_parse_quoted_string`
unfoldable pub parse_quoted_string : Bytes → Option Bytes × Bytes
parse_quoted_string s =
    let (q, rest) = scan_quoted false (drop 1 s) in
    if at s 0 == b'"' then (some q, skip_quote rest) else (none, s)

-- `wget_http_header_param_t`
pub record Param : Type 0 where
  pub name : Option Bytes
  pub value : Option Bytes

module _ (ctype : Ctype) where
  -- behind the `=`
  unfoldable pub parse_value : Bytes → Option Bytes × Bytes
  parse_value s =
      let token = parse_token s in
      if at s 0 == b'"' then parse_quoted_string s else (some token.0, token.1)

  -- `if (*s && *s++ == '=') …`
  unfoldable pub parse_equals : Bytes → Bytes → Param × Bytes
  parse_equals name [] = (record { name = some name; value = none }, [])
  parse_equals name (c ∷ s) =
      let value = parse_value (skip ctype.isblank s) in
      if c == b'='
      then (record { name = some name; value = value.0 }, value.1)
      else (record { name = some name; value = none }, s)

  -- `if (*s == ';') …`
  abbrev pub skip_semicolon : Bytes → Bytes
  skip_semicolon s = if at s 0 == b';' then skip ctype.isblank (drop 1 s) else s

  -- behind `if (!*s) return s`
  unfoldable pub parse_named : Bytes → Param × Bytes
  parse_named [] = (record { name = none; value = none }, [])
  parse_named (c ∷ s) =
      let (name, rest) = parse_token (c ∷ s) in parse_equals name (skip ctype.isblank rest)

  -- `wget_http_parse_param`
  unfoldable pub parse_param : Bytes → Param × Bytes
  parse_param s = parse_named (skip_semicolon (skip ctype.isblank s))

  -- `while (*s && *s != ':') s++; return *s == ':' ? s + 1 : s`
  unfoldable pub skip_colon : Bytes → Bytes
  skip_colon s = drop 1 (skip (λ c. not (c == b':')) s)

  -- `wget_http_parse_name`, `wget_parse_name_fixed`
  unfoldable pub parse_name : Bytes → Bytes × Bytes
  parse_name s = let (name, rest) = parse_token (skip ctype.isblank s) in (name, skip_colon rest)
