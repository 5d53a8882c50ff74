-- ===== src/Http/Progress.antt =====
-- How far the parsers of a header parameter read.
use wget.Prelude.{
  length-skip, length-span, ℕ, ◌<◌, ◌≤◌, Bool, false, not, ◌&&◌, [], ◌∷◌, length, length-drop, drop,
  ◌==◌, Bytes, Ctype, arith,
}
use wget.Http.{
  skip, istoken, parse_token, scan_quoted, skip_quote, parse_quoted_string, parse_value,
  parse_equals, skip_semicolon, parse_named, parse_param,
}

length-scan_quoted : (escaped : Bool) (s : Bytes) → length (scan_quoted escaped s).1 ≤ length s
unfolding scan_quoted
length-scan_quoted escaped [] = omega arith
length-scan_quoted escaped (c ∷ s) =
    ground (arith, length-scan_quoted (not escaped && c == b'\\') s)

length-skip_quote : (s : Bytes) → length (skip_quote s) ≤ length s
length-skip_quote s = ground (arith, length-drop 1 s)

length-parse_quoted_string : (s : Bytes) → length (parse_quoted_string s).1 ≤ length s
unfolding parse_quoted_string
length-parse_quoted_string s = ground (
  arith,
  length-drop 1 s,
  length-scan_quoted false (drop 1 s),
  length-skip_quote (scan_quoted false (drop 1 s)).1,
)

pub length-parse_token : (s : Bytes) → length (parse_token s).1 ≤ length s
unfolding parse_token
length-parse_token s = length-span istoken s

module _ (ctype : Ctype) where
  length-parse_value : (s : Bytes) → length (parse_value ctype s).1 ≤ length s
  unfolding parse_value
  length-parse_value s = ground (arith, length-parse_quoted_string s, length-parse_token s)

  -- `parse_equals` reads a byte if there is one
  length-parse_equals :
      (name s : Bytes) (n : ℕ) → length s ≤ n → 0 < n → length (parse_equals ctype name s).1 < n
  unfolding parse_equals
  length-parse_equals name [] n h k = k
  length-parse_equals name (c ∷ s) n h k =
      ground (arith, length-parse_value (skip ctype.isblank s), length-skip ctype.isblank s)

  length-parse_named :
      (s : Bytes) (n : ℕ) → length s ≤ n → 0 < n → length (parse_named ctype s).1 < n
  unfolding parse_named
  length-parse_named [] n h k = k
  length-parse_named (c ∷ s) n h k =
      let (name, rest) = parse_token (c ∷ s) in
      length-parse_equals name (skip ctype.isblank rest) n
        (omega (arith, length-parse_token (c ∷ s), length-skip ctype.isblank rest)) k

  length-skip_semicolon : (s : Bytes) → length (skip_semicolon ctype s) ≤ length s
  length-skip_semicolon s = ground (arith, length-drop 1 s, length-skip ctype.isblank (drop 1 s))

  -- `wget_http_parse_param` reads at least one byte of a string that is not empty.
  pub length-parse_param : (s : Bytes) → 0 < length s → length (parse_param ctype s).1 < length s
  unfolding parse_param
  length-parse_param s h =
      let blank = skip ctype.isblank s in
      length-parse_named (skip_semicolon ctype blank) (length s)
        (omega (arith, length-skip_semicolon blank, length-skip ctype.isblank s)) h
