-- ===== src/Http/Disposition.antt =====
-- libwget/http_parse.c: `wget_http_parse_content_disposition` where the file name is asked for.
-- `wget_str_to_utf8`, which calls iconv, is a parameter.
pub mod FileName
use wget.Prelude.{
  ℕ, zero, suc, Bool, true, false, not, ◌&&◌, ◌||◌, [], ◌∷◌, Option, none, some, drop, length, ◌==◌,
  if◌then◌else◌, Bytes, codes, at, Ctype,
}
use wget.Http.{span, Param, parse_param}
use wget.Http.Directives.{names}
use wget.Utils.{percent_unescape, str_is_valid_utf8, str_needs_encoding}

abbrev pub is_slash : ℕ → Bool
is_slash c = c == b'/' || c == b'\\'

-- `if ((p = strpbrk(value, "/\\"))) p = wget_strdup(p + 1)`: from what is in front of the slash and
-- what stands from it on
abbrev pub behind_slash : Bytes → Bytes × Bytes → Bytes
behind_slash value (front, []) = value
behind_slash value (front, c ∷ rest) = rest

unfoldable pub path_part : Bytes → Bytes
path_part value = behind_slash value (span (λ c. not (is_slash c)) value)

-- what a parameter leads to: the next one, a name, or the name that ends the loop
pub data Found : Type 0 where
  no_name : Found
  name_found last_found : Option Bytes → Found

module _ (ctype : Ctype) (to_utf8 : Bytes → Bytes → Option Bytes) where
  -- the value of `filename`
  unfoldable pub plain_name : Bytes → Option Bytes
  plain_name value =
      let p = (percent_unescape ctype (path_part value)).1 in
      if str_is_valid_utf8 p then some p else to_utf8 p (codes "iso-8859-1")

  abbrev pub path_of : Option Bytes → Option Bytes
  path_of none = none
  path_of (some name) = some (path_part name)

  -- behind the second quote
  abbrev pub decoded_name : Bytes → Bytes → Found
  decoded_name charset [] = no_name
  decoded_name charset (c ∷ s) =
      let p = (percent_unescape ctype (c ∷ s)).1 in
      last_found (path_of (if str_needs_encoding p then to_utf8 p charset else some p))

  abbrev pub behind_language : Bytes → Bytes → Found
  behind_language charset [] = no_name
  behind_language charset (c ∷ s) = decoded_name charset s

  abbrev pub behind_charset : Bytes → Bytes → Found
  behind_charset charset [] = no_name
  behind_charset charset (c ∷ s) = behind_language charset (span (λ d. not (d == 39)) s).1

  -- the value of `filename*`
  unfoldable pub extended_name : Bytes → Found
  extended_name value =
      let (charset, rest) = span (λ d. not (d == 39)) value in behind_charset charset rest

  abbrev pub name_of : Option Bytes → Option Bytes → Found
  name_of name none = no_name
  name_of name (some value) =
      if names ctype name (codes "filename")
      then name_found (plain_name value)
      else if names ctype name (codes "filename*")
      then extended_name value
      else no_name

  -- `while (*s && !*filename)` goes on with `loop`
  abbrev pub found : Option Bytes → Found → Option Bytes
  found further no_name = further
  found further (name_found none) = further
  found further (name_found (some name)) = some name
  found further (last_found name) = name

  abbrev pub filename_step : Option Bytes → Param → Option Bytes
  filename_step further param = found further (name_of param.name param.value)

  -- `wget_http_parse_content_disposition`; `fuel` bounds the rounds
  unfoldable pub disposition_name : ℕ → Bytes → Option Bytes
  disposition_name zero s = none
  disposition_name (suc fuel) [] = none
  disposition_name (suc fuel) (c ∷ s) =
      let (param, rest) = parse_param ctype (c ∷ s) in
      filename_step (disposition_name fuel rest) param

  unfoldable pub parse_content_disposition : Bytes → Option Bytes
  parse_content_disposition s = disposition_name (length s) s
