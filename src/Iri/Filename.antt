-- ===== src/Iri/Filename.antt =====
-- libwget/iri.c: `wget_iri_get_escaped_host`, `wget_iri_get_escaped_resource`, `wget_iri_get_path`,
-- `wget_iri_get_query_as_filename` and `wget_iri_get_filename`. Each takes the bytes in the buffer and returns the
-- bytes that it then holds.
pub mod Names
mod Tests
use wget.Prelude.{
  ℕ, suc, Bool, true, false, not, ◌&&◌, ◌||◌, [], ◌∷◌, ◌++◌, Option, none, some, drop, ◌==◌,
  if◌then◌else◌, Bytes, codes, Ctype, last_index,
}
use wget.Iri.Percent.{escape, escape_path, escape_query, escape_loop}
use wget.Iri.Parse.{Iri}

-- the test of the encoding for UTF-8, `wget_utf8_to_str`, which calls iconv, and `default_page`
pub record Locale : Type 0 where
  pub is_utf8 : Bool
  pub utf8_to_str : Bytes → Option Bytes
  pub default_page : Option Bytes

abbrev pub ends_with : ℕ → Bytes → Bool
ends_with c [] = false
ends_with c (d ∷ []) = d == c
ends_with c (d ∷ e ∷ s) = ends_with c (e ∷ s)

abbrev pub is_nil : Bytes → Bool
is_nil [] = true
is_nil (c ∷ s) = false

-- `(p = strrchr(path, '/')) ? p + 1 : path`
abbrev pub from_last : Bytes → Option ℕ → Bytes
from_last s none = s
from_last s (some i) = drop (suc i) s

abbrev pub last_part : Bytes → Bytes
last_part path = from_last path (last_index b'/' path)

-- `slashes`, as far as it is tested
abbrev pub has_slash : Bytes → Bool
has_slash [] = false
has_slash (c ∷ s) = c == b'/' || has_slash s

abbrev pub not_slash : ℕ → Bool
not_slash c = not (c == b'/')

abbrev pub slash_code : ℕ → Bytes
slash_code c = codes "%2F"

abbrev pub converted_or : Bytes → Option Bytes → Bytes
converted_or s none = s
converted_or s (some t) = t

abbrev pub or_page : Option Bytes → Bytes → Bytes
or_page none buf = buf
or_page (some page) buf = buf ++ page

-- the branch for slashes and the other one
abbrev pub query_name : Bytes → Bytes → Bytes
query_name query buf =
    if has_slash query then escape_loop not_slash slash_code buf [] query else buf ++ query

module _ (locale : Locale) where
  -- the string in the encoding; itself when the conversion fails
  abbrev pub in_locale : Bytes → Bytes
  in_locale s = if locale.is_utf8 then s else converted_or s (locale.utf8_to_str s)

  -- `if ((buf->length == 0 || …) && default_page)`
  abbrev pub with_default_page : Bytes → Bytes
  with_default_page buf =
      if is_nil buf || ends_with b'/' buf then or_page locale.default_page buf else buf

  -- `wget_iri_get_query_as_filename`
  unfoldable pub get_query_as_filename : Option Bytes → Bytes → Bytes
  get_query_as_filename none buf = buf
  get_query_as_filename (some query) buf = query_name (in_locale query) (buf ++ (b'?' ∷ []))

  abbrev pub with_path : (Bytes → Bytes) → Option Bytes → Bytes → Bytes
  with_path part none buf = buf
  with_path part (some path) buf = buf ++ in_locale (part path)

  -- `wget_iri_get_filename`
  unfoldable pub get_filename : Iri → Bytes → Bytes
  get_filename iri buf =
      get_query_as_filename iri.query (with_default_page (with_path last_part iri.path buf))

  -- `wget_iri_get_path`
  unfoldable pub get_path : Iri → Bytes → Bytes
  get_path iri buf = with_default_page (
      with_path (λ path. path) iri.path
        (if not (is_nil buf) && not (ends_with b'/' buf) then buf ++ (b'/' ∷ []) else buf))

abbrev pub or_nothing : (Bytes → Bytes → Bytes) → Option Bytes → Bytes → Bytes
or_nothing f none buf = buf
or_nothing f (some s) buf = f s buf

module _ (ctype : Ctype) where
  -- `wget_iri_get_escaped_resource`
  unfoldable pub get_escaped_resource : Iri → Bytes → Bytes
  get_escaped_resource iri buf =
      or_nothing (λ query b. escape_query ctype query (b ++ (b'?' ∷ []))) iri.query
        (or_nothing (escape_path ctype) iri.path buf)
