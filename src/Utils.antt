-- ===== src/Utils.antt =====
-- libwget/utils.c and libwget/encoding.c: functions on strings. A function that writes to a buffer
-- returns the bytes in front of the NUL that it writes, `none` where it writes nothing.
pub mod Hex
mod Tests
use wget.Prelude.{
  bit_or, ℕ, zero, suc, ◌+◌, ◌-◌, ◌*◌, ◌/◌, ◌%◌, Bool, true, false, not, ◌&&◌, ◌||◌, List, [], ◌∷◌,
  ◌++◌, Option, none, some, length, take, drop, ltb, leb, ◌==◌, if◌then◌else◌, Bytes, codes, at,
  between, streq, Ctype, map,
}

-- `c >= 10 ? c + 'a' - 10 : c + '0'`
abbrev pub lower_digit : ℕ → ℕ
lower_digit c = if leb 10 c then c + b'a' - 10 else c + b'0'

-- `c >= 10 ? c + 'A' - 10 : c + '0'`
abbrev pub upper_digit : ℕ → ℕ
upper_digit c = if leb 10 c then c + b'A' - 10 else c + b'0'

-- `_unhex`, an `unsigned char`
abbrev pub hex_value : ℕ → ℕ
hex_value c =
    if leb c b'9'
    then (c + 256 - b'0') % 256
    else if leb c b'F'
    then (c + 266 - b'A') % 256
    else (c + 266 - b'a') % 256

-- `(unsigned char) (_unhex(s[1]) << 4) | _unhex(s[2])`
abbrev pub hex_pair : ℕ → ℕ → ℕ
hex_pair a b = bit_or (hex_value a * 16 % 256) (hex_value b)

-- the loop of `wget_memtohex`
abbrev pub to_hex : Bytes → Bytes
to_hex [] = []
to_hex (c ∷ src) = lower_digit (c / 16) ∷ lower_digit (c % 16) ∷ to_hex src

-- `if (adjust && (dst_size & 1) == 0) …`, at the byte behind those that were encoded
abbrev pub half_byte : ℕ → Bytes → Bytes
half_byte dst_size src = if dst_size % 2 == 0 then lower_digit (at src 0 / 16) ∷ [] else []

-- `wget_memtohex`
unfoldable pub memtohex : Bytes → ℕ → Option Bytes
memtohex src zero = none
memtohex src (suc n) =
    if leb (suc n) (length src * 2)
    then some (to_hex (take (n / 2) src) ++ half_byte (suc n) (drop (n / 2) src))
    else some (to_hex src)

-- `wget_match_tail`
unfoldable pub match_tail : Bytes → Bytes → Bool
match_tail s tail =
    if ltb (length s) (length tail) then false else streq (drop (length s - length tail) s) tail

-- the two hexadecimal digits of `wget_restrict_file_name`
abbrev pub escaped : ℕ → Bytes
escaped c = b'%' ∷ upper_digit (c / 16) ∷ upper_digit (c % 16) ∷ []

-- the loops of `wget_restrict_file_name`: `test` says which bytes are escaped
abbrev pub escape_bytes : (ℕ → Bool) → Bytes → Bytes
escape_bytes test [] = []
escape_bytes test (c ∷ s) =
    if test c then escaped c ++ escape_bytes test s else c ∷ escape_bytes test s

-- `WGET_RESTRICT_NAMES_…`
pub data Restrict : Type 0 where
  restrict_windows restrict_nocontrol restrict_ascii restrict_uppercase restrict_lowercase
        restrict_unix :
      Restrict

-- `*s < 32` of a signed char
abbrev pub below_space : ℕ → Bool
below_space c = ltb c 32 || leb 128 c

abbrev pub one_of : Bytes → ℕ → Bool
one_of [] c = false
one_of (d ∷ s) c = c == d || one_of s c

-- `wget_restrict_file_name`; where it changes no byte it returns its argument
unfoldable pub restrict_file_name : Restrict → Bytes → Bytes
restrict_file_name restrict_windows s =
    escape_bytes (λ c. below_space c || one_of (codes "\\<>:\"|?*") c) s
restrict_file_name restrict_nocontrol s = s
restrict_file_name restrict_ascii s = escape_bytes below_space s
restrict_file_name restrict_uppercase s = map (λ c. if between b'a' b'z' c then c - 32 else c) s
restrict_file_name restrict_lowercase s = map (λ c. if between b'A' b'Z' c then c + 32 else c) s
restrict_file_name restrict_unix s = escape_bytes (between 1 31) s

-- `wget_str_needs_encoding`
unfoldable pub str_needs_encoding : Bytes → Bool
str_needs_encoding [] = false
str_needs_encoding (c ∷ s) = leb 128 c || str_needs_encoding s

-- `(c & 0xC0) == 0x80`
abbrev pub follows : ℕ → Bool
follows c = c / 64 == 2

-- the loop of `wget_str_is_valid_utf8`: `more` bytes must follow
abbrev pub utf8_from : ℕ → Bytes → Bool
utf8_from zero [] = true
utf8_from (suc more) [] = false
utf8_from (suc more) (c ∷ s) = follows c && utf8_from more s
utf8_from zero (c ∷ s) =
    let next =
      utf8_from (if ltb c 128 then 0 else if c / 32 == 6 then 1 else if c / 16 == 14 then 2 else 3)
        s in
    (ltb c 128 || c / 32 == 6 || c / 16 == 14 || c / 8 == 30) && next

-- `wget_str_is_valid_utf8`
unfoldable pub str_is_valid_utf8 : Bytes → Bool
str_is_valid_utf8 s = utf8_from 0 s

module _ (ctype : Ctype) where
  -- `wget_strtolower`
  unfoldable pub strtolower : Bytes → Bytes
  strtolower s = map (λ c. if ctype.isupper c then ctype.tolower c else c) s

  -- `wget_match_tail_nocase`
  unfoldable pub match_tail_nocase : Bytes → Bytes → Bool
  match_tail_nocase s tail =
      if ltb (length s) (length tail)
      then false
      else ctype.strcaseeq (drop (length s - length tail) s) tail

  -- `wget_percent_unescape`: whether it returns 1, and the bytes that it writes over `src`
  unfoldable pub percent_unescape : Bytes → Bool × Bytes
  percent_unescape [] = (false, [])
  percent_unescape (c ∷ []) = (false, c ∷ [])
  percent_unescape (c ∷ a ∷ []) = (false, c ∷ a ∷ [])
  percent_unescape (c ∷ a ∷ b ∷ s) = elim (c == b'%' && (ctype.isxdigit a && ctype.isxdigit b)) [
    | true ↦ (true, hex_pair a b ∷ (percent_unescape s).1)
    | false ↦ ((percent_unescape (a ∷ b ∷ s)).0, c ∷ (percent_unescape (a ∷ b ∷ s)).1)
  ]
