-- ===== src/Iri/Percent.antt =====
-- libwget/iri.c: the character classes, `wget_iri_escape`, `wget_iri_escape_path`,
-- `wget_iri_escape_query` and `wget_iri_unescape_inline`. A function that appends to a
-- `wget_buffer_t` takes the bytes in the buffer and returns the bytes that it then holds.
pub mod Each
pub mod RoundTrip
pub mod Visible
mod Tests
use wget.Prelude.{
  ℕ, zero, suc, ◌+◌, ◌-◌, ◌*◌, ◌/◌, ◌%◌, bit_or, Bool, true, false, not, ◌&&◌, ◌||◌, List, [], ◌∷◌,
  ◌++◌, ltb, leb, ◌==◌, if◌then◌else◌, Bytes, Ctype,
}

-- `iri_ctype[c] & IRI_CTYPE_GENDELIM`
unfoldable pub isgendelim : ℕ → Bool
isgendelim c =
    c == b':' || c == b'/' || c == b'?' || c == b'#' || c == b'[' || c == b']' || c == b'@'

-- `iri_ctype[c] & IRI_CTYPE_SUBDELIM`
pub issubdelim : ℕ → Bool
issubdelim c =
    c == b'!'
    || c == b'$'
    || c == b'&'
    || c == 39
    || c == b'('
    || c == b')'
    || c == b'*'
    || c == b'+'
    || c == b','
    || c == b';'
    || c == b'='

-- `wget_iri_isreserved`
pub isreserved : ℕ → Bool
isreserved c = isgendelim c || issubdelim c

-- `_iri_isunreserved`: `iri_ctype[c] & IRI_CTYPE_UNRESERVED`
pub unreserved_mark : ℕ → Bool
unreserved_mark c = c == b'-' || c == b'.' || c == b'_' || c == b'~'

-- what `%%%02X` prints
pub hex_digit : ℕ → ℕ
hex_digit n = if ltb n 10 then n + b'0' else n - 10 + b'A'

pub percent : ℕ → Bytes
percent c = b'%' ∷ hex_digit (c / 16) ∷ hex_digit (c % 16) ∷ []

-- The loop of the three functions: `keep` is the test that the byte stays, `write` what is written
-- for another. `run` holds the bytes from `begin` up to `src`.
pub escape_loop : (ℕ → Bool) → (ℕ → Bytes) → Bytes → Bytes → Bytes → Bytes
escape_loop keep write buf run [] = buf ++ run
escape_loop keep write buf run (c ∷ src) =
    escape_loop keep write (if keep c then buf else (buf ++ run) ++ write c)
      (if keep c then run ++ c ∷ [] else []) src

-- `_unhex`, an `unsigned char`
pub unhex : ℕ → ℕ
unhex c =
    if leb c b'9'
    then (c + 256 - b'0') % 256
    else if leb c b'F'
    then (c + 266 - b'A') % 256
    else (c + 266 - b'a') % 256

-- `(unsigned char) (_unhex(s[1]) << 4) | _unhex(s[2])`
pub hex_byte : ℕ → ℕ → ℕ
hex_byte a b = bit_or (unhex a * 16 % 256) (unhex b)

module _ (ctype : Ctype) where
  -- `wget_iri_isunreserved`; a byte from 128 on is a negative `char`, so not above 32
  pub isunreserved : ℕ → Bool
  isunreserved c = ltb 32 c && ltb c 127 && (ctype.isalnum c || unreserved_mark c)

  -- `wget_iri_isunreserved_path`
  pub isunreserved_path : ℕ → Bool
  isunreserved_path c = ltb 32 c && ltb c 127 && (ctype.isalnum c || unreserved_mark c || c == b'/')

  -- `wget_iri_escape`
  unfoldable pub escape : Bytes → Bytes → Bytes
  unfolding escape_loop percent hex_digit isunreserved unreserved_mark
  escape src buf = escape_loop isunreserved percent buf [] src

  -- `wget_iri_escape_path`
  unfoldable pub escape_path : Bytes → Bytes → Bytes
  unfolding escape_loop percent hex_digit isunreserved_path unreserved_mark
  escape_path src buf = escape_loop isunreserved_path percent buf [] src

  pub keep_query : ℕ → Bool
  keep_query c = isunreserved c || c == b'=' || c == b'&'

  pub write_query : ℕ → Bytes
  write_query c = if c == b' ' then b'+' ∷ [] else percent c

  -- `wget_iri_escape_query`
  unfoldable pub escape_query : Bytes → Bytes → Bytes
  unfolding escape_loop percent hex_digit isunreserved unreserved_mark keep_query write_query
  escape_query src buf = escape_loop keep_query write_query buf [] src

  -- one round of `wget_iri_unescape_inline` in front of what the rest does
  pub keep_byte : ℕ → Bool × Bytes → Bool × Bytes
  keep_byte c (changed, out) = (changed, c ∷ out)

  pub put_byte : ℕ → Bool × Bytes → Bool × Bytes
  put_byte c (changed, out) = (true, c ∷ out)

  -- `wget_iri_unescape_inline`: whether it returns `src` or NULL, and the bytes that it writes
  -- over `src`. `d` is never behind `s`, so no byte is overwritten before it is read.
  unfoldable pub unescape : Bytes → Bool × Bytes
  unfolding keep_byte put_byte hex_byte unhex
  unescape [] = (false, [])
  unescape (c ∷ []) = keep_byte c (false, [])
  unescape (c ∷ a ∷ []) = keep_byte c (unescape (a ∷ []))
  unescape (c ∷ a ∷ b ∷ s) = elim (c == b'%' && ctype.isxdigit a && ctype.isxdigit b) [
    | true ↦ put_byte (hex_byte a b) (unescape s)
    | false ↦ keep_byte c (unescape (a ∷ b ∷ s))
  ]
