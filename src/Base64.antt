-- ===== src/Base64.antt =====
-- libwget/base64.c: the alphabet, encoding, decoding and the check for a base64 string.
-- A buffer of n bytes is the list of those bytes. `&` with a mask of low bits is `%`, `>>` is `/`,
-- `<<` is `*`, and the cast to `char` is `% 256`.
mod Groups
pub mod RoundTrip
mod Tests
use wget.Prelude.{
  ℕ, zero, suc, ◌+◌, ◌*◌, ◌/◌, ◌%◌, bit_or, Bool, true, not, ◌&&◌, ◌||◌, List, [], ◌∷◌, ◌++◌,
  length, get_or, drop, ◌==◌, if◌then◌else◌, Bytes, codes, at, between,
}

-- `base64_2_bin`
abbrev pub base64_2_bin : Bytes
base64_2_bin =
    0 ∷ 0 ∷ 0 ∷ 0 ∷ 0 ∷ 0 ∷ 0 ∷ 0 ∷ 0 ∷ 0 ∷ 0 ∷ 0 ∷ 0 ∷ 0 ∷ 0 ∷ 0 ∷ 0 ∷ 0 ∷ 0 ∷ 0 ∷ 0 ∷ 0 ∷ 0 ∷ 0
    ∷ 0 ∷ 0 ∷ 0 ∷ 0 ∷ 0 ∷ 0 ∷ 0 ∷ 0 ∷ 0 ∷ 0 ∷ 0 ∷ 0 ∷ 0 ∷ 0 ∷ 0 ∷ 0 ∷ 0 ∷ 0 ∷ 0 ∷ 62 ∷ 0 ∷ 0 ∷ 0
    ∷ 63 ∷ 52 ∷ 53 ∷ 54 ∷ 55 ∷ 56 ∷ 57 ∷ 58 ∷ 59 ∷ 60 ∷ 61 ∷ 0 ∷ 0 ∷ 0 ∷ 0 ∷ 0 ∷ 0 ∷ 0 ∷ 0 ∷ 1 ∷ 2
    ∷ 3 ∷ 4 ∷ 5 ∷ 6 ∷ 7 ∷ 8 ∷ 9 ∷ 10 ∷ 11 ∷ 12 ∷ 13 ∷ 14 ∷ 15 ∷ 16 ∷ 17 ∷ 18 ∷ 19 ∷ 20 ∷ 21 ∷ 22
    ∷ 23 ∷ 24 ∷ 25 ∷ 0 ∷ 0 ∷ 0 ∷ 0 ∷ 0 ∷ 0 ∷ 26 ∷ 27 ∷ 28 ∷ 29 ∷ 30 ∷ 31 ∷ 32 ∷ 33 ∷ 34 ∷ 35 ∷ 36
    ∷ 37 ∷ 38 ∷ 39 ∷ 40 ∷ 41 ∷ 42 ∷ 43 ∷ 44 ∷ 45 ∷ 46 ∷ 47 ∷ 48 ∷ 49 ∷ 50 ∷ 51 ∷ 0 ∷ 0 ∷ 0 ∷ 0 ∷ 0
    ∷ 0 ∷ 0 ∷ 0 ∷ 0 ∷ 0 ∷ 0 ∷ 0 ∷ 0 ∷ 0 ∷ 0 ∷ 0 ∷ 0 ∷ 0 ∷ 0 ∷ 0 ∷ 0 ∷ 0 ∷ 0 ∷ 0 ∷ 0 ∷ 0 ∷ 0 ∷ 0 ∷ 0
    ∷ 0 ∷ 0 ∷ 0 ∷ 0 ∷ 0 ∷ 0 ∷ 0 ∷ 0 ∷ 0 ∷ 0 ∷ 0 ∷ 0 ∷ 0 ∷ 0 ∷ 0 ∷ 0 ∷ 0 ∷ 0 ∷ 0 ∷ 0 ∷ 0 ∷ 0 ∷ 0 ∷ 0
    ∷ 0 ∷ 0 ∷ 0 ∷ 0 ∷ 0 ∷ 0 ∷ 0 ∷ 0 ∷ 0 ∷ 0 ∷ 0 ∷ 0 ∷ 0 ∷ 0 ∷ 0 ∷ 0 ∷ 0 ∷ 0 ∷ 0 ∷ 0 ∷ 0 ∷ 0 ∷ 0 ∷ 0
    ∷ 0 ∷ 0 ∷ 0 ∷ 0 ∷ 0 ∷ 0 ∷ 0 ∷ 0 ∷ 0 ∷ 0 ∷ 0 ∷ 0 ∷ 0 ∷ 0 ∷ 0 ∷ 0 ∷ 0 ∷ 0 ∷ 0 ∷ 0 ∷ 0 ∷ 0 ∷ 0 ∷ 0
    ∷ 0 ∷ 0 ∷ 0 ∷ 0 ∷ 0 ∷ 0 ∷ 0 ∷ 0 ∷ 0 ∷ 0 ∷ 0 ∷ 0 ∷ 0 ∷ 0 ∷ 0 ∷ 0 ∷ 0 ∷ 0 ∷ 0 ∷ 0 ∷ 0 ∷ 0 ∷ 0 ∷ 0
    ∷ 0 ∷ 0 ∷ 0 ∷ 0 ∷ 0 ∷ 0 ∷ 0 ∷ 0 ∷ []

-- the table `base64` of `wget_base64_encode`
abbrev pub base64_table : Bytes
base64_table = codes "ABCDEFGHIJKLMNOPQRSTUVWXYZabcdefghijklmnopqrstuvwxyz0123456789+/"

pub bin : ℕ → ℕ
bin c = get_or base64_2_bin c 0

pub digit : ℕ → ℕ
digit i = get_or base64_table i 0

-- `_isbase64`
pub is_base64 : ℕ → Bool
is_base64 c =
    between b'A' b'Z' c || between b'a' b'z' c || between b'0' b'9' c || c == b'+' || c == b'/'

-- `while (_isbase64(*src)) src++`
pub skip_base64 : Bytes → Bytes
skip_base64 [] = []
skip_base64 (c ∷ p) = if is_base64 c then skip_base64 p else c ∷ p

-- `wget_base64_is_string` at a pointer that is not NULL
unfoldable pub is_string : Bytes → Bool
unfolding skip_base64 is_base64
is_string src =
    let p = skip_base64 src in
    at p 0 == 0
    || (at p 0 == b'=' && not (at p 1 == 0))
    || (at p 0 == b'=' && at p 1 == b'=' && not (at p 2 == 0))

-- `while (n > 0 && !_isbase64(usrc[n - 1])) n--`
pub trim : Bytes → ℕ → ℕ
trim p zero = zero
trim p (suc n) = let rest = trim p n in if is_base64 (at p n) then suc n else rest

-- The three bytes of a group; `i`, `j`, `k`, `l` are entries of `base64_2_bin`.
pub byte0 : ℕ → ℕ → ℕ
byte0 i j = bit_or (i * 4) (j / 16) % 256

pub byte1 : ℕ → ℕ → ℕ
byte1 j k = bit_or (j % 16 * 16) (k / 4) % 256

pub byte2 : ℕ → ℕ → ℕ
byte2 k l = bit_or (k % 4 * 64) l % 256

-- `*dst = c; if (*dst) dst++;`
pub unless_nul : ℕ → Bytes
unless_nul c = if c == 0 then [] else c ∷ []

-- the switch on `extra`
pub decode_extra : ℕ → Bytes → Bytes
decode_extra extra p =
    if extra == 1
    then (bin (at p 0) * 4 % 256) ∷ []
    else if extra == 2
    then byte0 (bin (at p 0)) (bin (at p 1)) ∷ unless_nul (bin (at p 1) % 16 * 16 % 256)
    else if extra == 3
    then byte0 (bin (at p 0)) (bin (at p 1))
      ∷ byte1 (bin (at p 1)) (bin (at p 2))
      ∷ unless_nul (bin (at p 2) % 4 * 64 % 256)
    else []

-- `n` groups of four, then the switch
pub decode_groups : ℕ → ℕ → Bytes → Bytes
decode_groups zero extra p = decode_extra extra p
decode_groups (suc n) extra p =
    byte0 (bin (at p 0)) (bin (at p 1))
    ∷ byte1 (bin (at p 1)) (bin (at p 2))
    ∷ byte2 (bin (at p 2)) (bin (at p 3))
    ∷ decode_groups n extra (drop 4 p)

-- `wget_base64_decode`: what it writes before the final NUL. The length that it returns is the
-- length of this list.
unfoldable pub decode : Bytes → Bytes
unfolding trim decode_groups decode_extra unless_nul byte0 byte1 byte2 bin is_base64
decode src = let n = trim src (length src) in decode_groups (n / 4) (n % 4) src

-- the special cases behind the groups
pub encode_extra : ℕ → Bytes → Bytes
encode_extra extra p =
    if extra == 1
    then digit (at p 0 / 4) ∷ digit (at p 0 % 4 * 16) ∷ b'=' ∷ b'=' ∷ []
    else if extra == 2
    then digit (at p 0 / 4)
      ∷ digit (bit_or (at p 0 % 4 * 16) (at p 1 / 16))
      ∷ digit (at p 1 % 16 * 4)
      ∷ b'='
      ∷ []
    else []

-- `n` groups of three, then the special cases
pub encode_groups : ℕ → ℕ → Bytes → Bytes
encode_groups zero extra p = encode_extra extra p
encode_groups (suc n) extra p =
    digit (at p 0 / 4)
    ∷ digit (bit_or (at p 0 % 4 * 16) (at p 1 / 16))
    ∷ digit (bit_or (at p 1 % 16 * 4) (at p 2 / 64))
    ∷ digit (at p 2 % 64)
    ∷ encode_groups n extra (drop 3 p)

-- `wget_base64_encode`: the string that it writes
unfoldable pub encode : Bytes → Bytes
unfolding encode_groups encode_extra digit
encode src = let n = length src in encode_groups (n / 3) (n % 3) src
