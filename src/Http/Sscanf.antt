-- ===== src/Http/Sscanf.antt =====
-- `sscanf` of the C library, as far as libwget/http_parse.c uses it: what its formats for dates convert.
use wget.Prelude.{
  ℕ, zero, suc, ◌+◌, ◌-◌, ◌*◌, Bool, ◌||◌, List, [], ◌∷◌, Option, none, some, length, ◌==◌,
  if◌then◌else◌, Bytes, between, span, skip, ℤ, pos, negsuc,
}

-- the fields of a date
pub record Fields : Type 0 where
  pub day : ℤ
  pub mname : Bytes
  pub year : ℤ
  pub hour : ℤ
  pub min : ℤ
  pub sec : ℤ

-- the field that a conversion stores to
pub data Target : Type 0 where
  to_day to_year to_hour to_min to_sec : Target

-- White space, `%*[a-zA-Z]`, a byte, `%Nd` with `some N` or `%d`, and `%Ns` into the name of the month.
pub data Directive : Type 0 where
  blank letters : Directive
  byte : ℕ → Directive
  number : Option ℕ → Target → Directive
  word : ℕ → Directive

abbrev pub is_space : ℕ → Bool
is_space c = c == b' ' || between 9 13 c

abbrev pub is_letter : ℕ → Bool
is_letter c = between b'a' b'z' c || between b'A' b'Z' c

abbrev pub is_digit : ℕ → Bool
is_digit c = between b'0' b'9' c

-- at most `width` digits more
unfoldable pub digits : ℕ → ℕ → Bytes → ℕ × Bytes
digits zero n s = (n, s)
digits (suc width) n [] = (n, [])
digits (suc width) n (c ∷ s) =
    let rest = digits width (n * 10 + (c - 48)) s in if is_digit c then rest else (n, c ∷ s)

-- a number of one digit at least
unfoldable pub unsigned : ℕ → Bytes → Option (ℕ × Bytes)
unfolding digits
unsigned zero s = none
unsigned (suc width) [] = none
unsigned (suc width) (c ∷ s) = if is_digit c then some (digits width (c - 48) s) else none

abbrev pub opposite : ℕ → ℤ
opposite zero = pos 0
opposite (suc n) = negsuc n

abbrev pub with_sign : (ℕ → ℤ) → Option (ℕ × Bytes) → Option (ℤ × Bytes)
with_sign sign none = none
with_sign sign (some (n, s)) = some (sign n, s)

-- the sign counts as one of the bytes
unfoldable pub signed : ℕ → Bytes → Option (ℤ × Bytes)
unfolding unsigned
signed zero s = none
signed (suc width) [] = none
signed (suc width) (c ∷ s) =
    if c == b'-'
    then with_sign opposite (unsigned width s)
    else if c == b'+'
    then with_sign pos (unsigned width s)
    else with_sign pos (unsigned (suc width) (c ∷ s))

abbrev pub width_or : Option ℕ → Bytes → ℕ
width_or none s = length s
width_or (some width) s = width

-- a conversion with `%d`; with no width the number is taken to fit in an `int`
abbrev pub scan_number : Option ℕ → Bytes → Option (ℤ × Bytes)
scan_number width s = let t = skip is_space s in signed (width_or width t) t

-- at most `width` bytes up to white space
unfoldable pub word_bytes : ℕ → Bytes → Bytes × Bytes
word_bytes zero s = ([], s)
word_bytes (suc width) [] = ([], [])
word_bytes (suc width) (c ∷ s) =
    let (w, rest) = word_bytes width s in if is_space c then ([], c ∷ s) else (c ∷ w, rest)

abbrev pub store : Target → ℤ → Fields → Fields
store to_day n f = record f { day = n }
store to_year n f = record f { year = n }
store to_hour n f = record f { hour = n }
store to_min n f = record f { min = n }
store to_sec n f = record f { sec = n }

-- what follows a conversion, which must have taken a byte
abbrev pub with_bytes : Bytes × Bytes → (Bytes → Bytes → Option Fields) → Option Fields
with_bytes ([], rest) further = none
with_bytes (c ∷ w, rest) further = further (c ∷ w) rest

abbrev pub with_number : Option (ℤ × Bytes) → (ℤ → Bytes → Option Fields) → Option Fields
with_number none further = none
with_number (some (n, rest)) further = further n rest

abbrev pub with_byte : ℕ → Bytes → (Bytes → Option Fields) → Option Fields
with_byte c [] further = none
with_byte c (d ∷ s) further = if d == c then further s else none

-- the fields that all conversions of a format store, or none if not all of them are made
unfoldable pub scan : List Directive → Bytes → Fields → Option Fields
unfolding signed word_bytes
scan [] s f = some f
scan (blank ∷ ds) s f = scan ds (skip is_space s) f
scan (letters ∷ ds) s f = with_bytes (span is_letter s) (λ w rest. scan ds rest f)
scan (byte c ∷ ds) s f = with_byte c s (λ rest. scan ds rest f)
scan (number width target ∷ ds) s f =
    with_number (scan_number width s) (λ n rest. scan ds rest (store target n f))
scan (word width ∷ ds) s f =
    with_bytes (word_bytes width (skip is_space s))
      (λ w rest. scan ds rest (record f { mname = w }))
