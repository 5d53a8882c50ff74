-- ===== src/Http/Date.antt =====
-- libwget/http_parse.c: `wget_http_parse_full_date`. The formats of the four calls of `sscanf` are lists
-- of directives. `%4d` reads no year above 9999, so no sum leaves an `int`.
pub mod Calendar
pub mod Print
pub mod Layout
pub mod Read
pub mod Parse
use wget.Http.Sscanf.{
  Fields, Directive, blank, letters, byte, number, word, to_day, to_year, to_hour, to_min, to_sec,
  scan,
}
use wget.Prelude.{
  ℕ, suc, ◌+◌, ◌-◌, ◌*◌, ◌/◌, ◌%◌, Bool, true, false, not, ◌&&◌, ◌||◌, List, [], ◌∷◌, Option, none,
  some, get_or, ltb, ◌==◌, if◌then◌else◌, Bytes, codes, between, Ctype, ℤ, pos, negsuc,
}

-- `%2d:%2d:%2d`
abbrev pub time_format : List Directive → List Directive
time_format ds =
    number (some 2) to_hour
    ∷ byte b':'
    ∷ number (some 2) to_min
    ∷ byte b':'
    ∷ number (some 2) to_sec
    ∷ ds

-- `" %*[a-zA-Z], %02d %3s %4d %2d:%2d:%2d"`
abbrev pub rfc1123_format : List Directive
rfc1123_format =
    blank
    ∷ letters
    ∷ byte b','
    ∷ blank
    ∷ number (some 2) to_day
    ∷ blank
    ∷ word 3
    ∷ blank
    ∷ number (some 4) to_year
    ∷ blank
    ∷ time_format []

-- `" %*[a-zA-Z], %2d-%3s-%4d %2d:%2d:%2d"`
abbrev pub rfc850_format : List Directive
rfc850_format =
    blank
    ∷ letters
    ∷ byte b','
    ∷ blank
    ∷ number (some 2) to_day
    ∷ byte b'-'
    ∷ word 3
    ∷ byte b'-'
    ∷ number (some 4) to_year
    ∷ blank
    ∷ time_format []

-- `" %*[a-zA-Z] %3s %2d %2d:%2d:%2d %4d"`
abbrev pub asctime_format : List Directive
asctime_format =
    blank
    ∷ letters
    ∷ blank
    ∷ word 3
    ∷ blank
    ∷ number (some 2) to_day
    ∷ blank
    ∷ time_format (blank ∷ number (some 4) to_year ∷ [])

-- `" %d %3s %4d %2d:%2d:%2d"`
abbrev pub other_format : List Directive
other_format =
    blank
    ∷ number none to_day
    ∷ blank
    ∷ word 3
    ∷ blank
    ∷ number (some 4) to_year
    ∷ blank
    ∷ time_format []

-- a test as a number
abbrev pub bit : Bool → ℕ
bit b = if b then 1 else 0

-- no difference goes below 0 where `y1 ≤ y2`
unfoldable pub leap_days : ℕ → ℕ → ℕ
leap_days y1 y2 =
    ((y2 - 1) / 4 - (y1 - 1) / 4)
    - ((y2 - 1) / 100 - (y1 - 1) / 100)
    + ((y2 - 1) / 400 - (y1 - 1) / 400)

abbrev pub mnames : List Bytes
mnames =
    codes "Jan"
    ∷ codes "Feb"
    ∷ codes "Mar"
    ∷ codes "Apr"
    ∷ codes "May"
    ∷ codes "Jun"
    ∷ codes "Jul"
    ∷ codes "Aug"
    ∷ codes "Sep"
    ∷ codes "Oct"
    ∷ codes "Nov"
    ∷ codes "Dec"
    ∷ []

abbrev pub days_per_month : List ℕ
days_per_month = 31 ∷ 28 ∷ 31 ∷ 30 ∷ 31 ∷ 30 ∷ 31 ∷ 31 ∷ 30 ∷ 31 ∷ 30 ∷ 31 ∷ []

abbrev pub sum_of_days : List ℕ
sum_of_days = 0 ∷ 31 ∷ 59 ∷ 90 ∷ 120 ∷ 151 ∷ 181 ∷ 212 ∷ 243 ∷ 273 ∷ 304 ∷ 334 ∷ []

-- the number that follows `it` for the first name that fits, or 0
abbrev pub month_from : (Bytes → Bytes → Bool) → Bytes → ℕ → List Bytes → ℕ
month_from same mname it [] = 0
month_from same mname it (name ∷ names) =
    if same mname name then suc it else month_from same mname (suc it) names

-- the three corrections of the year
abbrev pub full_year : ℤ → ℕ
full_year (negsuc n) = 1970
full_year (pos year) =
    if ltb year 70
    then year + 2000
    else if between 70 99 year
    then year + 1900
    else if ltb year 1970
    then 1970
    else year

abbrev pub is_leap_year : ℕ → Bool
is_leap_year year = year % 4 == 0 && (not (year % 100 == 0) || year % 400 == 0)

-- `lo <= n && n <= hi`
abbrev pub in_range : ℕ → ℕ → ℤ → Bool
in_range lo hi (pos n) = between lo hi n
in_range lo hi (negsuc n) = false

abbrev pub to_nat : ℤ → ℕ
to_nat (pos n) = n
to_nat (negsuc n) = 0

-- the checks behind `leap_month`
unfoldable pub is_valid : Fields → ℕ → ℕ → Bool
is_valid f mon year =
    between 1 12 mon
    && in_range 1 (get_or days_per_month (mon - 1) 0 + bit (mon == 2 && is_leap_year year)) f.day
    && in_range 0 23 f.hour
    && in_range 0 60 f.min
    && in_range 0 60 f.sec

-- `days`
unfoldable pub day_number : ℕ → ℕ → ℕ → ℕ
day_number year mon day =
    365 * (year - 1970)
    + leap_days 1970 year
    + (get_or sum_of_days (mon - 1) 0 + bit (ltb 2 mon && is_leap_year year))
    + (day - 1)

abbrev pub or_scan : Option Fields → Option Fields → Option Fields
or_scan none g = g
or_scan (some f) g = some f

-- the variables before the calls, which set them all where they convert all
abbrev pub unset : Fields
unset = record { day = pos 0; mname = []; year = pos 0; hour = pos 0; min = pos 0; sec = pos 0 }

-- the first of the four calls that converts all fields
unfoldable pub scanned : Bytes → Option Fields
unfolding scan
scanned s = or_scan (scan rfc1123_format s unset) (
    or_scan (scan rfc850_format s unset)
      (or_scan (scan asctime_format s unset) (scan other_format s unset)))

module _ (ctype : Ctype) where
  unfoldable pub time_of : Option Fields → ℕ
  time_of none = 0
  time_of (some f) =
      let mon = month_from ctype.strcaseeq f.mname 0 mnames in
      let year = full_year f.year in
      let days = day_number year mon (to_nat f.day) in
      if is_valid f mon year
      then ((days * 24 + to_nat f.hour) * 60 + to_nat f.min) * 60 + to_nat f.sec
      else 0

  -- `wget_http_parse_full_date`
  unfoldable pub parse_full_date : Bytes → ℕ
  unfolding scanned
  parse_full_date s = time_of (scanned s)
