-- ===== src/Http/Date/Read.antt =====
-- The three layouts of a date in RFC 2616, and the fields that the formats store for them.
use wget.Http.Date.Calendar.{CalendarDate}
use wget.Http.Date.Layout.{
  scan_weekday, scan_comma, scan_gap, scan_month, scan_month_dash, dash_fails, step_number,
  step_byte, step_no_byte,
}
use wget.Http.Date.Print.{two, four, clock, scan-two, scan-four, scan_short, scan-clock}
use wget.Http.Date.{
  mnames, rfc1123_format, rfc850_format, asctime_format, time_format, scanned, unset,
}
use wget.Http.Sscanf.{
  Fields, Directive, blank, letters, byte, number, word, to_day, to_year, is_letter, scan,
}
use wget.Prelude.{
  ℕ, ◌-◌, ◌/◌, ◌%◌, ◌<◌, ◌≡◌, refl, ◌∙◌, true, List, [], ◌∷◌, ◌++◌, some, none, get_or, Bytes, pos,
  arith, All,
}

-- Sun, 06 Nov 1994 08:49:37 GMT; Sunday, 06-Nov-94 08:49:37 GMT; Sun Nov 06 08:49:37 1994
pub data Layout : Type 0 where
  rfc1123 rfc850 asctime : Layout

abbrev pub text_of : Layout → Bytes → Bytes → ℕ → ℕ → ℕ → ℕ → ℕ → Bytes → Bytes
text_of rfc1123 weekday mname day year hour min sec rest =
    weekday
    ++ (b','
        ∷ b' '
        ∷ two day (b' ' ∷ (mname ++ (b' ' ∷ four year (b' ' ∷ clock hour min sec rest)))))
text_of rfc850 weekday mname day year hour min sec rest =
    weekday
    ++ (b','
        ∷ b' '
        ∷ two day (b'-' ∷ (mname ++ (b'-' ∷ two (year % 100) (b' ' ∷ clock hour min sec rest)))))
text_of asctime weekday mname day year hour min sec rest =
    weekday
    ++ (b' ' ∷ (mname ++ (b' ' ∷ two day (b' ' ∷ clock hour min sec (b' ' ∷ four year rest)))))

-- a date and a time of day as text, in front of more bytes
abbrev pub print_date : Layout → Bytes → CalendarDate → ℕ → ℕ → ℕ → Bytes → Bytes
print_date layout weekday date hour min sec rest =
    text_of layout weekday (get_or mnames (date.mon - 1) []) date.day date.year hour min sec rest

-- the years that a layout has room for
abbrev pub IsWritable : Layout → ℕ → Type 0
IsWritable rfc1123 year = year < 10000
IsWritable rfc850 year = year < 2070
IsWritable asctime year = year < 10000

abbrev pub written_year : Layout → ℕ → ℕ
written_year rfc1123 year = year
written_year rfc850 year = year % 100
written_year asctime year = year

end_of : (rest : Bytes) (f : Fields) → scan [] rest f ≡ some f
unfolding scan
end_of rest f = refl

module _ (c a1 a2 a3 : ℕ) (w : Bytes) (hw : All (λ x. is_letter x ≡ true) (c ∷ w))
    (h1 : is_letter a1 ≡ true) (h2 : is_letter a2 ≡ true) (h3 : is_letter a3 ≡ true)
    (day year hour min sec : ℕ) (rest : Bytes) (hd : day < 100) (hh : hour < 100) (hm : min < 100)
    (hs : sec < 100) where
  abbrev pub name : Bytes
  name = a1 ∷ a2 ∷ a3 ∷ []

  abbrev pub stored : ℕ → Fields
  stored y = record {
    day = pos day;
    mname = name;
    year = pos y;
    hour = pos hour;
    min = pos min;
    sec = pos sec;
  }

  rfc1123_fields :
      year < 10000
      → scan rfc1123_format (text_of rfc1123 (c ∷ w) name day year hour min sec rest) unset
        ≡ some (stored year)
  rfc1123_fields hy =
      let time = b' ' ∷ clock hour min sec rest in
      let end = blank ∷ time_format [] in
      let on_year = number (some 4) to_year ∷ end in
      let on_month = blank ∷ word 3 ∷ blank ∷ on_year in
      let on_day = number (some 2) to_day ∷ on_month in
      let years = b' ' ∷ four year time in
      let names = b' ' ∷ a1 ∷ a2 ∷ a3 ∷ years in
      let f1 : Fields = record unset { day = pos day } in
      let f2 : Fields = record f1 { mname = name } in
      let f3 : Fields = record f2 { year = pos year } in
      scan_weekday (byte b',' ∷ blank ∷ on_day) unset c b',' w (b' ' ∷ two day names) hw refl
      ∙ scan_comma on_day unset day names hd
      ∙ step_number on_month unset (some 2) to_day (pos day) (two day names) names
          (scan-two day names hd)
      ∙ scan_month a1 a2 a3 h1 h2 h3 f1 (blank ∷ on_year) years
      ∙ scan_gap on_year f2 (year / 100) (two (year % 100) time) (omega (arith, hy))
      ∙ step_number end f2 (some 4) to_year (pos year) (four year time) time
          (scan-four year time hy)
      ∙ scan_gap (time_format []) f3 hour (b':' ∷ two min (b':' ∷ two sec rest)) hh
      ∙ scan-clock hour min sec rest [] f3 hh hm hs
      ∙ end_of rest (stored year)

  rfc850_fails :
      scan rfc1123_format (text_of rfc850 (c ∷ w) name day year hour min sec rest) unset ≡ none
  rfc850_fails =
      let time = b' ' ∷ clock hour min sec rest in
      let end = blank ∷ time_format [] in
      let on_month = blank ∷ word 3 ∷ blank ∷ number (some 4) to_year ∷ end in
      let on_day = number (some 2) to_day ∷ on_month in
      let years = b'-' ∷ two (year % 100) time in
      let names = b'-' ∷ a1 ∷ a2 ∷ a3 ∷ years in
      let f1 : Fields = record unset { day = pos day } in
      scan_weekday (byte b',' ∷ blank ∷ on_day) unset c b',' w (b' ' ∷ two day names) hw refl
      ∙ scan_comma on_day unset day names hd
      ∙ step_number on_month unset (some 2) to_day (pos day) (two day names) names
          (scan-two day names hd)
      ∙ dash_fails a1 a2 a3 h1 h2 h3 f1 end to_year years

  rfc850_fields :
      scan rfc850_format (text_of rfc850 (c ∷ w) name day year hour min sec rest) unset
      ≡ some (stored (year % 100))
  rfc850_fields =
      let time = b' ' ∷ clock hour min sec rest in
      let end = blank ∷ time_format [] in
      let on_year = number (some 4) to_year ∷ end in
      let on_month = byte b'-' ∷ word 3 ∷ byte b'-' ∷ on_year in
      let on_day = number (some 2) to_day ∷ on_month in
      let years = b'-' ∷ two (year % 100) time in
      let names = b'-' ∷ a1 ∷ a2 ∷ a3 ∷ years in
      let f1 : Fields = record unset { day = pos day } in
      let f2 : Fields = record f1 { mname = name } in
      let f3 : Fields = record f2 { year = pos (year % 100) } in
      scan_weekday (byte b',' ∷ blank ∷ on_day) unset c b',' w (b' ' ∷ two day names) hw refl
      ∙ scan_comma on_day unset day names hd
      ∙ step_number on_month unset (some 2) to_day (pos day) (two day names) names
          (scan-two day names hd)
      ∙ scan_month_dash a1 a2 a3 h1 h2 h3 f1 (byte b'-' ∷ on_year) years
      ∙ step_byte on_year f2 b'-' (two (year % 100) time)
      ∙ step_number end f2 (some 4) to_year (pos (year % 100)) (two (year % 100) time) time
          (scan_short (year % 100) (clock hour min sec rest) (omega arith))
      ∙ scan_gap (time_format []) f3 hour (b':' ∷ two min (b':' ∷ two sec rest)) hh
      ∙ scan-clock hour min sec rest [] f3 hh hm hs
      ∙ end_of rest (stored (year % 100))

  -- without a comma the first two formats do not fit
  no_comma :
      (ds : List Directive) (t : Bytes)
      → scan (blank ∷ letters ∷ byte b',' ∷ ds) ((c ∷ w) ++ (b' ' ∷ t)) unset ≡ none
  no_comma ds t =
      scan_weekday (byte b',' ∷ ds) unset c b' ' w t hw refl
      ∙ step_no_byte ds unset b',' b' ' t refl

  asctime_fields :
      year < 10000
      → scan asctime_format (text_of asctime (c ∷ w) name day year hour min sec rest) unset
        ≡ some (stored year)
  asctime_fields hy =
      let years = b' ' ∷ four year rest in
      let time = b' ' ∷ clock hour min sec years in
      let on_year = blank ∷ number (some 4) to_year ∷ [] in
      let end = blank ∷ time_format on_year in
      let on_day = number (some 2) to_day ∷ end in
      let days = b' ' ∷ two day time in
      let f1 : Fields = record unset { mname = name } in
      let f2 : Fields = record f1 { day = pos day } in
      let f3 : Fields = record f2 { hour = pos hour; min = pos min; sec = pos sec } in
      scan_weekday (blank ∷ word 3 ∷ blank ∷ on_day) unset c b' ' w (a1 ∷ a2 ∷ a3 ∷ days) hw refl
      ∙ scan_month a1 a2 a3 h1 h2 h3 unset (blank ∷ on_day) days
      ∙ scan_gap on_day f1 day time hd
      ∙ step_number end f1 (some 2) to_day (pos day) (two day time) time (scan-two day time hd)
      ∙ scan_gap (time_format on_year) f2 hour (b':' ∷ two min (b':' ∷ two sec years)) hh
      ∙ scan-clock hour min sec years on_year f2 hh hm hs
      ∙ scan_gap (number (some 4) to_year ∷ []) f3 (year / 100) (two (year % 100) rest)
          (omega (arith, hy))
      ∙ step_number [] f3 (some 4) to_year (pos year) (four year rest) rest (scan-four year rest hy)
      ∙ end_of rest (stored year)

  pub read_layout :
      (layout : Layout)
      → IsWritable layout year
      → scanned (text_of layout (c ∷ w) name day year hour min sec rest)
        ≡ some (stored (written_year layout year))
  unfolding scanned
  read_layout rfc1123 h = rw (rfc1123_fields h) refl
  read_layout rfc850 h = rw rfc850_fails (rw rfc850_fields refl)
  read_layout asctime h =
      let t = name ++ (b' ' ∷ two day (b' ' ∷ clock hour min sec (b' ' ∷ four year rest))) in
      rw
        (no_comma
          (blank
            ∷ number (some 2) to_day
            ∷ blank
            ∷ word 3
            ∷ blank
            ∷ number (some 4) to_year
            ∷ blank
            ∷ time_format [])
          t)
        (rw
          (no_comma
            (blank
              ∷ number (some 2) to_day
              ∷ byte b'-'
              ∷ word 3
              ∷ byte b'-'
              ∷ number (some 4) to_year
              ∷ blank
              ∷ time_format [])
            t)
          (rw (asctime_fields h) refl))
