-- ===== src/Http/Date/Parse.antt =====
-- What is read of a date of the calendar.
use wget.Prelude.{ℕ, ◌-◌, [], get_or, pos}
use wget.Http.Sscanf.{Fields}
use wget.Http.Date.{mnames}
use wget.Http.Date.Calendar.{CalendarDate}

-- the fields that are stored for a date
abbrev fields_of : CalendarDate → ℕ → ℕ → ℕ → ℕ → Fields
fields_of date year hour min sec = record {
  day = pos date.day;
  mname = get_or mnames (date.mon - 1) [];
  year = pos year;
  hour = pos hour;
  min = pos min;
  sec = pos sec;
}
