-- ===== src/Retention/Timedelta.antt =====
-- `_Timedelta` of src/benji/retentionfilter.py: how many hours, days, weeks, months and years a
-- version is older than the reference time. The conversion to the local time zone is the library's;
-- it is a parameter. Two local times are subtracted as they are read from the wall, so a
-- difference may be negative where the clock was put back.
use benji.Prelude.{ℕ, ◌+◌, ◌-◌, ◌*◌, ◌/◌, ◌%◌, Option, none, some, if◌then◌else◌, ltb}
use benji.Prelude.Int.{ℤ, pos, ◌-ℤ◌}
use benji.Retention.{Period, hours, days, weeks, months, years}

-- What `t.astimezone(tz=tz)` gives: the year, the month, `t.toordinal()`, which counts the days from
-- 1 on, and the hour.
pub record Wall : Type 0 where
  pub year : ℕ
  pub month : ℕ
  pub ordinal : ℕ
  pub hour : ℕ

pub record Timedelta : Type 0 where
  pub hours : ℤ
  pub days : ℤ
  pub weeks : ℤ
  pub months : ℤ
  pub years : ℤ

-- The Monday on or before a day; day 1 is a Monday.
abbrev pub monday : ℕ → ℕ
monday ordinal = ordinal - (ordinal + 6) % 7

-- Two Mondays are a whole number of weeks apart, so `delta // timedelta(weeks=1)` is the difference of
-- the quotients; two first days of months are a whole number of months apart.
unfoldable pub elapsed : Wall → Wall → Timedelta
elapsed t reference = record {
  hours = pos (reference.ordinal * 24 + reference.hour) -ℤ pos (t.ordinal * 24 + t.hour);
  days = pos reference.ordinal -ℤ pos t.ordinal;
  weeks = pos (monday reference.ordinal / 7) -ℤ pos (monday t.ordinal / 7);
  months = pos (reference.year * 12 + reference.month) -ℤ pos (t.year * 12 + t.month);
  years = pos reference.year -ℤ pos t.year;
}

-- The constructor; `none` is the ValueError for a time behind the reference time. Both times are
-- aware where it is called.
unfoldable pub timedelta : (ℕ → Wall) → ℕ → ℕ → Option Timedelta
timedelta wall t reference =
    if ltb reference t then none else some (elapsed (wall t) (wall reference))

-- `getattr(td, category)`
abbrev pub timecount_of : Period → Timedelta → ℤ
timecount_of hours td = td.hours
timecount_of days td = td.days
timecount_of weeks td = td.weeks
timecount_of months td = td.months
timecount_of years td = td.years
