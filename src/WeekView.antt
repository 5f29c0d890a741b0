-- ===== src/WeekView.antt =====
-- web/src/components/screens/calendar.tsx, `CalWeek`: the seven columns of a week with their events. A local
-- date is its number of days since Monday, January 1st of the year 1. What `Date` and `Number` make of a
-- text is a parameter; `Number` gives whole numbers here, or NaN.
mod Columns
mod Tests
use tidyboard.Prelude.{
  ℕ, zero, suc, ◌+◌, ◌-◌, ◌*◌, ◌%◌, Bool, true, false, not, List, [], ◌∷◌, Option, none, some,
  String, truthy, if◌then◌else◌, or_else, keep, leb, ◌==◌,
}
use tidyboard.Prelude.Words.{includes}
use tidyboard.Prelude.Int.{ℤ, pos, negsuc}
use tidyboard.Sort.{sort}
use tidyboard.Agenda.{CalendarEvent, start_value}
use tidyboard.DayView.{split_colon}
use tidyboard.Month.{get_day}

pub record LocalTimes : Type 0 where
  -- the local date of `new Date(text)`, none when it is invalid
  pub day_of : String → Option ℕ
  -- `getHours()` and `getMinutes()` of `new Date(text)`, none when they are NaN
  pub clock_of : String → Option (ℕ × ℕ)
  -- `Number(text)`, none when it is NaN
  pub number : String → Option ℕ

-- `d.getHours() + d.getMinutes() / 60`, in minutes.
abbrev in_minutes : Option (ℕ × ℕ) → Option ℕ
in_minutes none = none
in_minutes (some (h, m)) = some (h * 60 + m)

abbrev pair_of : Option ℕ → Option ℕ → Option (ℕ × ℕ)
pair_of (some h) (some m) = some (h, m)
pair_of _ _ = none

-- The two numbers of "HH:mm", where a missing one is 0.
abbrev parts_of : (String → Option ℕ) → List String → Option (ℕ × ℕ)
parts_of number [] = some (0, 0)
parts_of number (h ∷ []) = pair_of (number h) (some 0)
parts_of number (h ∷ m ∷ rest) = pair_of (number h) (number m)

-- `toFractionalHours`, in minutes; none is NaN.
abbrev pub to_fractional_hours : LocalTimes → String → Option ℕ
to_fractional_hours t time_str =
    if not (truthy time_str)
    then some 0
    else if includes "T" time_str
    then in_minutes (t.clock_of time_str)
    else in_minutes (parts_of t.number (split_colon time_str))

-- `d.setDate(d.getDate() - d.getDay())`
abbrev pub week_start : ℕ → ℕ
week_start today = today - get_day today

-- `shiftWeek`
abbrev pub shift_week : ℤ → ℕ → ℕ
shift_week (pos n) start = start + n * 7
shift_week (negsuc n) start = start - (n + 1) * 7

-- The local date on which an event starts.
abbrev pub start_day : LocalTimes → CalendarEvent → Option ℕ
start_day t e =
    let ev_start = or_else (start_value e) "" in if truthy ev_start then t.day_of ev_start else none

abbrev pub is_day : ℕ → Option ℕ → Bool
is_day col_date none = false
is_day col_date (some d) = d == col_date

-- `start_time ?? start`
abbrev pub sort_key : CalendarEvent → String
sort_key e = or_else e.start_time (or_else e.start "")

abbrev pub time_of : LocalTimes → CalendarEvent → Option ℕ
time_of t e = to_fractional_hours t (sort_key e)

-- The comparator's result is at most 0, or NaN, which the sort takes for 0.
abbrev pub earlier : LocalTimes → CalendarEvent → CalendarEvent → Bool
earlier t a b = compare_times (time_of t a) (time_of t b)
  where
    compare_times : Option ℕ → Option ℕ → Bool
    compare_times (some m) (some n) = leb m n
    compare_times _ _ = true

abbrev pub col_events : LocalTimes → List CalendarEvent → ℕ → List CalendarEvent
col_events t events col_date = sort (earlier t) (keep (λ e. is_day col_date (start_day t e)) events)

pub record Column : Type 0 where
  pub col_date : ℕ
  pub is_today : Bool
  pub events : List CalendarEvent

abbrev pub columns_from : LocalTimes → ℕ → List CalendarEvent → ℕ → ℕ → List Column
columns_from t today events col_date zero = []
columns_from t today events col_date (suc k) =
    record {
      col_date = col_date;
      is_today = col_date == today;
      events = col_events t events col_date;
    }
    ∷ columns_from t today events (col_date + 1) k

abbrev pub columns : LocalTimes → ℕ → List CalendarEvent → ℕ → List Column
columns t today events week_start = columns_from t today events week_start 7
