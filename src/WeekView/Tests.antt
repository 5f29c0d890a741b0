-- ===== src/WeekView/Tests.antt =====
-- The week of the day 17, a Thursday: it begins on the Sunday 13.
use mathlib.Core.List.{map, Perm}
use tidyboard.Prelude.{
  ◌≡◌, refl, ◌+◌, ◌≤◌, ◌<◌, List, [], ◌∷◌, Option, none, some, String, str_eq, if◌then◌else◌, keep,
  All, arith,
}
use tidyboard.Sort.{sort, insert}
use tidyboard.Prelude.Int.{negsuc}
use tidyboard.Agenda.{CalendarEvent}
use tidyboard.Month.{get_day}
use tidyboard.WeekView.{LocalTimes, week_start, shift_week, start_day, columns}
use tidyboard.WeekView.Columns.{is_within, shown, InOrder, columns-shown}

abbrev times : LocalTimes
times = record {
  day_of = λ s. if str_eq s "T13" then some 13 else if str_eq s "T20" then some 20 else some 17;
  clock_of = λ s. if str_eq s "T17" then some (9, 0) else some (10, 0);
  number = λ s. if str_eq s "09" then some 9 else if str_eq s "00" then some 0 else none;
}

abbrev event : String → Option String → Option String → CalendarEvent
event title start start_time = record {
  title = title;
  start = start;
  start_time = start_time;
  location = none;
  members = none;
  assigned_members = none;
}

abbrev events : List CalendarEvent
events =
    event "late" none (some "T17b")
    ∷ event "gym" (some "T17") none
    ∷ event "next" none (some "T20")
    ∷ event "old" (some "09:00") none
    ∷ event "brunch" none (some "T13")
    ∷ []

week_tests :
    (week_start 17 ≡ 13)
    × ((shift_week (negsuc 0) 13 ≡ 6)
        × ((map (λ c. map (λ e. e.title) c.events) (columns times 17 events 13)
            ≡ ("brunch" ∷ []) ∷ [] ∷ [] ∷ [] ∷ ("gym" ∷ "late" ∷ []) ∷ [] ∷ [] ∷ [])))
unfolding sort insert
week_tests = (refl, (refl, refl))

columns-shown_example :
    let start = week_start 17 in
    let cols = columns times 17 events start in
    ((get_day start ≡ 0) × (start ≤ 17) × (17 < start + 7))
    × (Perm (shown cols) (keep (λ e. is_within start 7 (start_day times e)) events)
        × All (InOrder times) cols)
columns-shown_example =
    columns-shown times 17 events (omega arith) (refl, (refl, (refl, (refl, (refl, tt)))))
