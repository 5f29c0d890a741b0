-- ===== src/Agenda/Tests.antt =====
-- Three events on two days, searched and filtered.
use mathlib.Core.List.{map, Perm}
use tidyboard.Prelude.{
  ◌≡◌, refl, List, [], ◌∷◌, Option, none, some, String, str_eq, true, false, ◌⊎◌, or_else,
  if◌then◌else◌, keep, not,
}
use tidyboard.Sort.{sort, insert}
use tidyboard.Agenda.{CalendarEvent, Dates, Group, groups}
use tidyboard.Agenda.Readable.{all_readable}
use tidyboard.Agenda.Shown.{shown, is_assigned, has_text, groups-shown}

abbrev dates : Dates
dates = record {
  date_of = λ v.
      if str_eq v "2026-01-06T10:00Z"
      then some "2026-01-06"
      else if str_eq v "soon"
      then none
      else some "2026-01-05";
  before = λ a b. not (str_eq a "2026-01-06");
  label = λ k. k;
  casing = record { upper = λ t. t; lower = λ t. if str_eq t "GYM" then "gym" else t };
}

abbrev event : String → Option String → List String → CalendarEvent
event title start_time members = record {
  title = title;
  start = none;
  start_time = start_time;
  location = none;
  members = some members;
  assigned_members = none;
}

abbrev events : List CalendarEvent
events =
    event "GYM" (some "2026-01-06T10:00Z") ("m1" ∷ [])
    ∷ event "dinner" none ("m1" ∷ "m2" ∷ [])
    ∷ event "school" (some "2026-01-05T08:00Z") ("m2" ∷ [])
    ∷ []

abbrev or_none : Option (List Group) → List Group
or_none gs = or_else gs []

agenda_tests :
    (map (λ g. g.label) (or_none (groups dates "TODAY" "2026-01-05" "" none events))
      ≡ "TODAY · 2026-01-05" ∷ "2026-01-06" ∷ [])
    × (map
          (λ e. e.title)
          (shown (or_none (groups dates "TODAY" "2026-01-05" "" (some "m2") events)))
        ≡ "dinner" ∷ "school" ∷ [])
    × (map (λ e. e.title) (shown (or_none (groups dates "TODAY" "2026-01-05" " gy " none events)))
        ≡ "GYM" ∷ [])
    × (groups dates "TODAY" "2026-01-05" "" none (event "odd" (some "soon") [] ∷ events) ≡ none)
unfolding sort insert
agenda_tests = (refl, refl, refl, refl)

groups-shown_example :
    let chosen = keep (is_assigned (some "m1")) events in
    let drawn = groups dates "TODAY" "2026-01-05" " gy " (some "m1") events in
    ((all_readable dates chosen ≡ true)
      × ((gs : List Group) × ((drawn ≡ some gs)
            × Perm (shown gs) (keep (has_text dates " gy ") chosen))))
    ⊎ ((all_readable dates chosen ≡ false) × (drawn ≡ none))
groups-shown_example = groups-shown dates "TODAY" "2026-01-05" " gy " (some "m1") events
