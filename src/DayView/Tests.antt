-- ===== src/DayView/Tests.antt =====
-- A day of two members, with events of the sample data, and with one as the API sends it.
use mathlib.Core.List.{map}
use tidyboard.Prelude.{
  ◌≡◌, refl, ℕ, List, [], ◌∷◌, Option, none, some, String, str_eq, if◌then◌else◌, All,
}
use tidyboard.Prelude.Int.{pos, negsuc, ◌-ℤ◌}
use tidyboard.DayView.{DayEvent, block, shift_day, day_columns}
use tidyboard.DayView.Shown.{GivesIf, HasTimes, titles, own, day_columns-shown}

abbrev number : String → Option ℕ
number s =
    if str_eq s "09"
    then some 9
    else if str_eq s "30"
    then some 30
    else if str_eq s "06"
    then some 6
    else none

abbrev event : String → Option String → Option String → List String → DayEvent
event title start end members = record {
  title = title;
  start = start;
  end = end;
  members = some members;
  assigned_members = none;
}

abbrev day : List DayEvent
day =
    event "swim" (some "06:30") (some "09:30") ("m1" ∷ "m2" ∷ [])
    ∷ event "dentist" (some "09:09") (some "noon") ("m2" ∷ [])
    ∷ event "holiday" none none []
    ∷ []

block_tests :
    (block number (event "swim" (some "06:30") (some "09:30") [])
      ≡ some (record { title = "swim"; top = some (negsuc 29); height = some (pos 180) }))
    × (block number (event "dentist" (some "09:09") (some "noon") [])
        ≡ some (record { title = "dentist"; top = some (pos 129); height = none }))
    × (shift_day (negsuc 0) 17 ≡ 16)
    × (day_columns number ("m1" ∷ []) (event "call" none none ("m1" ∷ []) ∷ day) ≡ none)
unfolding ◌-ℤ◌
block_tests = (refl, refl, refl, refl)

day_columns-shown_example :
    GivesIf
      (All (λ m. All HasTimes (own number day m)) ("m1" ∷ "m2" ∷ []))
      (day_columns number ("m1" ∷ "m2" ∷ []) day)
      (map titles)
      (map (λ m. (m, map (λ e. e.title) (own number day m))) ("m1" ∷ "m2" ∷ []))
day_columns-shown_example = day_columns-shown number day ("m1" ∷ "m2" ∷ [])
