-- ===== src/EventForm/Tests.antt =====
-- A day whose hours are written as two digits.
use mathlib.Core.List.{map}
use tidyboard.Prelude.{
  ◌≡◌, refl, ◌↔◌, Bool, true, false, List, [], ◌∷◌, none, some, String, str_eq, if◌then◌else◌, keep,
  take, All, ◌==◌,
}
use tidyboard.Prelude.Int.{ℤ, pos, negsuc}
use tidyboard.EventForm.{
  Dates, ListedEvent, EventFormData, Fields, initial, toggle_assignee, conflicts, is_own,
}
use tidyboard.EventForm.Form.{edit, save, delete, answered, opened, form_run, title, start}
use tidyboard.EventForm.Overlap.{Clashes, conflicts-Clashes}
use tidyboard.EventForm.Requests.{Orderly, form_run-Orderly}

abbrev written : ℤ → String
written (pos n) = if n == 9 then "T09" else if n == 10 then "T10" else "T11"
written (negsuc n) = ""

abbrev hours : Dates
hours = record {
  time_of = λ v.
      if str_eq v "T09"
      then some (pos 9)
      else if str_eq v "T10"
      then some (pos 10)
      else if str_eq v "T11"
      then some (pos 11)
      else none;
  iso = written;
  local_of = λ v. v;
  local = written;
}

abbrev listed : String → String → String → ListedEvent
listed id s e = record {
  id = id;
  title = id;
  start = none;
  end = none;
  start_time = some s;
  end_time = some e;
}

abbrev meeting : EventFormData
meeting = record {
  id = some "e1";
  title = some "Meeting";
  start = some "T09";
  end = some "T10";
  start_time = none;
  end_time = none;
  location = none;
  description = none;
  members = some ("m1" ∷ []);
  assigned_members = none;
  recurrence_rule = none;
}

abbrev meeting_fields : Fields
meeting_fields = initial hours (pos 11) (pos 11) meeting

abbrev calendar : List ListedEvent
calendar = listed "e1" "T09" "T11" ∷ listed "e2" "T10" "T11" ∷ listed "e3" "T09" "T10" ∷ []

event_form_tests :
    (map (λ e. e.id) (conflicts hours meeting.id meeting_fields (some calendar)) ≡ "e3" ∷ [])
    × ((map (λ e. e.id) (conflicts hours none meeting_fields (some calendar)) ≡ "e1" ∷ "e3" ∷ [])
        × (toggle_assignee "m1" (toggle_assignee "m2" meeting_fields.assigned) ≡ "m2" ∷ []))
event_form_tests = (refl, (refl, refl))

-- A blank title and a cleared time send nothing; the request under way keeps the second tap out.
form_tests :
    ((form_run hours
        (opened hours meeting (pos 9) (pos 10))
        (edit title " " ∷ save ∷ edit title "Call" ∷ edit start "" ∷ save ∷ [])).sent
      ≡ [])
    × ((form_run hours
          (opened hours meeting (pos 9) (pos 10))
          (save ∷ delete ∷ answered true ∷ [])).closed
        ≡ 1)
form_tests = (refl, refl)

conflicts-Clashes_example :
    (test : ListedEvent → Bool) × ((conflicts hours none meeting_fields
          (some (listed "e3" "T09" "T10" ∷ []))
        ≡ take 3 (keep test (listed "e3" "T09" "T10" ∷ [])))
      × All
          (λ e. (test e ≡ true) ↔ ((is_own none e ≡ false) × Clashes hours (pos 9, pos 10) e))
          (listed "e3" "T09" "T10" ∷ []))
conflicts-Clashes_example =
    conflicts-Clashes hours none meeting_fields (listed "e3" "T09" "T10" ∷ []) (pos 9) (pos 10) refl
      refl refl refl refl (refl, tt)

form_run-Orderly_example :
    Orderly hours
      (opened hours meeting (pos 9) (pos 10))
      (save ∷ answered false ∷ delete ∷ answered true ∷ [])
form_run-Orderly_example =
    form_run-Orderly hours meeting (pos 9) (pos 10)
      (save ∷ answered false ∷ delete ∷ answered true ∷ [])
