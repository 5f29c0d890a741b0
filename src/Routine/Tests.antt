-- ===== src/Routine/Tests.antt =====
-- A routine of two steps.
use mathlib.Core.List.{map}
use tidyboard.Prelude.{
  ◌≡◌, refl, ℕ, ◌+◌, ◌/◌, ◌%◌, ◌==◌, false, not, List, [], ◌∷◌, none, some, String,
}
use tidyboard.Types.{ApiRoutine, ApiRoutineStep, morning}
use tidyboard.Routine.{Kid, loaded, tap, mounted, kid_step, kid_run, has, minutes_left}
use tidyboard.Routine.Taps.{count, marks_of, bit, taps-marks}

abbrev step : String → ℕ → ApiRoutineStep
step id minutes = record {
  id = id;
  routine_id = "r1";
  name = id;
  est_minutes = some minutes;
  sort_order = 0;
  icon = none;
  created_at = "";
  updated_at = "";
}

abbrev bedtime : ApiRoutine
bedtime = record {
  id = "r1";
  household_id = "h";
  name = "Bedtime";
  member_id = some "m1";
  days_of_week = [];
  time_slot = morning;
  archived = false;
  sort_order = 0;
  steps = step "teeth" 3 ∷ step "book" 10 ∷ [];
  created_at = "";
  updated_at = "";
}

abbrev started : Kid
started = kid_step mounted (loaded (bedtime ∷ []) ("m1" ∷ []))

abbrev taps : List String
taps = "teeth" ∷ "book" ∷ "teeth" ∷ "teeth" ∷ []

routine_tests :
    ((kid_run started (map tap taps)).done_steps ≡ "book" ∷ "teeth" ∷ [])
    × ((minutes_left ("teeth" ∷ []) bedtime.steps ≡ 10)
        × ((kid_run mounted (map tap taps)).marks ≡ []))
routine_tests = (refl, (refl, refl))

taps-marks_example :
    let k2 = kid_run started (map tap taps) in
    (has "teeth" k2.done_steps ≡ ((bit false + count "teeth" taps) % 2 == 1))
    × (marks_of "teeth" k2.marks ≡ marks_of "teeth" [] + (count "teeth" taps + bit (not false)) / 2)
taps-marks_example = taps-marks bedtime started "teeth" taps refl refl refl
