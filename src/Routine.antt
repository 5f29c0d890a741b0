-- ===== src/Routine.antt =====
-- web/src/components/screens/routine.tsx, `RoutineKid`: the steps that a child taps, over loads of the routines
-- and members and taps on the steps that are shown.
mod Taps
mod Tests
use tidyboard.Prelude.{
  ℕ, ◌+◌, Bool, true, false, not, ◌&&◌, List, [], ◌∷◌, ◌++◌, Option, none, some, String, truthy,
  str_eq, if◌then◌else◌, or_else, any, keep,
}
use tidyboard.Types.{ApiRoutine, ApiRoutineStep}

-- `req` of a `markComplete`, and the routine of its path.
pub record Mark : Type 0 where
  pub routine_id : String
  pub step_id : String
  pub member_id : String

-- What is loaded (the first routine and the ids of the members), the component's state, and the marks
-- posted, the latest first.
pub record Kid : Type 0 where
  pub api_routine : Option ApiRoutine
  pub members : List String
  pub done_steps : List String
  pub last_routine_id : Option String
  pub marks : List Mark

pub data KidEvent : Type 0 where
  loaded : List ApiRoutine → List String → KidEvent
  tap : String → KidEvent

abbrev pub mounted : Kid
mounted = record {
  api_routine = none;
  members = [];
  done_steps = [];
  last_routine_id = none;
  marks = [];
}

abbrev pub first_routine : List ApiRoutine → Option ApiRoutine
first_routine [] = none
first_routine (r ∷ rs) = some r

abbrev is_last : ApiRoutine → Option String → Bool
is_last r none = false
is_last r (some id) = str_eq r.id id

-- "Re-seed when routine changes".
abbrev pub reseeded : Option ApiRoutine → List String → Kid → Kid
reseeded none members k = record {
  api_routine = none;
  members = members;
  done_steps = k.done_steps;
  last_routine_id = k.last_routine_id;
  marks = k.marks;
}
reseeded (some r) members k =
    let same = is_last r k.last_routine_id in
    record {
      api_routine = some r;
      members = members;
      done_steps = if same then k.done_steps else [];
      last_routine_id = some r.id;
      marks = k.marks;
    }

abbrev has_member : ApiRoutine → List String → Bool
has_member r members = of r.member_id
  where
    of : Option String → Bool
    of none = false
    of (some id) = any (str_eq id) members

-- The routine whose steps are on the screen.
abbrev pub shown : Option ApiRoutine → List String → Option ApiRoutine
shown none members = none
shown (some r) members = if has_member r members then some r else none

abbrev pub has : String → List String → Bool
has id ids = any (str_eq id) ids

abbrev pub toggled : String → List String → List String
toggled id ids = if has id ids then keep (λ x. not (str_eq x id)) ids else ids ++ id ∷ []

abbrev pub active_member_id : ApiRoutine → String
active_member_id r = or_else r.member_id ""

-- `handleTapStep`
abbrev pub handle_tap_step : ApiRoutine → String → Kid → Kid
handle_tap_step r step k = record {
  api_routine = k.api_routine;
  members = k.members;
  done_steps = toggled step k.done_steps;
  last_routine_id = k.last_routine_id;
  marks =
      if not (has step k.done_steps) && truthy (active_member_id r)
      then record { routine_id = r.id; step_id = step; member_id = active_member_id r } ∷ k.marks
      else k.marks;
}

abbrev pub tapped : Option ApiRoutine → String → Kid → Kid
tapped none step k = k
tapped (some r) step k = if any (λ s. str_eq step s.id) r.steps then handle_tap_step r step k else k

abbrev pub kid_step : Kid → KidEvent → Kid
kid_step k (loaded routines members) = reseeded (first_routine routines) members k
kid_step k (tap step) = tapped (shown k.api_routine k.members) step k

abbrev pub kid_run : Kid → List KidEvent → Kid
kid_run k [] = k
kid_run k (e ∷ es) = kid_run (kid_step k e) es

-- `minutesLeft`
abbrev pub minutes : List ApiRoutineStep → ℕ
minutes [] = 0
minutes (s ∷ ss) = or_else s.est_minutes 0 + minutes ss

abbrev pub minutes_left : List String → List ApiRoutineStep → ℕ
minutes_left done steps = minutes (keep (λ s. not (has s.id done)) steps)

-- The step that is marked as the one under way, by its place: the first that is not done.
abbrev pub active_step : List String → List ApiRoutineStep → Option ApiRoutineStep
active_step done [] = none
active_step done (s ∷ ss) = if has s.id done then active_step done ss else some s
