-- ===== src/EventForm.antt =====
-- web/src/components/screens/calendar.tsx, `EventModal`: the form that creates, changes and deletes an event,
-- with its warning about other events at the same time. Dates are a parameter.
mod Form
mod Ink
mod Overlap
mod Requests
mod Tests
use tidyboard.Prelude.{
  ℕ, suc, Bool, true, false, not, ◌&&◌, ◌||◌, List, [], ◌∷◌, ◌++◌, Option, none, some, String,
  truthy, str_eq, if◌then◌else◌, or_else, any, keep, take, is_some,
}
use tidyboard.Prelude.Int.{ℤ, ltb_ℤ}
use tidyboard.Prelude.Words.{trim, includes}
use tidyboard.Api.Query.{given}

pub record Dates : Type 0 where
  -- `new Date(text).getTime()`, none when it is NaN
  pub time_of : String → Option ℤ
  -- `new Date(time).toISOString()`
  pub iso : ℤ → String
  -- `toDatetimeLocal(new Date(text))`, and of a time
  pub local_of : String → String
  pub local : ℤ → String

-- An event of the calendar, as `conflicts` reads it.
pub record ListedEvent : Type 0 where
  pub id : String
  pub title : String
  pub start : Option String
  pub end : Option String
  pub start_time : Option String
  pub end_time : Option String

pub record EventFormData : Type 0 where
  pub id : Option String
  pub title : Option String
  pub start : Option String
  pub end : Option String
  pub start_time : Option String
  pub end_time : Option String
  pub location : Option String
  pub description : Option String
  pub members : Option (List String)
  pub assigned_members : Option (List String)
  pub recurrence_rule : Option String

-- What the user can edit.
pub record Fields : Type 0 where
  pub title : String
  pub start : String
  pub end : String
  pub location : String
  pub description : String
  pub recurrence : String
  pub assigned : List String

-- `text && text.includes("T") ? text : null`
abbrev pub timed : Option String → Option String
timed none = none
timed (some s) = if includes "T" s then some s else none

abbrev pub or_else_text : Option String → Option String → Option String
or_else_text none b = b
or_else_text (some a) b = some a

-- `resolveStart` and `resolveEnd`: the two texts of the event, and the time to fall back on.
abbrev pub resolve : Dates → Option String → Option String → ℤ → String
resolve d time text fallback =
    if given time then d.local_of (or_else time "") else or_local (timed text)
  where
    or_local : Option String → String
    or_local none = d.local fallback
    or_local (some s) = d.local_of s

-- The fields of a form that opens on an event, with the time now and an hour later.
abbrev pub initial : Dates → ℤ → ℤ → EventFormData → Fields
initial d now later e = record {
  title = or_else e.title "";
  start = resolve d e.start_time e.start now;
  end = resolve d e.end_time e.end later;
  location = or_else e.location "";
  description = or_else e.description "";
  recurrence = or_else e.recurrence_rule "";
  assigned = or_else e.assigned_members (or_else e.members []);
}

-- `toggleAssignee`
abbrev pub toggle_assignee : String → List String → List String
toggle_assignee member_id prev =
    if any (str_eq member_id) prev
    then keep (λ id. not (str_eq id member_id)) prev
    else prev ++ member_id ∷ []

-- The two times of a listed event, when it has both and they are dates.
abbrev pub span_of : Dates → Option String → Option String → Option (ℤ × ℤ)
span_of d (some s) (some e) =
    if truthy s && truthy e then both (d.time_of s) (d.time_of e) else none
  where
    both : Option ℤ → Option ℤ → Option (ℤ × ℤ)
    both (some a) (some b) = some (a, b)
    both _ _ = none
span_of d _ _ = none

abbrev pub span : Dates → ListedEvent → Option (ℤ × ℤ)
span d e =
    span_of d (or_else_text e.start_time (timed e.start)) (or_else_text e.end_time (timed e.end))

abbrev pub meets : ℤ × ℤ → Option (ℤ × ℤ) → Bool
meets draft none = false
meets (draft_start, draft_end) (some (s, en)) = ltb_ℤ s draft_end && ltb_ℤ draft_start en

abbrev pub is_own : Option String → ListedEvent → Bool
is_own none e = false
is_own (some id) e = truthy id && str_eq e.id id

-- The test of the filter in `conflicts`.
abbrev pub is_conflict : Dates → Option String → ℤ × ℤ → ListedEvent → Bool
is_conflict d own draft e = if is_own own e then false else meets draft (span d e)

abbrev pub conflicts_with :
    Dates → Option String → List ListedEvent → Option ℤ → Option ℤ → List ListedEvent
conflicts_with d own events (some s) (some e) =
    if ltb_ℤ s e then take 3 (keep (is_conflict d own (s, e)) events) else []
conflicts_with d own events _ _ = []

abbrev pub conflicts : Dates → Option String → Fields → Option (List ListedEvent) → List ListedEvent
conflicts d own f none = []
conflicts d own f (some events) =
    if truthy f.start && truthy f.end
    then conflicts_with d own events (d.time_of f.start) (d.time_of f.end)
    else []
