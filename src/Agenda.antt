-- ===== src/Agenda.antt =====
-- web/src/components/screens/calendar.tsx, `CalAgenda`: the events of the next days in groups by date, with
-- the member filter of web/src/components/calendar/MemberFilterChips.tsx and the search box. Dates and their
-- labels, and the order of texts, are a parameter.
mod Readable
mod Shown
mod Tests
use mathlib.Core.List.{map}
use tidyboard.Prelude.{
  Bool, true, false, ◌&&◌, ◌||◌, List, [], ◌∷◌, Option, none, some, String, truthy, ◌+++◌, str_eq,
  if◌then◌else◌, or_else, any, keep,
}
use tidyboard.Prelude.Words.{Casing, trim, includes}
use tidyboard.Sort.{sort}
use tidyboard.Shopping.Buckets.{Bucket, gather}

-- The fields of an event that the agenda reads.
pub record CalendarEvent : Type 0 where
  pub title : String
  pub start : Option String
  pub start_time : Option String
  pub location : Option String
  pub members : Option (List String)
  pub assigned_members : Option (List String)

pub record Dates : Type 0 where
  -- `new Date(value).toISOString().slice(0, 10)`, none where it throws, on an invalid date
  pub date_of : String → Option String
  -- `a.localeCompare(b) <= 0`
  pub before : String → String → Bool
  pub label : String → String
  pub casing : Casing

abbrev pub is_for : String → CalendarEvent → Bool
is_for member_id e = any (str_eq member_id) (or_else e.assigned_members (or_else e.members []))

abbrev pub filter_events_by_member : List CalendarEvent → Option String → List CalendarEvent
filter_events_by_member events none = events
filter_events_by_member events (some member_id) = keep (is_for member_id) events

-- `event.start?.includes("T") ? event.start : null`
abbrev timed : Option String → Option String
timed none = none
timed (some s) = if includes "T" s then some s else none

abbrev pub start_value : CalendarEvent → Option String
start_value e = first_of e.start_time
  where
    first_of : Option String → Option String
    first_of none = timed e.start
    first_of (some s) = some s

-- The key of an event; none where the loop throws.
abbrev pub date_key : Dates → String → CalendarEvent → Option String
date_key d today e =
    let value = or_else (start_value e) "" in if truthy value then d.date_of value else some today

abbrev pub Keyed : Type 0
Keyed = List (String × Unit {0} × CalendarEvent)

abbrev entry_onto : Option String → CalendarEvent → Option Keyed → Option Keyed
entry_onto (some k) e (some rest) = some ((k, tt, e) ∷ rest)
entry_onto _ e _ = none

abbrev pub keyed : Dates → String → List CalendarEvent → Option Keyed
keyed d today [] = some []
keyed d today (e ∷ es) = entry_onto (date_key d today e) e (keyed d today es)

abbrev pub by_key : Dates → Bucket (Unit {0}) CalendarEvent → Bucket (Unit {0}) CalendarEvent → Bool
by_key d a b = d.before a.key b.key

pub record Group : Type 0 where
  pub label : String
  pub items : List CalendarEvent

-- The label of today's group begins with a word of the interface.
abbrev pub group_of : Dates → String → String → Bucket (Unit {0}) CalendarEvent → Group
group_of d today_word today b = record {
  label = if str_eq b.key today then today_word +++ " · " +++ d.label b.key else d.label b.key;
  items = b.items;
}

abbrev pub groups_of : Dates → String → String → Keyed → List Group
groups_of d today_word today entries =
    map (group_of d today_word today) (sort (by_key d) (gather entries []))

-- The test of the search box on an event.
abbrev pub matches : Dates → String → CalendarEvent → Bool
matches d q e =
    includes q (d.casing.lower e.title) || includes q (d.casing.lower (or_else e.location ""))

abbrev pub searched : (CalendarEvent → Bool) → Group → Group
searched p g = record { label = g.label; items = keep p g.items }

abbrev pub has_items : Group → Bool
has_items g = some_item g.items
  where
    some_item : List CalendarEvent → Bool
    some_item [] = false
    some_item (_ ∷ _) = true

-- The groups under a search text.
abbrev pub search_groups : Dates → String → List Group → List Group
search_groups d query found =
    let q = d.casing.lower (trim query) in
    if truthy q then keep has_items (map (searched (matches d q)) found) else found

-- The groups on the screen, for the texts of the search box and the chosen member; none where the screen
-- throws.
abbrev pub groups :
    Dates → String → String → String → Option String → List CalendarEvent → Option (List Group)
groups d today_word today query member_filter events =
    shown (keyed d today (filter_events_by_member events member_filter))
  where
    shown : Option Keyed → Option (List Group)
    shown none = none
    shown (some entries) = some (search_groups d query (groups_of d today_word today entries))
