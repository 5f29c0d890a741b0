-- ===== src/Agenda/Readable.antt =====
-- web/src/components/screens/calendar.tsx, `CalAgenda`: when the starts of the events can be read.
use tidyboard.Prelude.{
  ◌≡◌, refl, ap, Bool, true, false, not, ◌&&◌, ◌||◌, ◌⊎◌, is_some, Option-cases, List, [], ◌∷◌,
  Option, none, some, String, truthy, if◌then◌else◌, Bool-cases, inl, inr,
}
use tidyboard.Prelude.Words.{includes}
use tidyboard.Shopping.Buckets.{values}
use tidyboard.Agenda.{CalendarEvent, Dates, date_key, Keyed, keyed}

abbrev reads : Dates → String → Bool
reads d s = not (truthy s) || is_some (d.date_of s)

-- Whether the start of an event is a date, or it has none to read.
abbrev pub is_readable : Dates → CalendarEvent → Bool
is_readable d e = of e.start_time e.start
  where
    of : Option String → Option String → Bool
    of (some s) _ = reads d s
    of none none = true
    of none (some s) = not (includes "T" s) || reads d s

abbrev pub all_readable : Dates → List CalendarEvent → Bool
all_readable d [] = true
all_readable d (e ∷ es) = is_readable d e && all_readable d es

key-reads :
    (d : Dates) (today s : String)
    → is_some (if truthy s then d.date_of s else some today) ≡ reads d s
key-reads d today s = elim (Bool-cases (truthy s)) [ inl e ↦ rw e refl | inr e ↦ rw e refl ]

date_key-made_of :
    (d : Dates) (today title : String) (start start_time location : Option String)
    (members assigned : Option (List String))
    → (let e : CalendarEvent = record {
      title = title;
      start = start;
      start_time = start_time;
      location = location;
      members = members;
      assigned_members = assigned;
    } in
        is_some (date_key d today e) ≡ is_readable d e)
date_key-made_of d today title start (some s) location members assigned = key-reads d today s
date_key-made_of d today title none none location members assigned = refl
date_key-made_of d today title (some s) none location members assigned =
    elim (Bool-cases (includes "T" s)) [ inl e ↦ rw e (key-reads d today s) | inr e ↦ rw e refl ]

date_key-readable :
    (d : Dates) (today : String) (e : CalendarEvent)
    → is_some (date_key d today e) ≡ is_readable d e
date_key-readable d today e =
    date_key-made_of d today e.title e.start e.start_time e.location e.members e.assigned_members

-- Either all events can be read and make entries of their own, in order, or the loop throws.
abbrev pub Entries : Dates → String → List CalendarEvent → Type 0
Entries d today es =
    ((all_readable d es ≡ true)
      × ((entries : Keyed) × ((keyed d today es ≡ some entries) × (values entries ≡ es))))
    ⊎ ((all_readable d es ≡ false) × (keyed d today es ≡ none))

pub keyed-Entries : (d : Dates) (today : String) (es : List CalendarEvent) → Entries d today es
keyed-Entries d today [] = inl (refl, ([], (refl, refl)))
keyed-Entries d today (e ∷ es) =
    let read = date_key-readable d today e in
    elim (Option-cases (date_key d today e)) [
      | inl n ↦ inr (rw (← read, n) refl, rw n refl)
      | inr (k, p) ↦ elim (keyed-Entries d today es) [
        | inl (r, (entries, (q, v))) ↦
            inl (rw (← read, p) r, ((k, tt, e) ∷ entries, (rw (p, q) refl, ap (λ xs. e ∷ xs) v)))
        | inr (r, q) ↦ inr (rw (← read, p) r, rw (p, q) refl)
      ]
    ]
