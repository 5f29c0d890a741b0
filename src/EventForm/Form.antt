-- ===== src/EventForm/Form.antt =====
-- web/src/components/screens/calendar.tsx, `EventModal`: the form over edits, taps, answers and changes of the
-- event that it is given, while it is mounted. A tap is on a button that is not disabled.
use tidyboard.Prelude.{
  ℕ, suc, Bool, true, false, not, ◌&&◌, List, [], ◌∷◌, Option, none, some, String, truthy, str_eq,
  if◌then◌else◌, or_else,
}
use tidyboard.Prelude.Int.{ℤ}
use tidyboard.Prelude.Words.{trim}
use tidyboard.Api.Query.{given}
use tidyboard.EventForm.{Dates, EventFormData, Fields, initial, toggle_assignee}

-- What the two saving requests carry.
pub record Body : Type 0 where
  pub title : String
  pub start_time : String
  pub end_time : String
  pub location : String
  pub description : String
  pub recurrence_rule : Option String
  pub assigned_members : List String

pub data Sent : Type 0 where
  create_event : Body → Sent
  update_event : String → Body → Sent
  delete_event : String → Sent

-- The modal's state, whether a request is under way, and a record of what it did: the requests, the latest
-- first, and how often it closed itself after one.
pub record Form : Type 0 where
  pub event : EventFormData
  pub fields : Fields
  pub title_error : Bool
  pub mutation_error : Bool
  pub busy : Bool
  pub sent : List Sent
  pub closed : ℕ

pub data Field : Type 0 where
  title start end location description recurrence : Field

pub data FormEvent : Type 0 where
  edit : Field → String → FormEvent
  toggle : String → FormEvent
  save delete : FormEvent
  answered : Bool → FormEvent
  -- the event that the parent passes, with the time and an hour later
  shows : EventFormData → ℤ → ℤ → FormEvent

abbrev pub put : Field → String → Fields → Fields
put which s f = record {
  title = elim which [ Field.title ↦ s | _ ↦ f.title ];
  start = elim which [ Field.start ↦ s | _ ↦ f.start ];
  end = elim which [ Field.end ↦ s | _ ↦ f.end ];
  location = elim which [ Field.location ↦ s | _ ↦ f.location ];
  description = elim which [ Field.description ↦ s | _ ↦ f.description ];
  recurrence = elim which [ Field.recurrence ↦ s | _ ↦ f.recurrence ];
  assigned = f.assigned;
}

abbrev pub assigns : List String → Fields → Fields
assigns ids f = record {
  title = f.title;
  start = f.start;
  end = f.end;
  location = f.location;
  description = f.description;
  recurrence = f.recurrence;
  assigned = ids;
}

abbrev pub with_fields : Fields → Form → Form
with_fields f k = record {
  event = k.event;
  fields = f;
  title_error = k.title_error;
  mutation_error = k.mutation_error;
  busy = k.busy;
  sent = k.sent;
  closed = k.closed;
}

abbrev pub with_errors : Bool → Bool → Form → Form
with_errors title_error mutation_error k = record {
  event = k.event;
  fields = k.fields;
  title_error = title_error;
  mutation_error = mutation_error;
  busy = k.busy;
  sent = k.sent;
  closed = k.closed;
}

abbrev pub sends : Sent → Form → Form
sends r k = record {
  event = k.event;
  fields = k.fields;
  title_error = k.title_error;
  mutation_error = false;
  busy = true;
  sent = r ∷ k.sent;
  closed = k.closed;
}

abbrev body_of : Fields → String → String → Option String → Body
body_of f start_time end_time rule = record {
  title = trim f.title;
  start_time = start_time;
  end_time = end_time;
  location = f.location;
  description = f.description;
  recurrence_rule = rule;
  assigned_members = f.assigned;
}

-- The request that the form's fields make: for an event with an id the change, else the creation, where
-- `...(recurrence ? { … } : {})` leaves an empty rule out.
abbrev pub saving : Option String → Fields → String → String → Sent
saving id f start_time end_time =
    if given id
    then update_event (or_else id "") (body_of f start_time end_time (some f.recurrence))
    else create_event
        (body_of f start_time end_time (if truthy f.recurrence then some f.recurrence else none))

-- `toISOString` throws when a text is no date; then the handler ends, its errors cleared.
abbrev pub save_times : Dates → Form → Option ℤ → Option ℤ → Form
save_times d k (some s) (some e) =
    sends (saving k.event.id k.fields (d.iso s) (d.iso e)) (with_errors false false k)
save_times d k _ _ = with_errors false false k

abbrev pub handle_save : Dates → Form → Form
handle_save d k =
    if not (truthy (trim k.fields.title))
    then with_errors true k.mutation_error k
    else save_times d k (d.time_of k.fields.start) (d.time_of k.fields.end)

abbrev pub handle_delete : Form → Form
handle_delete k = if given k.event.id then sends (delete_event (or_else k.event.id "")) k else k

-- `onSuccess: onClose` and `onError`.
abbrev pub form_answered : Bool → Form → Form
form_answered ok k = record {
  event = k.event;
  fields = k.fields;
  title_error = k.title_error;
  mutation_error = if ok then k.mutation_error else true;
  busy = false;
  sent = k.sent;
  closed = if ok then suc k.closed else k.closed;
}

abbrev same_text : Option String → Option String → Bool
same_text none none = true
same_text (some a) (some b) = str_eq a b
same_text _ _ = false

-- Whether the nine fields that the effect depends on are the same.
abbrev pub same_event : EventFormData → EventFormData → Bool
same_event a b =
    same_text a.id b.id
    && same_text a.title b.title
    && same_text a.start b.start
    && same_text a.end b.end
    && same_text a.start_time b.start_time
    && same_text a.end_time b.end_time
    && same_text a.location b.location
    && same_text a.description b.description
    && same_text a.recurrence_rule b.recurrence_rule

abbrev pub shows_event : Dates → EventFormData → ℤ → ℤ → Form → Form
shows_event d e now later k =
    let same = same_event k.event e in
    record {
      event = e;
      fields = if same then k.fields else initial d now later e;
      title_error = same && k.title_error;
      mutation_error = same && k.mutation_error;
      busy = k.busy;
      sent = k.sent;
      closed = k.closed;
    }

abbrev pub opened : Dates → EventFormData → ℤ → ℤ → Form
opened d e now later = record {
  event = e;
  fields = initial d now later e;
  title_error = false;
  mutation_error = false;
  busy = false;
  sent = [];
  closed = 0;
}

abbrev pub form_step : Dates → Form → FormEvent → Form
form_step d k (edit which s) = with_fields (put which s k.fields) k
form_step d k (toggle id) = with_fields (assigns (toggle_assignee id k.fields.assigned) k.fields) k
form_step d k save = if k.busy then k else handle_save d k
form_step d k delete = if k.busy then k else handle_delete k
form_step d k (answered ok) = if k.busy then form_answered ok k else k
form_step d k (shows e now later) = shows_event d e now later k

abbrev pub form_run : Dates → Form → List FormEvent → Form
form_run d k [] = k
form_run d k (e ∷ es) = form_run d (form_step d k e) es
