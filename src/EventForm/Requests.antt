-- ===== src/EventForm/Requests.antt =====
-- web/src/components/screens/calendar.tsx, `EventModal`: what the form asks the server for.
use mathlib.Core.Bool.{false≢true}
use tidyboard.Prelude.{
  ◌≡◌, refl, ap, ◌⊎◌, ℕ, ◌+◌, ◌≤◌, Bool, true, false, List, [], ◌∷◌, ◌++◌, Option, none, some,
  String, truthy, str_eq, eq_iff, if◌then◌else◌, or_else, length, All, Bool-cases, Option-cases,
  inl, inr, arith,
}
use tidyboard.Prelude.Int.{ℤ}
use tidyboard.Prelude.Words.{trim}
use tidyboard.Api.Query.{given}
use tidyboard.EventForm.{Dates, EventFormData, Fields}
use tidyboard.EventForm.Ink.{has_ink, trim-ink}
use tidyboard.EventForm.Form.{
  Body, Sent, create_event, update_event, delete_event, Form, FormEvent, edit, toggle, save, delete,
  answered, shows, saving, handle_save, handle_delete, form_answered, opened, form_step, form_run,
}

-- A body that says what the fields say: a title that is not blank, the moments that the two texts stand for,
-- and the rest as it stands.
abbrev pub Fits : Dates → Fields → Body → Type 0
Fits d f b =
    (has_ink b.title ≡ true)
    × (b.title ≡ trim f.title)
    × ((s : ℤ) × ((d.time_of f.start ≡ some s) × (b.start_time ≡ d.iso s)))
    × ((e : ℤ) × ((d.time_of f.end ≡ some e) × (b.end_time ≡ d.iso e)))
    × (b.location ≡ f.location)
    × (b.description ≡ f.description)
    × (or_else b.recurrence_rule "" ≡ f.recurrence)
    × (b.assigned_members ≡ f.assigned)

-- The request is what a tap on a form with no request under way asks for: a tap on save the change of the
-- form's event, or the creation of one if it has no id, with what the fields say; a tap on delete the deletion
-- of the form's event.
abbrev pub Asks : Dates → Form → FormEvent → Sent → Type 0
Asks d k save (create_event b) = (k.busy ≡ false) × (given k.event.id ≡ false) × Fits d k.fields b
Asks d k save (update_event id b) =
    (k.busy ≡ false) × (k.event.id ≡ some id) × (truthy id ≡ true) × Fits d k.fields b
Asks d k delete (delete_event id) = (k.busy ≡ false) × (k.event.id ≡ some id) × (truthy id ≡ true)
Asks d k _ _ = ⊥

-- The request comes from one of the events, by the form as it stood then.
abbrev pub Asked : Dates → Form → List FormEvent → Sent → Type 0
Asked d k es r =
    (before : List FormEvent) × (e : FormEvent) × (after : List FormEvent) × (es
      ≡ before ++ e ∷ after)
    × Asks d (form_run d k before) e r

abbrev pub waits : Bool → ℕ
waits true = 1
waits false = 0

-- The form has closed itself no more often than requests have been answered.
abbrev pub Counted : Form → Type 0
Counted k = k.closed + waits k.busy ≤ length k.sent

abbrev pub Orderly : Dates → Form → List FormEvent → Type 0
Orderly d k es = All (Asked d k es) (form_run d k es).sent × Counted (form_run d k es)

given-some :
    (id : Option String)
    → given id ≡ true
    → (id ≡ some (or_else id "")) × (truthy (or_else id "") ≡ true)
given-some none h = absurd (false≢true h)
given-some (some id) h = (refl, h)

rule-kept : (s : String) → or_else (if truthy s then some s else none) "" ≡ s
rule-kept s = elim (Bool-cases (str_eq s "")) [
  | inl e ↦ rw (e, (eq_iff s "").0 e) refl
  | inr e ↦ rw e refl
]

saving-Asks :
    (d : Dates) (k : Form) (s e : ℤ)
    → k.busy ≡ false
    → truthy (trim k.fields.title) ≡ true
    → d.time_of k.fields.start ≡ some s
    → d.time_of k.fields.end ≡ some e
    → Asks d k save (saving k.event.id k.fields (d.iso s) (d.iso e))
saving-Asks d k s e b t p q =
    let ink = trim-ink k.fields.title t in
    elim (Bool-cases (given k.event.id)) [
      | inl g ↦
          let (same, named) = given-some k.event.id g in
          rw g (b, same, named, (ink, refl, (s, (p, refl)), (e, (q, refl)), refl, refl, refl, refl))
      | inr g ↦ rw g (
        b,
        g,
        (
          ink,
          refl,
          (s, (p, refl)),
          (e, (q, refl)),
          refl,
          refl,
          rule-kept k.fields.recurrence,
          refl,
        ),
      )
    ]

-- A step sends nothing, or what the event asks for.
abbrev Sends : Dates → Form → FormEvent → Form → Type 0
Sends d k e k' = (k'.sent ≡ k.sent) ⊎ ((r : Sent) × ((k'.sent ≡ r ∷ k.sent) × Asks d k e r))

save-Sends : (d : Dates) (k : Form) → k.busy ≡ false → Sends d k save (handle_save d k)
save-Sends d k b = elim (Bool-cases (truthy (trim k.fields.title))) [
  | inr h ↦ inl (rw h refl)
  | inl h ↦ elim (Option-cases (d.time_of k.fields.start)) [
    | inl p ↦ inl (rw (h, p) refl)
    | inr (s, p) ↦ elim (Option-cases (d.time_of k.fields.end)) [
      | inl q ↦ inl (rw (h, p, q) refl)
      | inr (e, q) ↦ inr (_, (rw (h, p, q) refl, saving-Asks d k s e b h p q))
    ]
  ]
]

delete-Sends : (d : Dates) (k : Form) → k.busy ≡ false → Sends d k delete (handle_delete k)
delete-Sends d k b = elim (Bool-cases (given k.event.id)) [
  | inl g ↦ inr (
    delete_event (or_else k.event.id ""),
    (rw g refl, (let (same, named) = given-some k.event.id g in (b, same, named))),
  )
  | inr g ↦ inl (rw g refl)
]

if_either :
    (P : Form → Type 0) (b : Bool) (x y : Form)
    → (b ≡ true → P x)
    → (b ≡ false → P y)
    → P (if b then x else y)
if_either P true x y h g = h refl
if_either P false x y h g = g refl

step-Sends : (d : Dates) (k : Form) (e : FormEvent) → Sends d k e (form_step d k e)
step-Sends d k (edit which s) = inl refl
step-Sends d k (toggle id) = inl refl
step-Sends d k save =
    if_either (Sends d k save) k.busy k (handle_save d k) (λ _. inl refl) (λ b. save-Sends d k b)
step-Sends d k delete =
    if_either (Sends d k delete) k.busy k (handle_delete k) (λ _. inl refl)
      (λ b. delete-Sends d k b)
step-Sends d k (answered ok) =
    if_either (Sends d k (answered ok)) k.busy (form_answered ok k) k (λ _. inl refl)
      (λ _. inl refl)
step-Sends d k (shows e now later) = inl refl

save-Counted : (d : Dates) (k : Form) → k.busy ≡ false → Counted k → Counted (handle_save d k)
save-Counted d k b n = elim (Bool-cases (truthy (trim k.fields.title))) [
  | inr h ↦ rw h n
  | inl h ↦ elim (Option-cases (d.time_of k.fields.start)) [
    | inl p ↦ rw (h, p) n
    | inr (s, p) ↦ elim (Option-cases (d.time_of k.fields.end)) [
      | inl q ↦ rw (h, p, q) n
      | inr (e, q) ↦ rw (h, p, q) (omega (arith, (rw b at n)))
    ]
  ]
]

delete-Counted : (k : Form) → k.busy ≡ false → Counted k → Counted (handle_delete k)
delete-Counted k b n = elim (Bool-cases (given k.event.id)) [
  | inl g ↦ rw g (omega (arith, (rw b at n)))
  | inr g ↦ rw g n
]

answered-Counted : (ok : Bool) (k : Form) → k.busy ≡ true → Counted k → Counted (form_answered ok k)
answered-Counted true k b n = omega (arith, (rw b at n))
answered-Counted false k b n = omega (arith, (rw b at n))

step-Counted : (d : Dates) (k : Form) (e : FormEvent) → Counted k → Counted (form_step d k e)
step-Counted d k (edit which s) n = n
step-Counted d k (toggle id) n = n
step-Counted d k save n =
    if_either Counted k.busy k (handle_save d k) (λ _. n) (λ b. save-Counted d k b n)
step-Counted d k delete n =
    if_either Counted k.busy k (handle_delete k) (λ _. n) (λ b. delete-Counted k b n)
step-Counted d k (answered ok) n =
    if_either Counted k.busy (form_answered ok k) k (λ b. answered-Counted ok k b n) (λ _. n)
step-Counted d k (shows e now later) n = n

run-Counted : (d : Dates) (k : Form) (es : List FormEvent) → Counted k → Counted (form_run d k es)
run-Counted d k [] n = n
run-Counted d k (e ∷ es) n = run-Counted d (form_step d k e) es (step-Counted d k e n)

-- What holds of the requests so far and of each that an event asks for holds of all.
run-All :
    (d : Dates) (Q : Sent → Type 0) (k : Form) (es : List FormEvent)
    → All Q k.sent
    → ((before : List FormEvent) (e : FormEvent) (after : List FormEvent) (r : Sent)
        → es ≡ before ++ e ∷ after
        → Asks d (form_run d k before) e r
        → Q r)
    → All Q (form_run d k es).sent
run-All d Q k [] all made = all
run-All d Q k (e ∷ es) all made =
    run-All d Q (form_step d k e) es here
      (λ before f after r same asks. made (e ∷ before) f after r (ap (λ fs. e ∷ fs) same) asks)
  where
    here : All Q (form_step d k e).sent
    here = elim (step-Sends d k e) [
      | inl same ↦ rw same all
      | inr (r, (same, asks)) ↦ rw same (made [] e es r refl asks, all)
    ]

-- For a form that opens on any event, after any edits, taps, answers and changes of the event that it is
-- given. Every request comes from a tap while no request was under way: a saving one from a tap on save, with
-- a title that is not blank and the two moments that the form's texts stood for then, its other fields as they
-- stood, and it changes the form's event, or creates one if that had no id; a deleting one from a tap on
-- delete, for the form's event. And the form has closed itself no more often than there are requests that are
-- no longer under way.
pub form_run-Orderly :
    (d : Dates) (e : EventFormData) (now later : ℤ) (es : List FormEvent)
    → Orderly d (opened d e now later) es
form_run-Orderly d e now later es =
    let k = opened d e now later in
    (
      run-All d (Asked d k es) k es tt
          (λ before e after r same asks. (before, e, after, same, asks)),
      run-Counted d k es (omega arith),
    )
