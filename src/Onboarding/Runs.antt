-- ===== src/Onboarding/Runs.antt =====
-- web/src/app/onboarding/page.tsx: what holds after any sequence of the wizard's events.
use tidyboard.Prelude.{
  ◌≡◌, refl, ℕ, suc, ◌≤◌, Bool, true, false, not, ◌&&◌, List, [], ◌∷◌, Option, none, some, String,
  is_some, truthy, if◌then◌else◌, Bool-cases, inl, inr, ltb, ltb→lt, ◌==◌, ==_iff, or_else, arith,
}
use tidyboard.Prelude.Words.{trim}
use tidyboard.Api.Query.{given}
use tidyboard.Onboarding.Members.{send_members-household}
use tidyboard.Onboarding.{
  Form, Wizard, Answer, Attempt, attempt, household_attempt, self_attempt, send_members,
  roster_attempt, settle, advance, back, opened,
}
use tidyboard.Onboarding.Queue.{with_members, add_family_draft, remove_family_draft}

pub data Event : Type 0 where
  press : (ℕ → Answer) → Event
  go_back : Event
  fill_in : Form → Event
  queue_member : String → Event
  drop_member : String → Event

abbrev pub step_by : Option String → Wizard → Event → Wizard
step_by account_id w (press answers) = (advance account_id answers w).0
step_by account_id w go_back = back w
step_by account_id w (fill_in f) = with_members w.family_members f w.error w
step_by account_id w (queue_member uuid) = add_family_draft uuid w
step_by account_id w (drop_member id) = remove_family_draft id w

abbrev pub run : Option String → Wizard → List Event → Wizard
run account_id w [] = w
run account_id w (e ∷ es) = run account_id (step_by account_id w e) es

-- The step is one of the seven, and past step 2 there is a household.
abbrev pub WellPlaced : Wizard → Type 0
WellPlaced w = (w.step ≤ 6) × (3 ≤ w.step → is_some w.household_id ≡ true)

household_attempt-household :
    (f : Form) (answers : ℕ → Answer) (id : Option String)
    → (household_attempt f answers id).failed ≡ none
    → is_some (household_attempt f answers id).household_id ≡ true
household_attempt-household f answers id h = ground arith

abbrev HasHousehold : Attempt → Type 0
HasHousehold a = is_some a.household_id ≡ true

either :
    (b : Bool) (x y : Attempt) → HasHousehold x → HasHousehold y → HasHousehold (if b then x else y)
either true x y h k = h
either false x y h k = k

household_attempt-keeps :
    (f : Form) (answers : ℕ → Answer) (id : Option String)
    → is_some id ≡ true
    → HasHousehold (household_attempt f answers id)
household_attempt-keeps f answers id h = ground arith

self_attempt-keeps :
    (f : Form) (account_id : Option String) (answers : ℕ → Answer) (id : String)
    → HasHousehold (self_attempt f account_id answers id)
self_attempt-keeps f account_id answers id = ground arith

roster_attempt-keeps :
    (w : Wizard) (answers : ℕ → Answer) (id : String) → HasHousehold (roster_attempt w answers id)
roster_attempt-keeps w answers id =
    either (not w.form.roster_reviewed) _ (send_members id answers 0 w.family_members) refl
      (rw (send_members-household id answers 0 w.family_members) refl)

attempt-keeps :
    (w : Wizard) (account_id : Option String) (answers : ℕ → Answer)
    → is_some w.household_id ≡ true
    → HasHousehold (attempt w account_id answers)
attempt-keeps w account_id answers h =
    let id = or_else w.household_id "" in
    either (w.step == 2) _ _ (household_attempt-keeps w.form answers w.household_id h) (
      either (w.step == 3 && given w.household_id) _ _
        (self_attempt-keeps w.form account_id answers id)
        (either (w.step == 4 && given w.household_id) _ _ (roster_attempt-keeps w answers id) h))

attempt-makes :
    (w : Wizard) (account_id : Option String) (answers : ℕ → Answer)
    → w.step ≡ 2
    → (attempt w account_id answers).failed ≡ none
    → HasHousehold (attempt w account_id answers)
attempt-makes w account_id answers s h =
    rw s (household_attempt-household w.form answers w.household_id (rw s at h))

settle-WellPlaced :
    (w : Wizard) (a : Attempt) (failure : Option String)
    → WellPlaced w
    → (is_some w.household_id ≡ true → HasHousehold a)
    → (w.step ≡ 2 → failure ≡ none → HasHousehold a)
    → WellPlaced (settle w a failure).0
settle-WellPlaced w a (some m) (top, made) keeps makes = (top, λ h. keeps (made h))
settle-WellPlaced w a none (top, made) keeps makes = elim (Bool-cases (ltb w.step 6)) [
  | inl e ↦ rw e (ltb→lt w.step 6 e, λ h. next h)
  | inr e ↦ rw e (top, λ h. keeps (made h))
]
  where
    past : 3 ≤ suc w.step → (w.step == 2) ≡ false → 3 ≤ w.step
    past h q = ground arith

    next : 3 ≤ suc w.step → HasHousehold a
    next h = elim (Bool-cases (w.step == 2)) [
      | inl q ↦ makes ((==_iff w.step 2).0 q) refl
      | inr q ↦ keeps (made (past h q))
    ]

step_by-WellPlaced :
    (account_id : Option String) (w : Wizard) (e : Event)
    → WellPlaced w
    → WellPlaced (step_by account_id w e)
step_by-WellPlaced account_id w (press answers) h =
    settle-WellPlaced w (attempt w account_id answers) (attempt w account_id answers).failed h
      (attempt-keeps w account_id answers) (attempt-makes w account_id answers)
step_by-WellPlaced account_id w go_back (top, made) = (omega arith, λ h. made (omega arith))
step_by-WellPlaced account_id w (fill_in f) h = h
step_by-WellPlaced account_id w (queue_member uuid) h =
    elim (Bool-cases (truthy (trim w.form.draft_name))) [ inl e ↦ rw e h | inr e ↦ rw e h ]
step_by-WellPlaced account_id w (drop_member id) h = h

run_from-WellPlaced :
    (account_id : Option String) (w : Wizard) (es : List Event)
    → WellPlaced w
    → WellPlaced (run account_id w es)
run_from-WellPlaced account_id w [] h = h
run_from-WellPlaced account_id w (e ∷ es) h =
    run_from-WellPlaced account_id (step_by account_id w e) es (step_by-WellPlaced account_id w e h)

-- From an opened wizard, after any sequence of presses, whatever the server answers to them, steps back,
-- edits of the fields and of the queue: the step is at most 6, and from step 3 on the wizard holds a
-- household. (The return from a calendar sign-in, which opens step 5 directly, is not among the events.)
pub opened-WellPlaced :
    (account_id : Option String) (f : Form) (es : List Event)
    → WellPlaced (run account_id (opened f) es)
opened-WellPlaced account_id f es =
    run_from-WellPlaced account_id (opened f) es (omega arith, λ h. absurd (none_yet h))
  where
    none_yet : 3 ≤ 0 → ⊥
    none_yet h = ground arith
