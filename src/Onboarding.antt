-- ===== src/Onboarding.antt =====
-- web/src/app/onboarding/page.tsx: the wizard that makes a household and its members. An `advance` is
-- one operation here: its button is off until it ends. The server's answers are a function from the
-- number of the request within the operation.
mod Queue
mod Runs
mod Members
mod Tests
use tidyboard.Prelude.{
  ℕ, zero, suc, ◌+◌, ◌-◌, ◌%◌, Bool, true, false, not, ◌&&◌, List, [], ◌∷◌, ◌++◌, Option, none,
  some, String, truthy, ◌+++◌, if◌then◌else◌, or_else, str_eq, keep, length, ltb, ◌==◌,
}
use tidyboard.Prelude.Words.{trim}
use tidyboard.Api.Query.{given}
use tidyboard.Api.Request.{Request, api_post, obj, text, if_truthy}

pub data FamilyRole : Type 0 where
  adult child pet : FamilyRole

pub record FamilyMemberDraft : Type 0 where
  pub id : String
  pub name : String
  pub display_name : String
  pub role : FamilyRole
  pub color : String
  pub age_group : FamilyRole
  pub pin : Option String

-- What the fields of the screens hold; each has its own setter.
pub record Form : Type 0 where
  pub household_name : String
  pub timezone : String
  pub self_name : String
  pub self_display_name : String
  pub self_color : String
  pub draft_name : String
  pub draft_display_name : String
  pub draft_role : FamilyRole
  pub draft_pin : Option String
  pub roster_reviewed : Bool

pub record Wizard : Type 0 where
  pub step : ℕ
  pub error : Option String
  pub calendar_connected : Bool
  pub household_id : Option String
  pub family_members : List FamilyMemberDraft
  pub form : Form

-- An answer: the `id` of its JSON, or a throw with the `message` it has.
pub data Answer : Type 0 where
  created : String → Answer
  thrown : Option String → Answer

pub data Effect : Type 0 where
  posts : Request → Effect
  refreshes goes_home : Effect

abbrev role_text : FamilyRole → String
role_text adult = "adult"
role_text child = "child"
role_text pet = "pet"

-- `member.role === "adult" ? "admin" : member.role`
abbrev server_role : FamilyRole → String
server_role adult = "admin"
server_role child = "child"
server_role pet = "pet"

abbrev pub child_pin : FamilyRole → Option String → Option String
child_pin adult pin = none
child_pin child pin = pin
child_pin pet pin = none

abbrev pub create_household : String → String → Request
create_household name timezone =
    api_post "/v1/households" (obj (("name", text name) ∷ ("timezone", text timezone) ∷ []))

abbrev pub add_member : String → FamilyMemberDraft → Option String → Request
add_member household_id m account_id =
    api_post ("/v1/households/" +++ household_id +++ "/members") (
      obj (
        (("name", text m.name)
          ∷ ("display_name", text m.display_name)
          ∷ ("role", text (server_role m.role))
          ∷ ("age_group", text (role_text m.age_group))
          ∷ ("color", text m.color)
          ∷ [])
        ++ if_truthy "pin" (child_pin m.role m.pin)
        ++ if_truthy "account_id" account_id))

-- What the `try` of `advance` does: the requests it made, the household it learned, and the message
-- of a throw.
pub record Attempt : Type 0 where
  pub effects : List Effect
  pub household_id : Option String
  pub failed : Option String

abbrev pub message_of : Option String → String
message_of m = or_else m "Something went wrong. Please try again."

abbrev pub nothing_sent : Option String → Option String → Attempt
nothing_sent id failure = record { effects = []; household_id = id; failed = failure }

abbrev pub household_attempt : Form → (ℕ → Answer) → Option String → Attempt
household_attempt f answers id =
    if not (truthy (trim f.household_name))
    then nothing_sent id (some "Household name is required.")
    else if not (truthy (trim f.timezone))
    then nothing_sent id (some "Household timezone is required.")
    else after (answers 0)
  where
    sent : List Effect
    sent = posts (create_household (trim f.household_name) (trim f.timezone)) ∷ []

    after : Answer → Attempt
    after (created new_id) = record { effects = sent; household_id = some new_id; failed = none }
    after (thrown m) = record { effects = sent; household_id = id; failed = some (message_of m) }

abbrev pub self_draft : Form → FamilyMemberDraft
self_draft f = record {
  id = "self";
  name = trim f.self_name;
  display_name = trim (if truthy f.self_display_name then f.self_display_name else f.self_name);
  role = adult;
  color = f.self_color;
  age_group = adult;
  pin = none;
}

abbrev pub self_attempt : Form → Option String → (ℕ → Answer) → String → Attempt
self_attempt f account_id answers id =
    if not (truthy (trim f.self_name))
    then nothing_sent (some id) (some "Your name is required.")
    else after (answers 0)
  where
    sent : Effect
    sent = posts (add_member id (self_draft f) account_id)

    after : Answer → Attempt
    after (created _) = record {
      effects = sent ∷ refreshes ∷ [];
      household_id = some id;
      failed = none;
    }
    after (thrown m) = record {
      effects = sent ∷ [];
      household_id = some id;
      failed = some (message_of m);
    }

-- `for (const m of familyMembers) await addMember(householdId, m)`, from the n-th answer on.
abbrev pub send_members : String → (ℕ → Answer) → ℕ → List FamilyMemberDraft → Attempt
send_members id answers n [] = nothing_sent (some id) none
send_members id answers n (m ∷ ms) =
    let rest = send_members id answers (suc n) ms in after (answers n) rest
  where
    after : Answer → Attempt → Attempt
    after (created _) rest = record {
      effects = posts (add_member id m none) ∷ rest.effects;
      household_id = some id;
      failed = rest.failed;
    }
    after (thrown message) rest = record {
      effects = posts (add_member id m none) ∷ [];
      household_id = some id;
      failed = some (message_of message);
    }

abbrev pub roster_attempt : Wizard → (ℕ → Answer) → String → Attempt
roster_attempt w answers id =
    if not w.form.roster_reviewed
    then nothing_sent (some id) (some "Review the roster before continuing.")
    else send_members id answers 0 w.family_members

-- The chain of conditions on the step; a step that none names does nothing.
abbrev pub attempt : Wizard → Option String → (ℕ → Answer) → Attempt
attempt w account_id answers =
    let id = or_else w.household_id "" in
    if w.step == 2
    then household_attempt w.form answers w.household_id
    else if w.step == 3 && given w.household_id
    then self_attempt w.form account_id answers id
    else if w.step == 4 && given w.household_id
    then roster_attempt w answers id
    else nothing_sent w.household_id none

abbrev pub at_step : ℕ → Option String → Option String → Wizard → Wizard
at_step step error id w = record {
  step = step;
  error = error;
  calendar_connected = w.calendar_connected;
  household_id = id;
  family_members = w.family_members;
  form = w.form;
}

-- `TOTAL`
abbrev pub total : ℕ
total = 7

abbrev pub settle : Wizard → Attempt → Option String → Wizard × List Effect
settle w a (some message) = (at_step w.step (some message) a.household_id w, a.effects)
settle w a none =
    if ltb w.step (total - 1)
    then (at_step (suc w.step) none a.household_id w, a.effects)
    else (at_step w.step none a.household_id w, a.effects ++ goes_home ∷ [])

abbrev pub advance : Option String → (ℕ → Answer) → Wizard → Wizard × List Effect
advance account_id answers w = let a = attempt w account_id answers in settle w a a.failed

abbrev pub back : Wizard → Wizard
back w = at_step (w.step - 1) none w.household_id w

-- The effect on `?step=5&connected=1`.
abbrev pub connected_return : Wizard → Wizard
connected_return w = record {
  step = 5;
  error = w.error;
  calendar_connected = true;
  household_id = w.household_id;
  family_members = w.family_members;
  form = w.form;
}

abbrev pub opened : Form → Wizard
opened f = record {
  step = 0;
  error = none;
  calendar_connected = false;
  household_id = none;
  family_members = [];
  form = f;
}
