-- ===== src/Onboarding/Tests.antt =====
-- A household with two more members, whose second post throws at the first press.
use mathlib.Core.List.{map}
use tidyboard.Prelude.{
  ◌≡◌, refl, ℕ, suc, List, [], ◌∷◌, none, some, String, true, is_some, length, take, ltb, ◌==◌,
  if◌then◌else◌,
}
use tidyboard.Onboarding.{
  Form, child, Wizard, Answer, created, thrown, advance, opened, connected_return, goes_home,
}
use tidyboard.Onboarding.Members.{posted, answered, advance-members}
use tidyboard.Onboarding.Runs.{
  Event, press, go_back, fill_in, queue_member, WellPlaced, run, opened-WellPlaced,
}

abbrev form : String → Form
form draft = record {
  household_name = " Home ";
  timezone = "UTC";
  self_name = "Ann";
  self_display_name = "";
  self_color = "#3B82F6";
  draft_name = draft;
  draft_display_name = "";
  draft_role = child;
  draft_pin = some " 1234 ";
  roster_reviewed = true;
}

abbrev fine : ℕ → Answer
fine n = created "h1"

abbrev second_throws : ℕ → Answer
second_throws n = if n == 1 then thrown (some "offline") else created "m1"

abbrev events : List Event
events =
    press fine
    ∷ press fine
    ∷ press fine
    ∷ press fine
    ∷ fill_in (form "Bo")
    ∷ queue_member "u1"
    ∷ fill_in (form "Cy")
    ∷ queue_member "u2"
    ∷ []

abbrev at_roster : Wizard
at_roster = run none (opened (form "")) events

onboarding_tests :
    (at_roster.step ≡ 4)
    × (at_roster.household_id ≡ some "h1")
    × (map (λ m. m.name) at_roster.family_members ≡ "Bo" ∷ "Cy" ∷ [])
    × (map (λ m. m.pin) at_roster.family_members ≡ some "1234" ∷ some "1234" ∷ [])
    × ((advance none second_throws at_roster).0.step ≡ 4)
    × ((advance none second_throws at_roster).0.error ≡ some "offline")
    × (length (advance none second_throws at_roster).1 ≡ 2)
    × ((run none (opened (form "")) (press fine ∷ go_back ∷ go_back ∷ [])).step ≡ 0)
    × ((connected_return (opened (form ""))).step ≡ 5)
    × ((advance none fine (run none at_roster (press fine ∷ press fine ∷ []))).1 ≡ goes_home ∷ [])
onboarding_tests = (refl, refl, refl, refl, refl, refl, refl, refl, refl, refl)

advance-members_example :
    (let k = answered second_throws 0 2 in
      let failed = ltb k 2 in
      let (after, effects) = advance none second_throws at_roster in
      (effects ≡ take (suc k) (map (posted "h1") at_roster.family_members))
      × (after.step ≡ (if failed then 4 else 5))
      × (is_some after.error ≡ failed))
advance-members_example = advance-members "h1" none second_throws at_roster (refl, refl, refl, refl)

opened-WellPlaced_example : WellPlaced (run none (opened (form "")) events)
opened-WellPlaced_example = opened-WellPlaced none (form "") events
