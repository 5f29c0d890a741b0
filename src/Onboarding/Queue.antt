-- ===== src/Onboarding/Queue.antt =====
-- web/src/app/onboarding/page.tsx, step 4: the family members that wait to be posted.
use tidyboard.Prelude.{
  ℕ, zero, suc, ◌+◌, ◌%◌, not, List, [], ◌∷◌, ◌++◌, Option, none, some, String, truthy,
  if◌then◌else◌, str_eq, keep, length,
}
use tidyboard.Prelude.Words.{trim}
use tidyboard.Onboarding.{adult, FamilyMemberDraft, Form, Wizard, child_pin}

abbrev member_colors : List String
member_colors =
    "#3B82F6" ∷ "#EF4444" ∷ "#22C55E" ∷ "#F59E0B" ∷ "#8B5CF6" ∷ "#EC4899" ∷ "#06B6D4" ∷ "#F97316"
    ∷ "#14B8A6" ∷ "#A855F7" ∷ "#6366F1" ∷ "#84CC16" ∷ []

abbrev color_at : ℕ → List String → String
color_at n [] = ""
color_at zero (c ∷ cs) = c
color_at (suc n) (c ∷ cs) = color_at n cs

abbrev pub with_members : List FamilyMemberDraft → Form → Option String → Wizard → Wizard
with_members ms f error w = record {
  step = w.step;
  error = error;
  calendar_connected = w.calendar_connected;
  household_id = w.household_id;
  family_members = ms;
  form = f;
}

abbrev pub cleared_draft : Form → Form
cleared_draft f = record {
  household_name = f.household_name;
  timezone = f.timezone;
  self_name = f.self_name;
  self_display_name = f.self_display_name;
  self_color = f.self_color;
  draft_name = "";
  draft_display_name = "";
  draft_role = adult;
  draft_pin = none;
  roster_reviewed = f.roster_reviewed;
}

-- `familyDraft.pin?.trim() ? familyDraft.pin.trim() : undefined`
abbrev trimmed_pin : Option String → Option String
trimmed_pin none = none
trimmed_pin (some pin) = if truthy (trim pin) then some (trim pin) else none

abbrev pub queued_draft : String → Wizard → FamilyMemberDraft
queued_draft uuid w =
    let f = w.form in
    let name = trim f.draft_name in
    record {
      id = uuid;
      name = name;
      display_name = trim (if truthy f.draft_display_name then f.draft_display_name else name);
      role = f.draft_role;
      color = color_at ((length w.family_members + 1) % 12) member_colors;
      age_group = f.draft_role;
      pin = child_pin f.draft_role (trimmed_pin f.draft_pin);
    }

abbrev pub add_family_draft : String → Wizard → Wizard
add_family_draft uuid w =
    if not (truthy (trim w.form.draft_name))
    then with_members w.family_members w.form (some "Family member name is required.") w
    else with_members (w.family_members ++ queued_draft uuid w ∷ []) (cleared_draft w.form) none w

abbrev pub remove_family_draft : String → Wizard → Wizard
remove_family_draft id w =
    with_members (keep (λ m. not (str_eq m.id id)) w.family_members) w.form w.error w
