-- ===== src/Onboarding/Members.antt =====
-- web/src/app/onboarding/page.tsx, step 4: which members reach the server.
use mathlib.Core.List.{map}
use tidyboard.Prelude.{
  ◌≡◌, refl, ap, ℕ, zero, suc, ◌<◌, true, ◌∙◌, truthy, List, [], ◌∷◌, Option, none, some, String,
  is_some, length, take, ltb, lt→ltb, sym, if◌then◌else◌, ◌⊎◌, inl, inr, arith,
}
use tidyboard.Onboarding.{
  FamilyMemberDraft, Wizard, Answer, created, thrown, Effect, posts, add_member, Attempt,
  send_members, attempt, advance, settle,
}

-- The effect of posting a member to a household.
abbrev pub posted : String → FamilyMemberDraft → Effect
posted id m = posts (add_member id m none)

-- The position of the first throw among the next answers, or their number.
abbrev pub answered : (ℕ → Answer) → ℕ → ℕ → ℕ
answered answers n zero = 0
answered answers n (suc k) = let rest = answered answers (suc n) k in go (answers n) rest
  where
    go : Answer → ℕ → ℕ
    go (created _) rest = suc rest
    go (thrown _) rest = 0

Answer-cases :
    (a : Answer) → ((id : String) × (a ≡ created id)) ⊎ ((m : Option String) × (a ≡ thrown m))
Answer-cases (created id) = inl (id, refl)
Answer-cases (thrown m) = inr (m, refl)

ltb-suc : (a b : ℕ) → ltb a b ≡ ltb (suc a) (suc b)
ltb-suc a b = ground arith

send_members-effects :
    (id : String) (answers : ℕ → Answer) (n : ℕ) (ms : List FamilyMemberDraft)
    → (send_members id answers n ms).effects
      ≡ take (suc (answered answers n (length ms))) (map (posted id) ms)
send_members-effects id answers n [] = refl
send_members-effects id answers n (m ∷ ms) = elim (Answer-cases (answers n)) [
  | inl (_, e) ↦ rw e (ap (λ es. posted id m ∷ es) (send_members-effects id answers (suc n) ms))
  | inr (_, e) ↦ rw e refl
]

send_members-failed :
    (id : String) (answers : ℕ → Answer) (n : ℕ) (ms : List FamilyMemberDraft)
    → is_some (send_members id answers n ms).failed
      ≡ ltb (answered answers n (length ms)) (length ms)
send_members-failed id answers n [] = refl
send_members-failed id answers n (m ∷ ms) = elim (Answer-cases (answers n)) [
  | inl (_, e) ↦ rw (e, send_members-failed id answers (suc n) ms) (ltb-suc _ _)
  | inr (_, e) ↦ rw e (sym (lt→ltb 0 (suc (length ms)) (omega arith)))
]

settled-step :
    (w : Wizard) (a : Attempt) (failure : Option String)
    → w.step ≡ 4
    → (settle w a failure).1 ≡ a.effects
      × ((settle w a failure).0.step ≡ (if is_some failure then 4 else 5))
      × (is_some (settle w a failure).0.error ≡ is_some failure)
settled-step w a (some m) h = (refl, h, refl)
settled-step w a none h = rw h (refl, refl, refl)

-- Step 4 with a household, and the roster reviewed.
abbrev pub RosterReady : String → Wizard → Type 0
RosterReady id w =
    (w.step ≡ 4) × (w.household_id ≡ some id) × (truthy id ≡ true) × (w.form.roster_reviewed ≡ true)

attempt-RosterReady :
    (id : String) (account_id : Option String) (answers : ℕ → Answer) (w : Wizard)
    → RosterReady id w
    → attempt w account_id answers ≡ send_members id answers 0 w.family_members
attempt-RosterReady id account_id answers w (s, h, t, r) = rw (s, h, t, r) refl

-- At step 4, with a household and the roster reviewed, `advance` posts the queued members in their order,
-- up to and with the first whose post throws; it goes on to step 5 when none throws, and otherwise stays
-- at step 4 with an error shown.
pub advance-members :
    (id : String) (account_id : Option String) (answers : ℕ → Answer) (w : Wizard)
    → RosterReady id w
    → (let k = answered answers 0 (length w.family_members) in
        let failed = ltb k (length w.family_members) in
        let (after, effects) = advance account_id answers w in
        (effects ≡ take (suc k) (map (posted id) w.family_members))
        × (after.step ≡ (if failed then 4 else 5))
        × (is_some after.error ≡ failed))
advance-members id account_id answers w ready =
    let ms = w.family_members in
    let a = send_members id answers 0 ms in
    let (effects, step, error) = settled-step w a a.failed ready.0 in
    rw (attempt-RosterReady id account_id answers w ready) (
      effects ∙ send_members-effects id answers 0 ms,
      step ∙ ap (λ b. if b then 4 else 5) (send_members-failed id answers 0 ms),
      error ∙ send_members-failed id answers 0 ms,
    )

abbrev always : ℕ → Answer
always _ = created "new"

answered-always : (n k : ℕ) → answered always n k ≡ k
answered-always n zero = refl
answered-always n (suc k) = ap suc (answered-always (suc n) k)

take-map :
    (id : String) (ms : List FamilyMemberDraft)
    → take (suc (length ms)) (map (posted id) ms) ≡ map (posted id) ms
take-map id [] = refl
take-map id (m ∷ ms) = ap (λ es. posted id m ∷ es) (take-map id ms)

RosterReady-settle :
    (id : String) (w : Wizard) (a : Attempt) (failure : Option String)
    → is_some failure ≡ true
    → a.household_id ≡ some id
    → RosterReady id w
    → RosterReady id (settle w a failure).0
      × ((settle w a failure).0.family_members ≡ w.family_members)
RosterReady-settle id w a none e h r = ground arith
RosterReady-settle id w a (some m) e h (s, _, t, q) = ((s, h, t, q), refl)

pub send_members-household :
    (id : String) (answers : ℕ → Answer) (n : ℕ) (ms : List FamilyMemberDraft)
    → (send_members id answers n ms).household_id ≡ some id
send_members-household id answers n [] = refl
send_members-household id answers n (m ∷ ms) = elim (Answer-cases (answers n)) [
  | inl (_, e) ↦ rw e refl
  | inr (_, e) ↦ rw e refl
]

-- When a post of step 4 threw, pressing the button again, with every post succeeding now, posts all the
-- queued members: the ones that the first press had already made are made a second time.
pub retry-posts_again :
    (id : String) (account_id : Option String) (answers : ℕ → Answer) (w : Wizard)
    → RosterReady id w
    → answered answers 0 (length w.family_members) < length w.family_members
    → (advance account_id (λ _. created "new") (advance account_id answers w).0).1
      ≡ map (posted id) w.family_members
retry-posts_again id account_id answers w ready short =
    let ms = w.family_members in
    let a = send_members id answers 0 ms in
    let failed = send_members-failed id answers 0 ms ∙ lt→ltb _ _ short in
    let (again, same) =
      RosterReady-settle id w a a.failed failed (send_members-household id answers 0 ms) ready in
    rw (attempt-RosterReady id account_id answers w ready) (
      (advance-members id account_id always (settle w a a.failed).0 again).0
      ∙ rw (same, answered-always 0 (length ms)) (take-map id ms))
