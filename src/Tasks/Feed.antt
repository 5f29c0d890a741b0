-- ===== src/Tasks/Feed.antt =====
-- What the task feed holds: which rows come first, and who owns them.
use tidyboard.Prelude.{
  ◌≤◌, ◌≡◌, refl, sym, ap, ap₂, Bool, true, false, not, ◌&&◌, List, [], ◌∷◌, ◌++◌, or_else, All,
  All-append, All-map-keep, All-map, keep, arith, Bool-cases, inl, inr,
}
use tidyboard.Types.{ApiAdHocTask, ApiRoutine, ApiChore, ApiReward, ApiRedemption}
use tidyboard.Tasks.Shape.{UnifiedTask, UnifiedTaskKind, UnifyTasksSources}
use tidyboard.Tasks.Rows.{
  is_pending, task_is_pending, task_is_open, redemption_approval, todo_approval, todo_row,
  routine_row, chore_row, catalog_row, redemption_row, reward_rows, rows_of_rewards, get_group,
  group_from, Groups,
}
use tidyboard.Tasks.Unify.{
  redemption_approvals, todo_approvals, todo_rows, routine_rows, chore_passes, chore_rows, collect,
  unify_tasks,
}
use tidyboard.Tasks.Order.{unify_tasks-order, Descending, by_urgency-All}

-- What holds of every row of the rewards holds of every row that either kind of reward makes.
module _ {κ} (P : UnifiedTask → Type κ) where
  reward_rows-All :
      (w : ApiReward) (reds : List ApiRedemption)
      → P (catalog_row w)
      → ((red : ApiRedemption) → P (redemption_row w red))
      → All P (reward_rows w reds)
  unfolding reward_rows
  reward_rows-All w [] c r = (c, tt)
  reward_rows-All w (red ∷ reds) c r = All-map P (redemption_row w) (red ∷ reds) r

  rows_of_rewards-All :
      (groups : Groups) (rewards : List ApiReward)
      → ((w : ApiReward) → P (catalog_row w))
      → ((w : ApiReward) (red : ApiRedemption) → P (redemption_row w red))
      → All P (rows_of_rewards groups rewards)
  unfolding rows_of_rewards
  rows_of_rewards-All groups [] c r = tt
  rows_of_rewards-All groups (w ∷ rest) c r = elim (Bool-cases w.active) [
    | inl e ↦ rw e (
        All-append P _ _ (reward_rows-All w (get_group w.id groups) (c w) (r w))
          (rows_of_rewards-All groups rest c r))
    | inr e ↦ rw e (rows_of_rewards-All groups rest c r)
  ]

  -- A property of every row of the feed, from the rows that each loop may push.
  pub unify_tasks-All :
      (s : UnifyTasksSources)
      → ((r : ApiRedemption) → P (redemption_approval r))
      → ((t : ApiAdHocTask) → P (todo_approval t))
      → ((t : ApiAdHocTask) → P (todo_row t))
      → ((r : ApiRoutine) → P (routine_row r))
      → ((c : ApiChore) → chore_passes s.members c ≡ true → P (chore_row c))
      → ((w : ApiReward) → P (catalog_row w))
      → ((w : ApiReward) (red : ApiRedemption) → P (redemption_row w red))
      → All P (unify_tasks s)
  unfolding unify_tasks
  unify_tasks-All s a b c d e f g = by_urgency-All P (collect s) (
      unfold collect in
      All-append P (redemption_approvals (or_else s.redemptions [])) _
        (All-map-keep P redemption_approval (λ r. is_pending r.status) (or_else s.redemptions [])
          (λ x _. a x))
        (All-append P (todo_approvals (or_else s.todos [])) _
          (All-map-keep P todo_approval (λ t. task_is_pending t.status && t.requires_approval)
            (or_else s.todos []) (λ x _. b x))
          (All-append P (todo_rows (or_else s.todos [])) _
            (All-map-keep P todo_row (λ t. task_is_open t.status) (or_else s.todos []) (λ x _. c x))
            (All-append P (routine_rows (or_else s.routines [])) _
              (All-map-keep P routine_row (λ r. not r.archived) (or_else s.routines [])
                (λ x _. d x))
              (All-append P (chore_rows s.members (or_else s.chores [])) _
                (All-map-keep P chore_row (chore_passes s.members) (or_else s.chores []) e)
                (rows_of_rewards-All (group_from [] (or_else s.redemptions []))
                  (or_else s.rewards []) f g))))))

abbrev pub is_approval : UnifiedTask → Bool
is_approval t = elim t.kind [ UnifiedTaskKind.approval ↦ true | _ ↦ false ]

-- Approvals have priority 100, and every other row has at most 80.
abbrev Banded : UnifiedTask → Type 0
Banded t = (is_approval t ≡ true → 100 ≤ t.priority) × (is_approval t ≡ false → t.priority ≤ 80)

catalog_row-Banded : (w : ApiReward) → Banded (catalog_row w)
unfolding catalog_row
catalog_row-Banded w = (λ h. cc, λ h. omega arith)

redemption_row-Banded : (w : ApiReward) (red : ApiRedemption) → Banded (redemption_row w red)
unfolding redemption_row
redemption_row-Banded w red = (λ e. cc, λ e. ground arith)

unify_tasks-Banded : (s : UnifyTasksSources) → All Banded (unify_tasks s)
unfolding redemption_approval todo_approval todo_row routine_row chore_row
unify_tasks-Banded s =
    unify_tasks-All Banded s (λ r. (λ h. omega arith, λ h. cc)) (λ t. (λ h. omega arith, λ h. cc))
      (λ t. (λ h. cc, λ h. omega arith)) (λ r. (λ h. cc, λ h. omega arith))
      (λ c _. (λ h. cc, λ h. omega arith)) catalog_row-Banded redemption_row-Banded

no_approvals :
    (t : UnifiedTask) (ts : List UnifiedTask)
    → t.priority ≤ 80
    → All (λ u. u.priority ≤ t.priority) ts
    → All Banded ts
    → (keep is_approval ts ≡ []) × (keep (λ u. not (is_approval u)) ts ≡ ts)
no_approvals t [] h d b = (refl, refl)
no_approvals t (u ∷ ts) h (du, d) (bu, b) = elim (Bool-cases (is_approval u)) [
  | inl e ↦ absurd (omega (arith, bu.0 e))
  | inr e ↦ let (p, q) = no_approvals t ts h d b in (rw e p, rw e (ap (◌∷◌ u) q))
]

approvals_split :
    (ts : List UnifiedTask)
    → Descending ts
    → All Banded ts
    → ts ≡ keep is_approval ts ++ keep (λ u. not (is_approval u)) ts
approvals_split [] d b = refl
approvals_split (t ∷ ts) (dt, d) (bt, b) = elim (Bool-cases (is_approval t)) [
  | inl e ↦ rw e (ap (◌∷◌ t) (approvals_split ts d b))
  | inr e ↦ let (p, q) = no_approvals t ts (bt.1 e) dt b in rw e (sym (ap₂ (λ x y. x ++ t ∷ y) p q))
]

-- For every set of sources, the feed is its approvals (redemption requests and to-dos that wait for
-- an adult) followed by all its other rows.
pub unify_tasks-approvals_first :
    (s : UnifyTasksSources)
    → unify_tasks s
      ≡ keep is_approval (unify_tasks s) ++ keep (λ u. not (is_approval u)) (unify_tasks s)
unify_tasks-approvals_first s =
    approvals_split (unify_tasks s) (unify_tasks-order s).0 (unify_tasks-Banded s)
