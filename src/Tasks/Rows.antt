-- ===== src/Tasks/Rows.antt =====
-- web/src/lib/unified-tasks.ts: the row that each source becomes, and the redemptions grouped by
-- their reward.
use tidyboard.Prelude.{
  ℕ, Bool, true, false, List, [], ◌∷◌, ◌++◌, map, none, some, String, str_eq, ◌+++◌, if◌then◌else◌,
}
use tidyboard.Types.{
  ApiAdHocTask, AdHocStatus, ApiRoutine, ApiChore, ApiReward, ApiRedemption, RedemptionStatus,
}
use tidyboard.Tasks.Shape.{
  UnifiedTaskKind, todo, routine, chore, approval, RewardState, available, pending_approval,
  redeemed, UnifiedTask, priorities,
}

abbrev pub is_pending : RedemptionStatus → Bool
is_pending RedemptionStatus.pending = true
is_pending _ = false

abbrev pub task_is_pending : AdHocStatus → Bool
task_is_pending AdHocStatus.pending = true
task_is_pending _ = false

abbrev pub task_is_open : AdHocStatus → Bool
task_is_open AdHocStatus.open_task = true
task_is_open _ = false

unfoldable pub redemption_approval : ApiRedemption → UnifiedTask
redemption_approval r = record {
  id = "approval:redemption:" +++ r.id;
  kind = approval;
  title = "Redemption awaiting approval";
  member_id = some r.member_id;
  reward_state = none;
  priority = priorities.approval;
  source_id = r.id;
}

unfoldable pub todo_approval : ApiAdHocTask → UnifiedTask
todo_approval t = record {
  id = "approval:todo:" +++ t.id;
  kind = approval;
  title = t.name +++ " (awaiting approval)";
  member_id = some t.member_id;
  reward_state = none;
  priority = priorities.approval;
  source_id = t.id;
}

unfoldable pub todo_row : ApiAdHocTask → UnifiedTask
todo_row t = record {
  id = "todo:" +++ t.id;
  kind = todo;
  title = t.name;
  member_id = some t.member_id;
  reward_state = none;
  priority = priorities.todo;
  source_id = t.id;
}

unfoldable pub routine_row : ApiRoutine → UnifiedTask
routine_row r = record {
  id = "routine:" +++ r.id;
  kind = routine;
  title = r.name;
  member_id = r.member_id;
  reward_state = none;
  priority = priorities.routine;
  source_id = r.id;
}

unfoldable pub chore_row : ApiChore → UnifiedTask
chore_row c = record {
  id = "chore:" +++ c.id;
  kind = chore;
  title = c.name;
  member_id = some c.member_id;
  reward_state = none;
  priority = priorities.chore;
  source_id = c.id;
}

-- `redemptionsByReward`: a map from a reward's id to its redemptions, in input order.
abbrev pub Groups : Type 0
Groups = List (String × List ApiRedemption)

unfoldable pub get_group : String → Groups → List ApiRedemption
get_group id [] = []
get_group id ((key, list) ∷ groups) = if str_eq key id then list else get_group id groups

unfoldable pub push_group : ApiRedemption → Groups → Groups
push_group r [] = (r.reward_id, r ∷ []) ∷ []
push_group r ((key, list) ∷ groups) =
    if str_eq key r.reward_id
    then (key, list ++ r ∷ []) ∷ groups
    else (key, list) ∷ push_group r groups

unfoldable pub group_from : Groups → List ApiRedemption → Groups
unfolding push_group
group_from groups [] = groups
group_from groups (r ∷ rs) = group_from (push_group r groups) rs

-- The `switch` on a redemption's status.
abbrev pub reward_state_of : RedemptionStatus → RewardState
reward_state_of RedemptionStatus.pending = pending_approval
reward_state_of RedemptionStatus.approved = redeemed
reward_state_of RedemptionStatus.fulfilled = redeemed
reward_state_of _ = available

abbrev pub reward_priority_of : RedemptionStatus → ℕ
reward_priority_of RedemptionStatus.pending = priorities.redemption_pending
reward_priority_of _ = priorities.reward_catalog

unfoldable pub catalog_row : ApiReward → UnifiedTask
catalog_row item = record {
  id = "reward:" +++ item.id;
  kind = UnifiedTaskKind.reward;
  title = item.name;
  member_id = none;
  reward_state = some available;
  priority = priorities.reward_catalog;
  source_id = item.id;
}

unfoldable pub redemption_row : ApiReward → ApiRedemption → UnifiedTask
redemption_row item red = record {
  id = "reward:" +++ item.id +++ ":" +++ red.id;
  kind = UnifiedTaskKind.reward;
  title = item.name;
  member_id = some red.member_id;
  reward_state = some (reward_state_of red.status);
  priority = reward_priority_of red.status;
  source_id = red.id;
}

unfoldable pub reward_rows : ApiReward → List ApiRedemption → List UnifiedTask
unfolding catalog_row redemption_row
reward_rows item [] = catalog_row item ∷ []
reward_rows item (red ∷ reds) = map (redemption_row item) (red ∷ reds)

unfoldable pub rows_of_rewards : Groups → List ApiReward → List UnifiedTask
unfolding reward_rows get_group
rows_of_rewards groups [] = []
rows_of_rewards groups (item ∷ rest) =
    (if item.active then reward_rows item (get_group item.id groups) else [])
    ++ rows_of_rewards groups rest
