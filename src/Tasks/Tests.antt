-- ===== src/Tasks/Tests.antt =====
-- Runs of the task feed, and its theorems at a concrete household.
use tidyboard.Prelude.{◌≡◌, refl, true, List, [], ◌∷◌, map, none, some}
use tidyboard.Prelude.Int.{pos}
use tidyboard.Types.{
  ApiChore, FrequencyKind, ApiReward, FulfillmentKind, ApiRedemption, RedemptionStatus,
}
use tidyboard.Tasks.Shape.{is_pet, RosterMember, UnifyTasksSources}
use tidyboard.Tasks.Unify.{collect, unify_tasks}
use tidyboard.Tasks.Order.{band, unify_tasks-order}

abbrev ice_cream : ApiReward
ice_cream = record {
  id = "w1";
  household_id = "h";
  name = "Ice cream";
  description = "";
  image_url = none;
  cost_points = pos 5;
  fulfillment_kind = FulfillmentKind.needs_approval;
  active = true;
  created_at = "";
  updated_at = "";
}

abbrev rex_request : ApiRedemption
rex_request = record {
  id = "r1";
  household_id = "h";
  reward_id = "w1";
  member_id = "rex";
  points_at_redemption = pos 5;
  status = RedemptionStatus.pending;
  requested_at = "";
  decided_at = none;
  decided_by_account_id = none;
  fulfilled_at = none;
  decline_reason = "";
  grant_id = none;
}

abbrev feed_rex : ApiChore
feed_rex = record {
  id = "c1";
  household_id = "h";
  member_id = "ann";
  name = "Feed Rex";
  weight = pos 1;
  frequency_kind = FrequencyKind.daily;
  days_of_week = [];
  auto_approve = true;
  archived_at = none;
  created_at = "";
  updated_at = "";
  pet_member_ids = none;
}

abbrev roster : List RosterMember
roster =
    record { id = "ann"; role = some "child"; age_group = none }
    ∷ record { id = "rex"; role = some "pet"; age_group = none }
    ∷ []

abbrev sources : UnifyTasksSources
sources = record {
  members = some roster;
  todos = none;
  routines = none;
  chores = some (feed_rex ∷ record feed_rex { id = "c2"; member_id = "rex" } ∷ []);
  rewards = some (ice_cream ∷ []);
  redemptions = some (rex_request ∷ []);
}

feed_ids :
    map (λ t. t.id) (unify_tasks sources)
    ≡ "approval:redemption:r1" ∷ "reward:w1:r1" ∷ "chore:c1" ∷ []
unfolding unify_tasks is_pet
feed_ids = refl

unify_tasks-order_example : band 40 (unify_tasks sources) ≡ band 40 (collect sources)
unify_tasks-order_example = (unify_tasks-order sources).2 40
