-- ===== src/Tasks/Shape.antt =====
-- web/src/lib/unified-tasks.ts: the feed's types, its priority bands and the test for pets.
use tidyboard.Prelude.{
  ℕ, Bool, false, ◌&&◌, ◌||◌, List, Option, none, some, String, str_eq, truthy, find,
}
use tidyboard.Types.{ApiAdHocTask, ApiRoutine, ApiChore, ApiReward, ApiRedemption}

pub data UnifiedTaskKind : Type 0 where
  todo routine chore reward approval : UnifiedTaskKind

pub data RewardState : Type 0 where
  available pending_approval redeemed : RewardState

pub record UnifiedTask : Type 0 where
  pub id : String
  pub kind : UnifiedTaskKind
  pub title : String
  pub member_id : Option String
  pub reward_state : Option RewardState
  pub priority : ℕ
  pub source_id : String

-- The entries of the roster that the projector reads.
pub record RosterMember : Type 0 where
  pub id : String
  pub role : Option String
  pub age_group : Option String

pub record UnifyTasksSources : Type 0 where
  pub members : Option (List RosterMember)
  pub todos : Option (List ApiAdHocTask)
  pub routines : Option (List ApiRoutine)
  pub chores : Option (List ApiChore)
  pub rewards : Option (List ApiReward)
  pub redemptions : Option (List ApiRedemption)

-- `PRIORITY`: approvals first, the reward catalog last.
pub record PriorityBands : Type 0 where
  pub approval : ℕ
  pub redemption_pending : ℕ
  pub todo : ℕ
  pub routine : ℕ
  pub chore : ℕ
  pub reward_catalog : ℕ

abbrev pub priorities : PriorityBands
priorities = record {
  approval = 100;
  redemption_pending = 80;
  todo = 60;
  routine = 40;
  chore = 40;
  reward_catalog = 20;
}

abbrev pub says_pet : Option String → Bool
says_pet none = false
says_pet (some s) = str_eq s "pet"

unfoldable pub is_pet_in : List RosterMember → String → Bool
is_pet_in members member_id = elim (find (λ mm. str_eq mm.id member_id) members) [
  | none ↦ false
  | some m ↦ says_pet m.role || says_pet m.age_group
]

unfoldable pub is_pet : Option (List RosterMember) → Option String → Bool
unfolding is_pet_in
is_pet none member_id = false
is_pet (some members) none = false
is_pet (some members) (some id) = truthy id && is_pet_in members id
