-- ===== src/Types.antt =====
-- web/src/lib/api/types.ts: the rows that the household's screens read. A text or null field is an
-- `Option String`; a field whose type is a union of literals is a data type with its literals, and
-- `unknown` stands for any other text that a server may send.
use tidyboard.Prelude.{ℕ, Bool, false, List, Option, none, some, String, truthy}
use tidyboard.Prelude.Int.{ℤ}

pub data AdHocStatus : Type 0 where
  open_task pending approved declined unknown : AdHocStatus

pub record ApiAdHocTask : Type 0 where
  pub id : String
  pub household_id : String
  pub member_id : String
  pub name : String
  pub payout_cents : ℤ
  pub requires_approval : Bool
  pub status : AdHocStatus
  pub completed_at : Option String
  pub approved_at : Option String
  pub decline_reason : String
  pub expires_at : Option String
  pub created_at : String

pub data TimeSlot : Type 0 where
  morning evening anytime : TimeSlot

pub record ApiRoutineStep : Type 0 where
  pub id : String
  pub routine_id : String
  pub name : String
  pub est_minutes : Option ℕ
  pub sort_order : ℕ
  pub icon : Option String
  pub created_at : String
  pub updated_at : String

pub record ApiRoutine : Type 0 where
  pub id : String
  pub household_id : String
  pub name : String
  pub member_id : Option String
  pub days_of_week : List String
  pub time_slot : TimeSlot
  pub archived : Bool
  pub sort_order : ℕ
  pub steps : List ApiRoutineStep
  pub created_at : String
  pub updated_at : String

pub data FrequencyKind : Type 0 where
  daily weekdays specific_days weekly unknown : FrequencyKind

pub record ApiChore : Type 0 where
  pub id : String
  pub household_id : String
  pub member_id : String
  pub name : String
  pub weight : ℤ
  pub frequency_kind : FrequencyKind
  pub days_of_week : List String
  pub auto_approve : Bool
  pub archived_at : Option String
  pub created_at : String
  pub updated_at : String
  pub pet_member_ids : Option (List String)

pub data FulfillmentKind : Type 0 where
  self_serve needs_approval : FulfillmentKind

pub record ApiReward : Type 0 where
  pub id : String
  pub household_id : String
  pub name : String
  pub description : String
  pub image_url : Option String
  pub cost_points : ℤ
  pub fulfillment_kind : FulfillmentKind
  pub active : Bool
  pub created_at : String
  pub updated_at : String

pub data RedemptionStatus : Type 0 where
  pending approved fulfilled declined unknown : RedemptionStatus

pub record ApiRedemption : Type 0 where
  pub id : String
  pub household_id : String
  pub reward_id : String
  pub member_id : String
  pub points_at_redemption : ℤ
  pub status : RedemptionStatus
  pub requested_at : String
  pub decided_at : Option String
  pub decided_by_account_id : Option String
  pub fulfilled_at : Option String
  pub decline_reason : String
  pub grant_id : Option String

-- A nullable text as a JavaScript condition: null, undefined and "" are falsy.
abbrev pub present : Option String → Bool
present none = false
present (some s) = truthy s
