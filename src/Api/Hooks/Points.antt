-- ===== src/Api/Hooks/Points.antt =====
-- web/src/lib/api/hooks.ts: point categories, behaviors, points, rewards, redemptions, savings goals and
-- the timeline.
use tidyboard.Prelude.{
  ℕ, Bool, true, false, List, [], ◌∷◌, ◌++◌, Option, some, String, ◌+++◌, if◌then◌else◌, or_else,
}
use tidyboard.Prelude.Int.{ℤ}
use tidyboard.Api.Request.{
  Json, number as num, text as str, obj, text_or_null, api_get, api_post, api_put, api_patch,
  api_delete, Platform, set_if, suffix,
}
use tidyboard.Api.Keys.{text, number, flag, optional}
use tidyboard.Api.Query.{Query, Mutation, read, read_if, write, given, shown, shown_flag}

abbrev pub use_point_categories : Option Bool → Query
use_point_categories include_archived =
    read (text "point-categories" ∷ flag (or_else include_archived false) ∷ []) (
      "/v1/point-categories"
      +++ (if or_else include_archived false then "?include_archived=true" else ""))

abbrev pub use_create_point_category : Json → Mutation
use_create_point_category req =
    write (api_post "/v1/point-categories" req) (("point-categories" ∷ []) ∷ [])

abbrev pub use_update_point_category : String → Json → Mutation
use_update_point_category id changes =
    write (api_patch ("/v1/point-categories/" +++ id) changes) (("point-categories" ∷ []) ∷ [])

abbrev pub use_archive_point_category : String → Mutation
use_archive_point_category id =
    write (api_delete ("/v1/point-categories/" +++ id)) (("point-categories" ∷ []) ∷ [])

abbrev pub use_behaviors : Platform → Option String → Option Bool → Query
use_behaviors p category_id include_archived =
    read (text "behaviors" ∷ optional category_id ∷ flag (or_else include_archived false) ∷ []) (
      "/v1/behaviors"
      +++ suffix p (
          set_if "category_id" category_id
          ++ (if or_else include_archived false then ("include_archived", "true") ∷ [] else [])))

abbrev pub use_create_behavior : Json → Mutation
use_create_behavior req = write (api_post "/v1/behaviors" req) (("behaviors" ∷ []) ∷ [])

abbrev pub use_update_behavior : String → Json → Mutation
use_update_behavior id changes =
    write (api_patch ("/v1/behaviors/" +++ id) changes) (("behaviors" ∷ []) ∷ [])

abbrev pub use_archive_behavior : String → Mutation
use_archive_behavior id = write (api_delete ("/v1/behaviors/" +++ id)) (("behaviors" ∷ []) ∷ [])

abbrev pub use_points_balance : Option String → Query
use_points_balance member_id =
    read_if (given member_id) (text "points-balance" ∷ optional member_id ∷ [])
      ("/v1/points/" +++ shown member_id)

abbrev pub use_scoreboard : Query
use_scoreboard = record {
  key = text "scoreboard" ∷ [];
  request = some (api_get "/v1/points/scoreboard");
  enabled = true;
  refetch_interval = some 30000;
}

abbrev point_filters : List (List String)
point_filters = ("points-balance" ∷ []) ∷ ("scoreboard" ∷ []) ∷ ("timeline" ∷ []) ∷ []

abbrev pub use_grant_points : String → Json → Mutation
use_grant_points member_id req =
    write (api_post ("/v1/points/" +++ member_id +++ "/grant") req) point_filters

abbrev pub use_adjust_points : String → ℤ → String → Mutation
use_adjust_points member_id points reason =
    write
      (api_post ("/v1/points/" +++ member_id +++ "/adjust")
        (obj (("points", num points) ∷ ("reason", str reason) ∷ [])))
      point_filters

abbrev pub use_rewards : Option Bool → Query
use_rewards only_active =
    read (text "rewards" ∷ flag (or_else only_active true) ∷ [])
      ("/v1/rewards?active=" +++ shown_flag (or_else only_active true))

abbrev pub use_create_reward : Json → Mutation
use_create_reward req = write (api_post "/v1/rewards" req) (("rewards" ∷ []) ∷ [])

abbrev pub use_update_reward : String → Json → Mutation
use_update_reward id changes =
    write (api_patch ("/v1/rewards/" +++ id) changes) (("rewards" ∷ []) ∷ [])

abbrev pub use_archive_reward : String → Mutation
use_archive_reward id = write (api_delete ("/v1/rewards/" +++ id)) (("rewards" ∷ []) ∷ [])

abbrev pub use_redeem_reward : String → Mutation
use_redeem_reward reward_id =
    write (api_post ("/v1/rewards/" +++ reward_id +++ "/redeem") (obj []))
      (("points-balance" ∷ []) ∷ ("redemptions" ∷ []) ∷ ("timeline" ∷ []) ∷ [])

abbrev pub use_redemptions : Platform → Option String → Option String → Query
use_redemptions p member_id status =
    read (text "redemptions" ∷ optional member_id ∷ optional status ∷ [])
      ("/v1/redemptions" +++ suffix p (set_if "member_id" member_id ++ set_if "status" status))

abbrev pub use_approve_redemption : String → Mutation
use_approve_redemption id =
    write (api_post ("/v1/redemptions/" +++ id +++ "/approve") (obj []))
      (("redemptions" ∷ []) ∷ ("points-balance" ∷ []) ∷ ("timeline" ∷ []) ∷ [])

abbrev pub use_decline_redemption : String → String → Mutation
use_decline_redemption id reason =
    write (api_post ("/v1/redemptions/" +++ id +++ "/decline") (obj (("reason", str reason) ∷ [])))
      (("redemptions" ∷ []) ∷ [])

abbrev pub use_fulfill_redemption : String → Mutation
use_fulfill_redemption id =
    write (api_post ("/v1/redemptions/" +++ id +++ "/fulfill") (obj [])) (("redemptions" ∷ []) ∷ [])

abbrev pub use_set_savings_goal : String → Option String → Mutation
use_set_savings_goal member_id reward_id =
    write
      (api_put ("/v1/savings-goals/" +++ member_id)
        (obj (("reward_id", text_or_null reward_id) ∷ [])))
      (("points-balance" ∷ []) ∷ [])

abbrev pub use_cost_adjust_reward : String → Json → Mutation
use_cost_adjust_reward reward_id req =
    write (api_post ("/v1/rewards/" +++ reward_id +++ "/cost-adjust") req)
      (("rewards" ∷ []) ∷ ("timeline" ∷ []) ∷ [])

abbrev pub use_delete_reward_adjustment : String → Mutation
use_delete_reward_adjustment id =
    write (api_delete ("/v1/reward-adjustments/" +++ id)) (("rewards" ∷ []) ∷ [])

abbrev pub use_timeline : Platform → Option String → Option ℕ → Option ℕ → Query
use_timeline p member_id limit offset =
    read_if (given member_id)
      (text "timeline"
        ∷ optional member_id
        ∷ number (or_else limit 50)
        ∷ number (or_else offset 0)
        ∷ [])
      ("/v1/timeline/"
        +++ shown member_id
        +++ "?limit="
        +++ p.number_text (or_else limit 50)
        +++ "&offset="
        +++ p.number_text (or_else offset 0))
