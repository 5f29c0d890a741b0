-- ===== src/Api/Registry/Reads.antt =====
-- The reads among the hooks of web/src/lib/api/hooks.ts, each with the hook's arguments.
use tidyboard.Prelude.{ℕ, Bool, Option, String}
use tidyboard.Api.Request.{Platform}
use tidyboard.Api.Keys.{EventOptions, RoutineOptions, AuditFilters}
use tidyboard.Api.Query.{Query}
use tidyboard.Api.Hooks.Family.{
  use_events, use_live_events, use_live_event, use_calendars, use_members, use_live_members,
  use_my_households, use_household, use_audit, use_household_by_code, use_join_requests,
}
use tidyboard.Api.Hooks.Planning.{
  use_lists, use_live_lists, use_list, use_shopping, use_routines, use_live_routines, use_streak,
  use_race,
}
use tidyboard.Api.Hooks.Equity.{
  use_equity, use_equity_dashboard, use_equity_domains, use_equity_tasks, use_rebalance_suggestions,
  use_equity_contribution, use_housekeeper_estimate,
}
use tidyboard.Api.Hooks.Kitchen.{
  JobStatus, use_recipes, use_live_recipes, use_recipe, use_import_job, use_recipe_collections,
  use_collection_recipes, use_meal_plan, use_live_meal_plan,
}
use tidyboard.Api.Hooks.Chores.{
  TimeEntryOptions, use_chores, use_chore_completions, use_chore_time_entries, use_wallet,
  use_allowance, use_ad_hoc_tasks,
}
use tidyboard.Api.Hooks.Points.{
  use_point_categories, use_behaviors, use_points_balance, use_scoreboard, use_rewards,
  use_redemptions, use_timeline,
}

pub data Read : Type 0 where
  events : Option EventOptions → Read
  live_events : Option EventOptions → Read
  live_event : Option String → Read
  calendars : Read
  members : Read
  live_members : Read
  my_households : Read
  household : Option String → Read
  audit : ℕ → ℕ → Option AuditFilters → Read
  household_by_code : String → Read
  join_requests : Option String → Read
  lists : Read
  live_lists : Read
  list : String → Read
  shopping : Read
  routines : Option RoutineOptions → Read
  live_routines : Option RoutineOptions → Read
  streak : String → String → Read
  race : Read
  equity : Option String → Read
  equity_dashboard : Option String → Option String → Read
  equity_domains : Read
  equity_tasks : Read
  rebalance_suggestions : Read
  equity_contribution : Option String → Option String → Read
  housekeeper_estimate : Option String → Option String → Read
  recipes : Read
  live_recipes : Read
  recipe : String → Read
  import_job : Option String → Option JobStatus → ℕ → Read
  recipe_collections : Read
  collection_recipes : String → Read
  meal_plan : String → String → Read
  live_meal_plan : String → String → Read
  chores : Option String → Read
  chore_completions : String → String → Option String → Read
  chore_time_entries : TimeEntryOptions → Read
  wallet : Option String → Read
  allowance : Read
  ad_hoc_tasks : Option String → Option String → Read
  point_categories : Option Bool → Read
  behaviors : Option String → Option Bool → Read
  points_balance : Option String → Read
  scoreboard : Read
  rewards : Option Bool → Read
  redemptions : Option String → Option String → Read
  timeline : Option String → Option ℕ → Option ℕ → Read

abbrev pub query : Platform → Read → Query
query p (events a1) = use_events p a1
query p (live_events a1) = use_live_events p a1
query _ (live_event a1) = use_live_event a1
query _ calendars = use_calendars
query _ members = use_members
query _ live_members = use_live_members
query _ my_households = use_my_households
query _ (household a1) = use_household a1
query p (audit a1 a2 a3) = use_audit p a1 a2 a3
query p (household_by_code a1) = use_household_by_code p a1
query _ (join_requests a1) = use_join_requests a1
query _ lists = use_lists
query _ live_lists = use_live_lists
query _ (list a1) = use_list a1
query _ shopping = use_shopping
query p (routines a1) = use_routines p a1
query p (live_routines a1) = use_live_routines p a1
query p (streak a1 a2) = use_streak p a1 a2
query _ race = use_race
query p (equity a1) = use_equity p a1
query p (equity_dashboard a1 a2) = use_equity_dashboard p a1 a2
query _ equity_domains = use_equity_domains
query _ equity_tasks = use_equity_tasks
query _ rebalance_suggestions = use_rebalance_suggestions
query p (equity_contribution a1 a2) = use_equity_contribution p a1 a2
query p (housekeeper_estimate a1 a2) = use_housekeeper_estimate p a1 a2
query _ recipes = use_recipes
query _ live_recipes = use_live_recipes
query _ (recipe a1) = use_recipe a1
query _ (import_job a1 a2 a3) = use_import_job a1 a2 a3
query _ recipe_collections = use_recipe_collections
query _ (collection_recipes a1) = use_collection_recipes a1
query p (meal_plan a1 a2) = use_meal_plan p a1 a2
query p (live_meal_plan a1 a2) = use_live_meal_plan p a1 a2
query _ (chores a1) = use_chores a1
query p (chore_completions a1 a2 a3) = use_chore_completions p a1 a2 a3
query p (chore_time_entries a1) = use_chore_time_entries p a1
query _ (wallet a1) = use_wallet a1
query _ allowance = use_allowance
query p (ad_hoc_tasks a1 a2) = use_ad_hoc_tasks p a1 a2
query _ (point_categories a1) = use_point_categories a1
query p (behaviors a1 a2) = use_behaviors p a1 a2
query _ (points_balance a1) = use_points_balance a1
query _ scoreboard = use_scoreboard
query _ (rewards a1) = use_rewards a1
query p (redemptions a1 a2) = use_redemptions p a1 a2
query p (timeline a1 a2 a3) = use_timeline p a1 a2 a3
