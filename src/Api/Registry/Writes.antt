-- ===== src/Api/Registry/Writes.antt =====
-- The writes among the hooks of web/src/lib/api/hooks.ts, each with the hook's arguments and then its
-- mutation's variables.
use tidyboard.Prelude.{Bool, List, Option, String}
use tidyboard.Prelude.Int.{ℤ}
use tidyboard.Api.Request.{Platform, Json}
use tidyboard.Api.Query.{Mutation}
use tidyboard.Api.Hooks.Family.{
  NotifyPreferences, MemberPatch, MemberInput, use_create_event, use_update_event, use_set_event,
  use_delete_event, use_add_ical_calendar, use_sync_ical, use_create_member, use_update_member,
  use_delete_member, use_update_household_settings, use_update_member_notify, use_test_notification,
  use_regenerate_invite_code, use_request_join, use_approve_join_request, use_reject_join_request,
  use_report_bug,
}
use tidyboard.Api.Hooks.Planning.{
  use_toggle_list_item, use_create_list, use_add_list_item, use_delete_list_item,
  use_toggle_shopping_item, use_generate_shopping_list, use_create_routine, use_update_routine,
  use_delete_routine, use_add_step, use_update_step, use_delete_step, use_mark_step_complete,
  use_unmark_step, use_toggle_routine_step,
}
use tidyboard.Api.Hooks.Equity.{
  use_create_equity_task, use_update_equity_task, use_delete_equity_task, use_log_task_time,
}
use tidyboard.Api.Hooks.Kitchen.{
  MealPlanEntryInput, use_import_recipe, use_start_import_job, use_create_collection,
  use_update_collection, use_delete_collection, use_assign_recipe_to_collection,
  use_remove_recipe_from_collection, use_upsert_meal_plan_entry, use_delete_meal_plan_entry,
}
use tidyboard.Api.Hooks.Chores.{
  ManualEntry, use_mark_chore_complete, use_undo_chore_complete, use_create_chore, use_update_chore,
  use_archive_chore, use_set_chore_pets, use_start_chore_timer, use_stop_chore_timer,
  use_record_manual_time_entry, use_update_time_entry, use_delete_time_entry, use_tip, use_cash_out,
  use_upsert_allowance, use_create_ad_hoc_task, use_approve_ad_hoc_task, use_decline_ad_hoc_task,
  use_complete_ad_hoc_task,
}
use tidyboard.Api.Hooks.Points.{
  use_create_point_category, use_update_point_category, use_archive_point_category,
  use_create_behavior, use_update_behavior, use_archive_behavior, use_grant_points,
  use_adjust_points, use_create_reward, use_update_reward, use_archive_reward, use_redeem_reward,
  use_approve_redemption, use_decline_redemption, use_fulfill_redemption, use_set_savings_goal,
  use_cost_adjust_reward, use_delete_reward_adjustment,
}

pub data Write : Type 0 where
  create_event : Json → Write
  update_event : String → Json → Write
  set_event : Option String → Json → Write
  delete_event : String → Write
  add_ical_calendar : String → String → Write
  sync_ical : String → String → String → Write
  create_member : String → MemberInput → Write
  update_member : String → String → MemberPatch → Write
  delete_member : String → String → Write
  update_household_settings : String → Json → Write
  update_member_notify : String → Option String → NotifyPreferences → Write
  test_notification : String → Write
  regenerate_invite_code : String → Write
  request_join : String → Write
  approve_join_request : String → String → Write
  reject_join_request : String → String → Write
  report_bug : Json → Write
  toggle_list_item : String → String → Bool → Write
  create_list : String → Option String → Write
  add_list_item : String → String → Write
  delete_list_item : String → String → Write
  toggle_shopping_item : Option String → Bool → Write
  generate_shopping_list : String → String → Write
  create_routine : Json → Write
  update_routine : String → Json → Write
  delete_routine : String → Write
  add_step : String → Json → Write
  update_step : String → String → Json → Write
  delete_step : String → String → Write
  mark_step_complete : String → Json → Write
  unmark_step : String → String → Write
  toggle_routine_step : String → String → String → Bool → Write
  create_equity_task : Json → Write
  update_equity_task : String → Json → Write
  delete_equity_task : String → Write
  log_task_time : String → Json → Write
  import_recipe : String → Write
  start_import_job : String → Write
  create_collection : Json → Write
  update_collection : String → Json → Write
  delete_collection : String → Write
  assign_recipe_to_collection : String → String → Option ℤ → Write
  remove_recipe_from_collection : String → String → Write
  upsert_meal_plan_entry : MealPlanEntryInput → Write
  delete_meal_plan_entry : String → Write
  mark_chore_complete : String → Option String → Write
  undo_chore_complete : String → String → Write
  create_chore : Json → Write
  update_chore : String → Json → Write
  archive_chore : String → Write
  set_chore_pets : String → List String → Write
  start_chore_timer : String → Write
  stop_chore_timer : String → Write
  record_manual_time_entry : String → ManualEntry → Write
  update_time_entry : String → Option String → Option String → Option String → Write
  delete_time_entry : String → Write
  tip : String → ℤ → String → Write
  cash_out : String → ℤ → Option String → Option String → Write
  upsert_allowance : String → ℤ → Write
  create_ad_hoc_task : Json → Write
  approve_ad_hoc_task : String → Write
  decline_ad_hoc_task : String → String → Write
  complete_ad_hoc_task : String → Write
  create_point_category : Json → Write
  update_point_category : String → Json → Write
  archive_point_category : String → Write
  create_behavior : Json → Write
  update_behavior : String → Json → Write
  archive_behavior : String → Write
  grant_points : String → Json → Write
  adjust_points : String → ℤ → String → Write
  create_reward : Json → Write
  update_reward : String → Json → Write
  archive_reward : String → Write
  redeem_reward : String → Write
  approve_redemption : String → Write
  decline_redemption : String → String → Write
  fulfill_redemption : String → Write
  set_savings_goal : String → Option String → Write
  cost_adjust_reward : String → Json → Write
  delete_reward_adjustment : String → Write

abbrev pub mutation : Platform → Write → Mutation
mutation _ (create_event a1) = use_create_event a1
mutation _ (update_event a1 a2) = use_update_event a1 a2
mutation _ (set_event a1 a2) = use_set_event a1 a2
mutation _ (delete_event a1) = use_delete_event a1
mutation _ (add_ical_calendar a1 a2) = use_add_ical_calendar a1 a2
mutation _ (sync_ical a1 a2 a3) = use_sync_ical a1 a2 a3
mutation _ (create_member a1 a2) = use_create_member a1 a2
mutation _ (update_member a1 a2 a3) = use_update_member a1 a2 a3
mutation _ (delete_member a1 a2) = use_delete_member a1 a2
mutation _ (update_household_settings a1 a2) = use_update_household_settings a1 a2
mutation _ (update_member_notify a1 a2 a3) = use_update_member_notify a1 a2 a3
mutation _ (test_notification a1) = use_test_notification a1
mutation _ (regenerate_invite_code a1) = use_regenerate_invite_code a1
mutation p (request_join a1) = use_request_join p a1
mutation _ (approve_join_request a1 a2) = use_approve_join_request a1 a2
mutation _ (reject_join_request a1 a2) = use_reject_join_request a1 a2
mutation _ (report_bug a1) = use_report_bug a1
mutation _ (toggle_list_item a1 a2 a3) = use_toggle_list_item a1 a2 a3
mutation _ (create_list a1 a2) = use_create_list a1 a2
mutation _ (add_list_item a1 a2) = use_add_list_item a1 a2
mutation _ (delete_list_item a1 a2) = use_delete_list_item a1 a2
mutation p (toggle_shopping_item a1 a2) = use_toggle_shopping_item p a1 a2
mutation _ (generate_shopping_list a1 a2) = use_generate_shopping_list a1 a2
mutation _ (create_routine a1) = use_create_routine a1
mutation _ (update_routine a1 a2) = use_update_routine a1 a2
mutation _ (delete_routine a1) = use_delete_routine a1
mutation _ (add_step a1 a2) = use_add_step a1 a2
mutation _ (update_step a1 a2 a3) = use_update_step a1 a2 a3
mutation _ (delete_step a1 a2) = use_delete_step a1 a2
mutation _ (mark_step_complete a1 a2) = use_mark_step_complete a1 a2
mutation _ (unmark_step a1 a2) = use_unmark_step a1 a2
mutation _ (toggle_routine_step a1 a2 a3 a4) = use_toggle_routine_step a1 a2 a3 a4
mutation _ (create_equity_task a1) = use_create_equity_task a1
mutation _ (update_equity_task a1 a2) = use_update_equity_task a1 a2
mutation _ (delete_equity_task a1) = use_delete_equity_task a1
mutation _ (log_task_time a1 a2) = use_log_task_time a1 a2
mutation _ (import_recipe a1) = use_import_recipe a1
mutation _ (start_import_job a1) = use_start_import_job a1
mutation _ (create_collection a1) = use_create_collection a1
mutation _ (update_collection a1 a2) = use_update_collection a1 a2
mutation _ (delete_collection a1) = use_delete_collection a1
mutation _ (assign_recipe_to_collection a1 a2 a3) = use_assign_recipe_to_collection a1 a2 a3
mutation _ (remove_recipe_from_collection a1 a2) = use_remove_recipe_from_collection a1 a2
mutation _ (upsert_meal_plan_entry a1) = use_upsert_meal_plan_entry a1
mutation _ (delete_meal_plan_entry a1) = use_delete_meal_plan_entry a1
mutation _ (mark_chore_complete a1 a2) = use_mark_chore_complete a1 a2
mutation _ (undo_chore_complete a1 a2) = use_undo_chore_complete a1 a2
mutation _ (create_chore a1) = use_create_chore a1
mutation _ (update_chore a1 a2) = use_update_chore a1 a2
mutation _ (archive_chore a1) = use_archive_chore a1
mutation _ (set_chore_pets a1 a2) = use_set_chore_pets a1 a2
mutation _ (start_chore_timer a1) = use_start_chore_timer a1
mutation _ (stop_chore_timer a1) = use_stop_chore_timer a1
mutation _ (record_manual_time_entry a1 a2) = use_record_manual_time_entry a1 a2
mutation _ (update_time_entry a1 a2 a3 a4) = use_update_time_entry a1 a2 a3 a4
mutation _ (delete_time_entry a1) = use_delete_time_entry a1
mutation _ (tip a1 a2 a3) = use_tip a1 a2 a3
mutation _ (cash_out a1 a2 a3 a4) = use_cash_out a1 a2 a3 a4
mutation _ (upsert_allowance a1 a2) = use_upsert_allowance a1 a2
mutation _ (create_ad_hoc_task a1) = use_create_ad_hoc_task a1
mutation _ (approve_ad_hoc_task a1) = use_approve_ad_hoc_task a1
mutation _ (decline_ad_hoc_task a1 a2) = use_decline_ad_hoc_task a1 a2
mutation _ (complete_ad_hoc_task a1) = use_complete_ad_hoc_task a1
mutation _ (create_point_category a1) = use_create_point_category a1
mutation _ (update_point_category a1 a2) = use_update_point_category a1 a2
mutation _ (archive_point_category a1) = use_archive_point_category a1
mutation _ (create_behavior a1) = use_create_behavior a1
mutation _ (update_behavior a1 a2) = use_update_behavior a1 a2
mutation _ (archive_behavior a1) = use_archive_behavior a1
mutation _ (grant_points a1 a2) = use_grant_points a1 a2
mutation _ (adjust_points a1 a2 a3) = use_adjust_points a1 a2 a3
mutation _ (create_reward a1) = use_create_reward a1
mutation _ (update_reward a1 a2) = use_update_reward a1 a2
mutation _ (archive_reward a1) = use_archive_reward a1
mutation _ (redeem_reward a1) = use_redeem_reward a1
mutation _ (approve_redemption a1) = use_approve_redemption a1
mutation _ (decline_redemption a1 a2) = use_decline_redemption a1 a2
mutation _ (fulfill_redemption a1) = use_fulfill_redemption a1
mutation _ (set_savings_goal a1 a2) = use_set_savings_goal a1 a2
mutation _ (cost_adjust_reward a1 a2) = use_cost_adjust_reward a1 a2
mutation _ (delete_reward_adjustment a1) = use_delete_reward_adjustment a1
