-- ===== src/Api/Refresh/Roots.antt =====
-- Per hook of web/src/lib/api/hooks.ts: none of the filters that it invalidates is for the keys that begin
-- with "live-only".
use tidyboard.Prelude.{◌≡◌, refl, true}
use tidyboard.Api.Request.{Platform}
use tidyboard.Api.Matching.{all_avoid}
use tidyboard.Api.Registry.Writes.{
  Write, mutation, create_event, update_event, set_event, delete_event, add_ical_calendar,
  sync_ical, create_member, update_member, delete_member, update_household_settings,
  update_member_notify, test_notification, regenerate_invite_code, request_join,
  approve_join_request, reject_join_request, report_bug, toggle_list_item, create_list,
  add_list_item, delete_list_item, toggle_shopping_item, generate_shopping_list, create_routine,
  update_routine, delete_routine, add_step, update_step, delete_step, mark_step_complete,
  unmark_step, toggle_routine_step, create_equity_task, update_equity_task, delete_equity_task,
  log_task_time, import_recipe, start_import_job, create_collection, update_collection,
  delete_collection, assign_recipe_to_collection, remove_recipe_from_collection,
  upsert_meal_plan_entry, delete_meal_plan_entry, mark_chore_complete, undo_chore_complete,
  create_chore, update_chore, archive_chore, set_chore_pets, start_chore_timer, stop_chore_timer,
  record_manual_time_entry, update_time_entry, delete_time_entry, tip, cash_out, upsert_allowance,
  create_ad_hoc_task, approve_ad_hoc_task, decline_ad_hoc_task, complete_ad_hoc_task,
  create_point_category, update_point_category, archive_point_category, create_behavior,
  update_behavior, archive_behavior, grant_points, adjust_points, create_reward, update_reward,
  archive_reward, redeem_reward, approve_redemption, decline_redemption, fulfill_redemption,
  set_savings_goal, cost_adjust_reward, delete_reward_adjustment,
}

pub invalidates-avoids :
    (p : Platform) (w : Write) → all_avoid "live-only" (mutation p w).invalidates ≡ true
invalidates-avoids p (create_event _) = refl
invalidates-avoids p (update_event _ _) = refl
invalidates-avoids p (set_event _ _) = refl
invalidates-avoids p (delete_event _) = refl
invalidates-avoids p (add_ical_calendar _ _) = refl
invalidates-avoids p (sync_ical _ _ _) = refl
invalidates-avoids p (create_member _ _) = refl
invalidates-avoids p (update_member _ _ _) = refl
invalidates-avoids p (delete_member _ _) = refl
invalidates-avoids p (update_household_settings _ _) = refl
invalidates-avoids p (update_member_notify _ _ _) = refl
invalidates-avoids p (test_notification _) = refl
invalidates-avoids p (regenerate_invite_code _) = refl
invalidates-avoids p (request_join _) = refl
invalidates-avoids p (approve_join_request _ _) = refl
invalidates-avoids p (reject_join_request _ _) = refl
invalidates-avoids p (report_bug _) = refl
invalidates-avoids p (toggle_list_item _ _ _) = refl
invalidates-avoids p (create_list _ _) = refl
invalidates-avoids p (add_list_item _ _) = refl
invalidates-avoids p (delete_list_item _ _) = refl
invalidates-avoids p (toggle_shopping_item _ _) = refl
invalidates-avoids p (generate_shopping_list _ _) = refl
invalidates-avoids p (create_routine _) = refl
invalidates-avoids p (update_routine _ _) = refl
invalidates-avoids p (delete_routine _) = refl
invalidates-avoids p (add_step _ _) = refl
invalidates-avoids p (update_step _ _ _) = refl
invalidates-avoids p (delete_step _ _) = refl
invalidates-avoids p (mark_step_complete _ _) = refl
invalidates-avoids p (unmark_step _ _) = refl
invalidates-avoids p (toggle_routine_step _ _ _ _) = refl
invalidates-avoids p (create_equity_task _) = refl
invalidates-avoids p (update_equity_task _ _) = refl
invalidates-avoids p (delete_equity_task _) = refl
invalidates-avoids p (log_task_time _ _) = refl
invalidates-avoids p (import_recipe _) = refl
invalidates-avoids p (start_import_job _) = refl
invalidates-avoids p (create_collection _) = refl
invalidates-avoids p (update_collection _ _) = refl
invalidates-avoids p (delete_collection _) = refl
invalidates-avoids p (assign_recipe_to_collection _ _ _) = refl
invalidates-avoids p (remove_recipe_from_collection _ _) = refl
invalidates-avoids p (upsert_meal_plan_entry _) = refl
invalidates-avoids p (delete_meal_plan_entry _) = refl
invalidates-avoids p (mark_chore_complete _ _) = refl
invalidates-avoids p (undo_chore_complete _ _) = refl
invalidates-avoids p (create_chore _) = refl
invalidates-avoids p (update_chore _ _) = refl
invalidates-avoids p (archive_chore _) = refl
invalidates-avoids p (set_chore_pets _ _) = refl
invalidates-avoids p (start_chore_timer _) = refl
invalidates-avoids p (stop_chore_timer _) = refl
invalidates-avoids p (record_manual_time_entry _ _) = refl
invalidates-avoids p (update_time_entry _ _ _ _) = refl
invalidates-avoids p (delete_time_entry _) = refl
invalidates-avoids p (tip _ _ _) = refl
invalidates-avoids p (cash_out _ _ _ _) = refl
invalidates-avoids p (upsert_allowance _ _) = refl
invalidates-avoids p (create_ad_hoc_task _) = refl
invalidates-avoids p (approve_ad_hoc_task _) = refl
invalidates-avoids p (decline_ad_hoc_task _ _) = refl
invalidates-avoids p (complete_ad_hoc_task _) = refl
invalidates-avoids p (create_point_category _) = refl
invalidates-avoids p (update_point_category _ _) = refl
invalidates-avoids p (archive_point_category _) = refl
invalidates-avoids p (create_behavior _) = refl
invalidates-avoids p (update_behavior _ _) = refl
invalidates-avoids p (archive_behavior _) = refl
invalidates-avoids p (grant_points _ _) = refl
invalidates-avoids p (adjust_points _ _ _) = refl
invalidates-avoids p (create_reward _) = refl
invalidates-avoids p (update_reward _ _) = refl
invalidates-avoids p (archive_reward _) = refl
invalidates-avoids p (redeem_reward _) = refl
invalidates-avoids p (approve_redemption _) = refl
invalidates-avoids p (decline_redemption _ _) = refl
invalidates-avoids p (fulfill_redemption _) = refl
invalidates-avoids p (set_savings_goal _ _) = refl
invalidates-avoids p (cost_adjust_reward _ _) = refl
invalidates-avoids p (delete_reward_adjustment _) = refl
