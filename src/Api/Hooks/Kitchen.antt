-- ===== src/Api/Hooks/Kitchen.antt =====
-- web/src/lib/api/hooks.ts: recipes, their collections and imports, and the meal plan.
use tidyboard.Prelude.{
  ℕ, zero, suc, ◌*◌, ◌^◌, min, List, [], ◌∷◌, ◌++◌, Option, none, some, String, truthy, ◌+++◌,
  or_else,
}
use tidyboard.Prelude.Int.{ℤ}
use tidyboard.Api.Request.{
  Json, number as num, text as str, obj, if_defined, if_truthy, api_get, api_post, api_patch,
  api_delete, Platform,
}
use tidyboard.Api.Keys.{text, optional, qk}
use tidyboard.Api.Query.{Query, Mutation, read, read_if, write, given, shown}

abbrev pub use_recipes : Query
use_recipes = read qk.recipes "/v1/recipes"

abbrev pub use_live_recipes : Query
use_live_recipes = read (text "live-only" ∷ qk.recipes) "/v1/recipes"

abbrev pub use_recipe : String → Query
use_recipe id = read_if (truthy id) (qk.recipe id) ("/v1/recipes/" +++ id)

abbrev pub use_import_recipe : String → Mutation
use_import_recipe url =
    write (api_post "/v1/recipes/import" (obj (("url", str url) ∷ []))) (("recipes" ∷ []) ∷ [])

pub data JobStatus : Type 0 where
  running succeeded failed : JobStatus

abbrev pub use_start_import_job : String → Mutation
use_start_import_job url =
    write (api_post "/v1/recipes/import-jobs" (obj (("url", str url) ∷ []))) []

-- `refetchInterval`: none is `false`, which stops the polling.
abbrev poll_after : ℕ → Option ℕ
poll_after zero = some 2000
poll_after (suc failures) = some (min (2000 * (2 ^ failures)) 30000)

abbrev pub import_interval : Option JobStatus → ℕ → Option ℕ
import_interval none failures = poll_after failures
import_interval (some running) failures = poll_after failures
import_interval (some succeeded) failures = none
import_interval (some failed) failures = none

-- The query of a job whose last payload has that status, after that many consecutive failed fetches.
abbrev pub use_import_job : Option String → Option JobStatus → ℕ → Query
use_import_job id data_status failures = record {
  key = text "recipe-import-job" ∷ optional id ∷ [];
  request = some (api_get ("/v1/recipes/import-jobs/" +++ shown id));
  enabled = given id;
  refetch_interval = import_interval data_status failures;
}

-- What its `queryFn` invalidates when a payload arrives.
abbrev pub import_job_fetched : JobStatus → List (List String)
import_job_fetched succeeded = ("recipes" ∷ []) ∷ []
import_job_fetched running = []
import_job_fetched failed = []

abbrev pub use_recipe_collections : Query
use_recipe_collections = read qk.collections "/v1/recipe-collections"

abbrev pub use_collection_recipes : String → Query
use_collection_recipes collection_id =
    read_if (truthy collection_id) (qk.collection_recipes collection_id)
      ("/v1/recipe-collections/" +++ collection_id +++ "/recipes")

abbrev pub use_create_collection : Json → Mutation
use_create_collection req =
    write (api_post "/v1/recipe-collections" req) (("collections" ∷ []) ∷ [])

abbrev pub use_update_collection : String → Json → Mutation
use_update_collection id req =
    write (api_patch ("/v1/recipe-collections/" +++ id) req) (("collections" ∷ []) ∷ [])

abbrev pub use_delete_collection : String → Mutation
use_delete_collection id =
    write (api_delete ("/v1/recipe-collections/" +++ id)) (("collections" ∷ []) ∷ [])

abbrev collection_filters : String → List (List String)
collection_filters id = ("collections" ∷ id ∷ "recipes" ∷ []) ∷ ("collections" ∷ []) ∷ []

abbrev pub use_assign_recipe_to_collection : String → String → Option ℤ → Mutation
use_assign_recipe_to_collection collection_id recipe_id sort_order =
    write
      (api_post ("/v1/recipe-collections/" +++ collection_id +++ "/recipes") (
        obj
          (("recipe_id", str recipe_id) ∷ ("sort_order", num (or_else sort_order (ℤ.pos 0))) ∷ [])))
      (collection_filters collection_id)

abbrev pub use_remove_recipe_from_collection : String → String → Mutation
use_remove_recipe_from_collection collection_id recipe_id =
    write (api_delete ("/v1/recipe-collections/" +++ collection_id +++ "/recipes/" +++ recipe_id))
      (collection_filters collection_id)

abbrev meal_plan_path : Platform → String → String → String
meal_plan_path p from to =
    "/v1/meal-plan?from=" +++ p.encode_uri_component from +++ "&to=" +++ p.encode_uri_component to

-- The week's query, from its Monday and its Sunday, which the hook computes with the browser's dates.
abbrev pub use_meal_plan : Platform → String → String → Query
use_meal_plan p from to = read (qk.meal_plan (some from)) (meal_plan_path p from to)

abbrev pub use_live_meal_plan : Platform → String → String → Query
use_live_meal_plan p from to =
    read (text "live-only" ∷ qk.meal_plan (some from)) (meal_plan_path p from to)

-- A cell of the plan; a tuning field is a number or undefined.
pub record MealPlanEntryInput : Type 0 where
  pub date : String
  pub slot : String
  pub recipe_id : Option String
  pub serving_multiplier : Option Json
  pub batch_quantity : Option Json
  pub planned_leftovers : Option Json

abbrev pub use_upsert_meal_plan_entry : MealPlanEntryInput → Mutation
use_upsert_meal_plan_entry e =
    write
      (api_post "/v1/meal-plan" (
        obj (
          ("date", str e.date)
          ∷ ("slot", str e.slot)
          ∷ (if_truthy "recipe_id" e.recipe_id
              ++ (if_defined "serving_multiplier" e.serving_multiplier
                  ++ (if_defined "batch_quantity" e.batch_quantity
                      ++ if_defined "planned_leftovers" e.planned_leftovers))))))
      (("mealPlan" ∷ []) ∷ [])

abbrev pub use_delete_meal_plan_entry : String → Mutation
use_delete_meal_plan_entry id =
    write (api_delete ("/v1/meal-plan/" +++ id)) (("mealPlan" ∷ []) ∷ [])
