-- ===== src/Api/Hooks/Planning.antt =====
-- web/src/lib/api/hooks.ts: lists, shopping, routines and the race.
use tidyboard.Prelude.{
  ◌&&◌, Bool, List, [], ◌∷◌, ◌++◌, Option, none, some, String, truthy, ◌+++◌, if◌then◌else◌,
  or_else,
}
use tidyboard.Api.Request.{
  Json, bool, text as str, obj, api_post, api_patch, api_delete, Platform, set_if, suffix,
}
use tidyboard.Api.Keys.{text, RoutineOptions, qk}
use tidyboard.Api.Query.{Query, Mutation, read, read_if, write, given, shown}

abbrev pub use_lists : Query
use_lists = read qk.lists "/v1/lists"

abbrev pub use_live_lists : Query
use_live_lists = read (text "live-only" ∷ qk.lists) "/v1/lists"

abbrev pub use_list : String → Query
use_list id = read_if (truthy id) (qk.list id) ("/v1/lists/" +++ id)

abbrev list_filters : String → List (List String)
list_filters list_id = ("lists" ∷ list_id ∷ []) ∷ ("lists" ∷ []) ∷ []

abbrev pub use_toggle_list_item : String → String → Bool → Mutation
use_toggle_list_item list_id item_id completed =
    write
      (api_patch ("/v1/lists/" +++ list_id +++ "/items/" +++ item_id)
        (obj (("completed", bool completed) ∷ [])))
      (list_filters list_id)

abbrev pub use_create_list : String → Option String → Mutation
use_create_list name kind =
    write
      (api_post "/v1/lists" (obj (("name", str name) ∷ ("type", str (or_else kind "todo")) ∷ [])))
      (("lists" ∷ []) ∷ [])

abbrev pub use_add_list_item : String → String → Mutation
use_add_list_item list_id content =
    write (api_post ("/v1/lists/" +++ list_id +++ "/items") (obj (("text", str content) ∷ [])))
      (list_filters list_id)

abbrev pub use_delete_list_item : String → String → Mutation
use_delete_list_item list_id item_id =
    write (api_delete ("/v1/lists/" +++ list_id +++ "/items/" +++ item_id)) (list_filters list_id)

abbrev pub use_shopping : Query
use_shopping = read qk.shopping "/v1/shopping/current"

-- Without an id the item is answered as it stands, and nothing is sent.
abbrev pub use_toggle_shopping_item : Platform → Option String → Bool → Mutation
use_toggle_shopping_item p id done = record {
  request =
      if given id
      then some (
          api_patch ("/v1/shopping/current/items/" +++ p.encode_uri_component (shown id))
            (obj (("completed", bool done) ∷ [])))
      else none;
  invalidates = ("shopping" ∷ []) ∷ [];
}

abbrev pub use_generate_shopping_list : String → String → Mutation
use_generate_shopping_list date_from date_to =
    write
      (api_post "/v1/shopping/generate"
        (obj (("date_from", str date_from) ∷ ("date_to", str date_to) ∷ [])))
      (("shopping" ∷ []) ∷ [])

abbrev routines_path : Platform → Option RoutineOptions → String
routines_path p none = "/v1/routines" +++ suffix p []
routines_path p (some o) =
    "/v1/routines" +++ suffix p (set_if "member_id" o.member_id ++ set_if "time_slot" o.time_slot)

abbrev pub use_routines : Platform → Option RoutineOptions → Query
use_routines p params = read (qk.routines params) (routines_path p params)

abbrev pub use_live_routines : Platform → Option RoutineOptions → Query
use_live_routines p params = read (text "live-only" ∷ qk.routines params) (routines_path p params)

abbrev pub use_create_routine : Json → Mutation
use_create_routine req = write (api_post "/v1/routines" req) (("routines" ∷ []) ∷ [])

abbrev pub use_update_routine : String → Json → Mutation
use_update_routine id req = write (api_patch ("/v1/routines/" +++ id) req) (("routines" ∷ []) ∷ [])

abbrev pub use_delete_routine : String → Mutation
use_delete_routine id = write (api_delete ("/v1/routines/" +++ id)) (("routines" ∷ []) ∷ [])

abbrev pub use_add_step : String → Json → Mutation
use_add_step routine_id req =
    write (api_post ("/v1/routines/" +++ routine_id +++ "/steps") req) (("routines" ∷ []) ∷ [])

abbrev pub use_update_step : String → String → Json → Mutation
use_update_step routine_id step_id req =
    write (api_patch ("/v1/routines/" +++ routine_id +++ "/steps/" +++ step_id) req)
      (("routines" ∷ []) ∷ [])

abbrev pub use_delete_step : String → String → Mutation
use_delete_step routine_id step_id =
    write (api_delete ("/v1/routines/" +++ routine_id +++ "/steps/" +++ step_id))
      (("routines" ∷ []) ∷ [])

abbrev pub use_mark_step_complete : String → Json → Mutation
use_mark_step_complete routine_id req =
    write (api_post ("/v1/routines/" +++ routine_id +++ "/complete") req) (("routines" ∷ []) ∷ [])

abbrev pub use_unmark_step : String → String → Mutation
use_unmark_step routine_id completion_id =
    write (api_delete ("/v1/routines/" +++ routine_id +++ "/complete/" +++ completion_id))
      (("routines" ∷ []) ∷ [])

-- Unmarking sends nothing.
abbrev pub use_toggle_routine_step : String → String → String → Bool → Mutation
use_toggle_routine_step routine_id step_id member_id done = record {
  request =
      if done
      then some (
          api_post ("/v1/routines/" +++ routine_id +++ "/complete")
            (obj (("step_id", str step_id) ∷ ("member_id", str member_id) ∷ [])))
      else none;
  invalidates = ("routines" ∷ []) ∷ [];
}

abbrev pub use_streak : Platform → String → String → Query
use_streak p routine_id member_id =
    read_if (truthy routine_id && truthy member_id) (qk.routine_streak routine_id member_id)
      ("/v1/routines/" +++ routine_id +++ "/streak?member_id=" +++ p.encode_uri_component member_id)

abbrev pub use_race : Query
use_race = read qk.race "/v1/races/current"
