-- ===== src/Api/Hooks/Equity.antt =====
-- web/src/lib/api/hooks.ts: the equity engine.
use tidyboard.Prelude.{List, [], ◌∷◌, ◌++◌, Option, String, ◌+++◌, if◌then◌else◌}
use tidyboard.Api.Request.{Json, api_post, api_patch, api_delete, Platform, set_if, suffix}
use tidyboard.Api.Keys.{text, optional, qk}
use tidyboard.Api.Query.{Query, Mutation, read, write, given, shown}

abbrev pub use_equity : Platform → Option String → Query
use_equity p period = read (qk.equity period) (
    "/v1/equity"
    +++ (if given period then "?period=" +++ p.encode_uri_component (shown period) else ""))

abbrev range_suffix : Platform → Option String → Option String → String
range_suffix p from to = suffix p (set_if "from" from ++ set_if "to" to)

abbrev pub use_equity_dashboard : Platform → Option String → Option String → Query
use_equity_dashboard p from to =
    read (qk.equity_dashboard from to) ("/v1/equity" +++ range_suffix p from to)

abbrev pub use_equity_domains : Query
use_equity_domains = read qk.equity_domains "/v1/equity/domains"

abbrev pub use_equity_tasks : Query
use_equity_tasks = read qk.equity_tasks "/v1/equity/tasks"

abbrev pub use_rebalance_suggestions : Query
use_rebalance_suggestions = read qk.equity_suggestions "/v1/equity/suggestions"

abbrev pub use_equity_contribution : Platform → Option String → Option String → Query
use_equity_contribution p from to =
    read (text "equity" ∷ text "contribution" ∷ optional from ∷ optional to ∷ [])
      ("/v1/equity/contribution" +++ range_suffix p from to)

abbrev pub use_housekeeper_estimate : Platform → Option String → Option String → Query
use_housekeeper_estimate p from to =
    read (text "equity" ∷ text "housekeeper-estimate" ∷ optional from ∷ optional to ∷ [])
      ("/v1/equity/housekeeper-estimate" +++ range_suffix p from to)

abbrev task_filters : List (List String)
task_filters = ("equity" ∷ "tasks" ∷ []) ∷ ("equity" ∷ []) ∷ []

abbrev pub use_create_equity_task : Json → Mutation
use_create_equity_task req = write (api_post "/v1/equity/tasks" req) task_filters

abbrev pub use_update_equity_task : String → Json → Mutation
use_update_equity_task id req = write (api_patch ("/v1/equity/tasks/" +++ id) req) task_filters

abbrev pub use_delete_equity_task : String → Mutation
use_delete_equity_task id = write (api_delete ("/v1/equity/tasks/" +++ id)) task_filters

abbrev pub use_log_task_time : String → Json → Mutation
use_log_task_time task_id req =
    write (api_post ("/v1/equity/tasks/" +++ task_id +++ "/log") req) (("equity" ∷ []) ∷ [])
