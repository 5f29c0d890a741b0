-- ===== src/Api/Hooks/Chores.antt =====
-- web/src/lib/api/hooks.ts: chores, their timers, wallets, allowances and one-off tasks.
use tidyboard.Prelude.{List, [], ◌∷◌, ◌++◌, Option, String, ◌+++◌, if◌then◌else◌, or_else}
use tidyboard.Prelude.Int.{ℤ}
use tidyboard.Api.Request.{
  Json, number as num, text as str, obj, texts, if_defined, if_truthy, api_post, api_put, api_patch,
  api_delete, Platform, set_if, suffix,
}
use tidyboard.Api.Keys.{text, optional}
use tidyboard.Api.Query.{Query, Mutation, read, read_if, write, given, shown, json_text}

abbrev pub use_chores : Option String → Query
use_chores member_id =
    read (text "chores" ∷ optional member_id ∷ [])
      ("/v1/chores" +++ (if given member_id then "?member_id=" +++ shown member_id else ""))

abbrev pub use_chore_completions : Platform → String → String → Option String → Query
use_chore_completions p from to member_id =
    read (text "chore-completions" ∷ text from ∷ text to ∷ optional member_id ∷ []) (
      "/v1/chores/completions?"
      +++ p.search_params (("from", from) ∷ ("to", to) ∷ set_if "member_id" member_id))

abbrev completion_filters : List (List String)
completion_filters = ("chore-completions" ∷ []) ∷ ("wallet" ∷ []) ∷ []

abbrev pub use_mark_chore_complete : String → Option String → Mutation
use_mark_chore_complete chore_id date =
    write
      (api_post
        ("/v1/chores/"
          +++ chore_id
          +++ "/complete"
          +++ (if given date then "?date=" +++ shown date else ""))
        (obj []))
      completion_filters

abbrev pub use_undo_chore_complete : String → String → Mutation
use_undo_chore_complete chore_id date =
    write (api_delete ("/v1/chores/" +++ chore_id +++ "/complete/" +++ date)) completion_filters

abbrev pub use_create_chore : Json → Mutation
use_create_chore req = write (api_post "/v1/chores" req) (("chores" ∷ []) ∷ [])

abbrev pub use_update_chore : String → Json → Mutation
use_update_chore id changes =
    write (api_patch ("/v1/chores/" +++ id) changes) (("chores" ∷ []) ∷ [])

abbrev pub use_archive_chore : String → Mutation
use_archive_chore id = write (api_delete ("/v1/chores/" +++ id)) (("chores" ∷ []) ∷ [])

abbrev pub use_set_chore_pets : String → List String → Mutation
use_set_chore_pets chore_id pet_member_ids =
    write
      (api_post ("/v1/chores/" +++ chore_id +++ "/pets")
        (obj (("pet_member_ids", texts pet_member_ids) ∷ [])))
      (("chores" ∷ []) ∷ [])

abbrev time_filters : List (List String)
time_filters = ("chore-time-entries" ∷ []) ∷ ("member-time-summary" ∷ []) ∷ []

abbrev pub use_start_chore_timer : String → Mutation
use_start_chore_timer chore_id =
    write (api_post ("/v1/chores/" +++ chore_id +++ "/timer/start") (obj [])) time_filters

abbrev pub use_stop_chore_timer : String → Mutation
use_stop_chore_timer chore_id =
    write (api_post ("/v1/chores/" +++ chore_id +++ "/timer/stop") (obj [])) time_filters

pub record ManualEntry : Type 0 where
  pub member_id : Option String
  pub started_at : String
  pub ended_at : String
  pub note : Option String

abbrev pub use_record_manual_time_entry : String → ManualEntry → Mutation
use_record_manual_time_entry chore_id e =
    write
      (api_post ("/v1/chores/" +++ chore_id +++ "/time-entries") (
        obj (
          if_truthy "member_id" e.member_id
          ++ (("started_at", str e.started_at)
              ∷ ("ended_at", str e.ended_at)
              ∷ ("note", str (or_else e.note ""))
              ∷ []))))
      time_filters

pub record TimeEntryOptions : Type 0 where
  pub chore_id : Option String
  pub member_id : Option String
  pub from : Option String
  pub to : Option String

-- Called without options, each of them is undefined.
abbrev pub use_chore_time_entries : Platform → TimeEntryOptions → Query
use_chore_time_entries p o =
    let qs =
      suffix p (set_if "member_id" o.member_id ++ (set_if "from" o.from ++ set_if "to" o.to)) in
    read
      (text "chore-time-entries"
        ∷ optional o.chore_id
        ∷ optional o.member_id
        ∷ optional o.from
        ∷ optional o.to
        ∷ [])
      (if given o.chore_id
        then "/v1/chores/" +++ shown o.chore_id +++ "/time-entries" +++ qs
        else "/v1/time-entries" +++ qs)

abbrev pub use_member_time_summary :
    Platform → Option String → Option String → Option String → Query
use_member_time_summary p member_id from to =
    read_if (given member_id)
      (text "member-time-summary" ∷ optional member_id ∷ optional from ∷ optional to ∷ [])
      ("/v1/members/"
        +++ shown member_id
        +++ "/time-summary"
        +++ suffix p (set_if "from" from ++ set_if "to" to))

abbrev pub use_update_time_entry : String → Option String → Option String → Option String → Mutation
use_update_time_entry id started_at ended_at note =
    write
      (api_patch ("/v1/time-entries/" +++ id) (
        obj (
          if_defined "started_at" (json_text started_at)
          ++ (if_defined "ended_at" (json_text ended_at) ++ if_defined "note" (json_text note)))))
      time_filters

abbrev pub use_delete_time_entry : String → Mutation
use_delete_time_entry id = write (api_delete ("/v1/time-entries/" +++ id)) time_filters

abbrev pub use_wallet : Option String → Query
use_wallet member_id =
    read_if (given member_id) (text "wallet" ∷ optional member_id ∷ [])
      ("/v1/wallet/" +++ shown member_id)

abbrev pub use_tip : String → ℤ → String → Mutation
use_tip member_id amount_cents reason =
    write
      (api_post ("/v1/wallet/" +++ member_id +++ "/tip")
        (obj (("amount_cents", num amount_cents) ∷ ("reason", str reason) ∷ [])))
      (("wallet" ∷ []) ∷ [])

abbrev pub use_cash_out : String → ℤ → Option String → Option String → Mutation
use_cash_out member_id amount_cents method note =
    write
      (api_post ("/v1/wallet/" +++ member_id +++ "/cash-out") (
        obj (
          ("amount_cents", num amount_cents)
          ∷ ("method", str (or_else method ""))
          ∷ ("note", str (or_else note ""))
          ∷ [])))
      (("wallet" ∷ []) ∷ [])

abbrev pub use_allowance : Query
use_allowance = read (text "allowance" ∷ []) "/v1/allowance"

abbrev pub use_upsert_allowance : String → ℤ → Mutation
use_upsert_allowance member_id amount_cents =
    write (api_put ("/v1/allowance/" +++ member_id) (obj (("amount_cents", num amount_cents) ∷ [])))
      (("allowance" ∷ []) ∷ ("chores" ∷ []) ∷ [])

abbrev pub use_ad_hoc_tasks : Platform → Option String → Option String → Query
use_ad_hoc_tasks p member_id status =
    read (text "ad-hoc-tasks" ∷ optional member_id ∷ optional status ∷ [])
      ("/v1/ad-hoc-tasks" +++ suffix p (set_if "member_id" member_id ++ set_if "status" status))

abbrev pub use_create_ad_hoc_task : Json → Mutation
use_create_ad_hoc_task req = write (api_post "/v1/ad-hoc-tasks" req) (("ad-hoc-tasks" ∷ []) ∷ [])

abbrev pub use_approve_ad_hoc_task : String → Mutation
use_approve_ad_hoc_task id =
    write (api_post ("/v1/ad-hoc-tasks/" +++ id +++ "/approve") (obj []))
      (("ad-hoc-tasks" ∷ []) ∷ ("wallet" ∷ []) ∷ [])

abbrev pub use_decline_ad_hoc_task : String → String → Mutation
use_decline_ad_hoc_task id reason =
    write (api_post ("/v1/ad-hoc-tasks/" +++ id +++ "/decline") (obj (("reason", str reason) ∷ [])))
      (("ad-hoc-tasks" ∷ []) ∷ [])

abbrev pub use_complete_ad_hoc_task : String → Mutation
use_complete_ad_hoc_task id =
    write (api_post ("/v1/ad-hoc-tasks/" +++ id +++ "/complete") (obj []))
      (("ad-hoc-tasks" ∷ []) ∷ [])
