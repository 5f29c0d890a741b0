-- ===== src/Api/Hooks/Family.antt =====
-- web/src/lib/api/hooks.ts: events, calendars, members, households and their invitations, the audit log,
-- notifications and bug reports.
use tidyboard.Prelude.{
  ℕ, Bool, List, [], ◌∷◌, ◌++◌, Option, none, some, String, ◌+++◌, if◌then◌else◌, or_else, ◌==◌,
}
use tidyboard.Prelude.Int.{ℤ}
use tidyboard.Api.Request.{
  Json, null, bool, number as num, text as str, obj, if_defined, if_truthy, text_or_null, api_get,
  api_post, api_put, api_patch, api_delete, Platform, set_if, suffix,
}
use tidyboard.Api.Keys.{text, optional, EventOptions, AuditFilters, qk}
use tidyboard.Api.Query.{
  Query, Mutation, read, read_if, write, given, shown, json_text, utf16_length, is_uuid,
}

abbrev events_path : Platform → Option EventOptions → String
events_path p none = "/v1/events" +++ suffix p []
events_path p (some o) =
    "/v1/events"
    +++ suffix p (set_if "start" o.start ++ (set_if "end" o.end ++ set_if "member_id" o.member_id))

abbrev pub use_events : Platform → Option EventOptions → Query
use_events p opts = read (qk.events opts) (events_path p opts)

abbrev pub use_live_events : Platform → Option EventOptions → Query
use_live_events p opts = read (text "live-only" ∷ qk.events opts) (events_path p opts)

abbrev pub use_live_event : Option String → Query
use_live_event id = record {
  key = qk.event (or_else id "");
  request = if given id then some (api_get ("/v1/events/" +++ shown id)) else none;
  enabled = given id;
  refetch_interval = none;
}

abbrev pub use_create_event : Json → Mutation
use_create_event req = write (api_post "/v1/events" req) (("events" ∷ []) ∷ [])

abbrev pub use_update_event : String → Json → Mutation
use_update_event id req = write (api_patch ("/v1/events/" +++ id) req) (("events" ∷ []) ∷ [])

abbrev pub use_set_event : Option String → Json → Mutation
use_set_event id event =
    write
      (if given id then api_put ("/v1/events/" +++ shown id) event else api_post "/v1/events" event)
      (("events" ∷ []) ∷ [])

abbrev pub use_delete_event : String → Mutation
use_delete_event id = write (api_delete ("/v1/events/" +++ id)) (("events" ∷ []) ∷ [])

abbrev pub use_calendars : Query
use_calendars = read (text "calendars" ∷ []) "/v1/calendars"

abbrev pub use_add_ical_calendar : String → String → Mutation
use_add_ical_calendar name url =
    write (api_post "/v1/calendars/ical" (obj (("name", str name) ∷ ("url", str url) ∷ [])))
      (("calendars" ∷ []) ∷ [])

abbrev pub use_sync_ical : String → String → String → Mutation
use_sync_ical calendar_id range_start range_end =
    write
      (api_post ("/v1/calendars/" +++ calendar_id +++ "/sync-ical")
        (obj (("range_start", str range_start) ∷ ("range_end", str range_end) ∷ [])))
      (("events" ∷ []) ∷ [])

abbrev pub use_members : Query
use_members = read qk.members "/v1/households/current/members"

abbrev pub use_live_members : Query
use_live_members = read (text "live-only" ∷ qk.members) "/v1/households/current/members"

-- The fields of a member that a form gives.
pub record MemberInput : Type 0 where
  pub name : String
  pub display_name : String
  pub color : String
  pub role : String
  pub age_group : String
  pub pin : Option String

abbrev pub use_create_member : String → MemberInput → Mutation
use_create_member household_id m =
    write
      (api_post ("/v1/households/" +++ household_id +++ "/members") (
        obj (
          ("name", str m.name)
          ∷ ("display_name", str m.display_name)
          ∷ ("color", str m.color)
          ∷ ("role", str m.role)
          ∷ ("age_group", str m.age_group)
          ∷ if_truthy "pin" m.pin)))
      (("members" ∷ []) ∷ [])

-- What a form changes of a member; none is undefined, and a rate may also be null.
pub record MemberPatch : Type 0 where
  pub name : Option String
  pub display_name : Option String
  pub color : Option String
  pub role : Option String
  pub age_group : Option String
  pub pin : Option String
  pub hourly_rate_cents_min : Option (Option ℤ)
  pub hourly_rate_cents_max : Option (Option ℤ)

abbrev rate : Option (Option ℤ) → Option Json
rate none = none
rate (some none) = some null
rate (some (some n)) = some (num n)

abbrev pub use_update_member : String → String → MemberPatch → Mutation
use_update_member household_id member_id m =
    write
      (api_patch ("/v1/households/" +++ household_id +++ "/members/" +++ member_id) (
        obj (
          if_defined "name" (json_text m.name)
          ++ (if_defined "display_name" (json_text m.display_name)
              ++ (if_defined "color" (json_text m.color)
                  ++ (if_defined "role" (json_text m.role)
                      ++ (if_defined "age_group" (json_text m.age_group)
                          ++ (if_defined "pin" (json_text m.pin)
                              ++ (if_defined "hourly_rate_cents_min" (rate m.hourly_rate_cents_min)
                                  ++ if_defined "hourly_rate_cents_max"
                                      (rate m.hourly_rate_cents_max))))))))))
      (("members" ∷ []) ∷ [])

abbrev pub use_delete_member : String → String → Mutation
use_delete_member household_id member_id =
    write (api_delete ("/v1/households/" +++ household_id +++ "/members/" +++ member_id))
      (("members" ∷ []) ∷ [])

abbrev pub use_my_households : Query
use_my_households = read (text "me" ∷ text "households" ∷ []) "/v1/me/households"

abbrev pub use_household : Option String → Query
use_household household_id =
    read_if (is_uuid household_id) (text "household" ∷ optional household_id ∷ [])
      ("/v1/households/" +++ shown household_id)

abbrev pub use_update_household_settings : String → Json → Mutation
use_update_household_settings household_id settings =
    write (api_patch ("/v1/households/" +++ household_id) (obj (("settings", settings) ∷ [])))
      (("household" ∷ household_id ∷ []) ∷ [])

pub record NotifyPreferences : Type 0 where
  pub events_enabled : Bool
  pub lists_enabled : Bool
  pub tasks_enabled : Bool

abbrev pub use_update_member_notify : String → Option String → NotifyPreferences → Mutation
use_update_member_notify member_id ntfy_topic preferences =
    write
      (api_patch ("/v1/members/" +++ member_id +++ "/notify") (
        obj (
          ("ntfy_topic", text_or_null ntfy_topic)
          ∷ ("events_enabled", bool preferences.events_enabled)
          ∷ ("lists_enabled", bool preferences.lists_enabled)
          ∷ ("tasks_enabled", bool preferences.tasks_enabled)
          ∷ [])))
      []

abbrev pub use_test_notification : String → Mutation
use_test_notification member_id =
    write (api_post "/v1/notify/test" (obj (("member_id", str member_id) ∷ []))) []

abbrev audit_filters : Option AuditFilters → List (String × String)
audit_filters none = []
audit_filters (some f) =
    set_if "action" f.action
    ++ (set_if "target_type" f.target_type ++ (set_if "from" f.from ++ set_if "to" f.to))

abbrev pub use_audit : Platform → ℕ → ℕ → Option AuditFilters → Query
use_audit p limit offset filters = read (qk.audit limit offset filters) (
    "/v1/audit?"
    +++ p.search_params
        (("limit", p.number_text limit) ∷ ("offset", p.number_text offset) ∷ audit_filters filters))

abbrev pub use_regenerate_invite_code : String → Mutation
use_regenerate_invite_code household_id =
    write (api_post ("/v1/households/" +++ household_id +++ "/invite/regenerate") (obj []))
      (("household" ∷ household_id ∷ []) ∷ [])

abbrev pub use_household_by_code : Platform → String → Query
use_household_by_code p code =
    read_if (utf16_length code == 8) (qk.household_by_code code)
      ("/v1/households/by-code/" +++ p.encode_uri_component code)

abbrev pub use_request_join : Platform → String → Mutation
use_request_join p code =
    write
      (api_post ("/v1/households/by-code/" +++ p.encode_uri_component code +++ "/join") (obj [])) []

abbrev pub use_join_requests : Option String → Query
use_join_requests household_id =
    read_if (given household_id) (qk.join_requests (or_else household_id ""))
      ("/v1/households/" +++ shown household_id +++ "/join-requests")

abbrev pub use_approve_join_request : String → String → Mutation
use_approve_join_request request_id household_id =
    write (api_post ("/v1/join-requests/" +++ request_id +++ "/approve") (obj []))
      (("joinRequests" ∷ household_id ∷ []) ∷ ("members" ∷ []) ∷ [])

abbrev pub use_reject_join_request : String → String → Mutation
use_reject_join_request request_id household_id =
    write (api_post ("/v1/join-requests/" +++ request_id +++ "/reject") (obj []))
      (("joinRequests" ∷ household_id ∷ []) ∷ [])

abbrev pub use_report_bug : Json → Mutation
use_report_bug req = write (api_post "/v1/bug-reports" req) []
