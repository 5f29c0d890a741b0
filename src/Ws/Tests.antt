-- ===== src/Ws/Tests.antt =====
-- Runs of the connection, and its theorems at a session that loses its socket and reconnects.
use tidyboard.Prelude.{◌≡◌, refl, inl, true, false, List, [], ◌∷◌, none, some}
use tidyboard.Api.Keys.{qk}
use tidyboard.Api.Matching.{refreshes}
use tidyboard.Api.Sample.{client, platform}
use tidyboard.Ws.Invalidation.{WsEvent, handle_invalidation, handle_invalidation-misses}
use tidyboard.Ws.Connection.{
  Event, initial, run, deps_changed, unmount, opened, socket_closed, message, timer_fired,
}
use tidyboard.Ws.Invariant.{Exclusive, run-Exclusive}
use tidyboard.Ws.Address.{build_ws_url}

abbrev planned : WsEvent
planned = record { kind = "meal_plan.updated"; list_id = none }

abbrev lost : List Event
lost =
    deps_changed true true
    ∷ opened 0
    ∷ message 0 (some (record { kind = "list.item.added"; list_id = some "l1" }))
    ∷ socket_closed 0
    ∷ timer_fired 1 true
    ∷ []

address_tests :
    (build_ws_url platform "https://api.example.org//" "t"
      ≡ some "wss://api.example.org/v1/ws?token=t")
    × (build_ws_url platform "http://localhost" "t" ≡ some "ws://localhost/v1/ws?token=t")
    × (build_ws_url platform "" "t" ≡ none)
address_tests = (refl, refl, refl)

connection_tests :
    ((run initial lost).live ≡ 2 ∷ [])
    × ((run initial lost).backoff ≡ 2000)
    × ((run initial lost).invalidated ≡ ("lists" ∷ []) ∷ ("lists" ∷ "l1" ∷ []) ∷ [])
    × (refreshes client
          (handle_invalidation (record { kind = "list.created"; list_id = none }))
          (qk.list "l2")
        ≡ true)
    × ((run (run initial lost) (unmount ∷ [])).live ≡ [])
connection_tests = (refl, refl, refl, refl, refl)

handle_invalidation-misses_example :
    refreshes client (handle_invalidation planned) (qk.meal_plan (some "2026-01-05")) ≡ false
handle_invalidation-misses_example =
    handle_invalidation-misses client planned "mealPlan" (qk.meal_plan (some "2026-01-05"))
      (inl refl) (refl, tt)

run-Exclusive_example : Exclusive (run initial lost)
run-Exclusive_example = run-Exclusive lost
