-- ===== src/Timers/Tests.antt =====
-- Short runs of the three timers.
use tidyboard.Prelude.{◌≡◌, refl, ◌-◌, List, [], ◌∷◌, true, false, ltb, if◌then◌else◌, arith}
use tidyboard.Auth.Session.{failure}
use tidyboard.Timers.Idle.{
  IdleEvent, activity, passes, reset as reset_idle, idle_run, quiet_run, is_idle, idle_run-is_idle,
}
use tidyboard.Timers.Countdown.{
  start, pause, reset, tick, fresh, timer_run, ticks, timer_run-ticks, next_step, previous_step,
}
use tidyboard.Timers.Report.{
  ReportEvent, click, passes as passes_ms, answered, shown, report_run, Spaced, report_run-Spaced,
}

abbrev quiet_then_touch : List IdleEvent
quiet_then_touch = passes ∷ passes ∷ passes ∷ activity ∷ passes ∷ []

abbrev reports : List ReportEvent
reports = click ∷ click ∷ answered failure ∷ passes_ms ∷ click ∷ []

timer_tests :
    ((idle_run 3 (reset_idle 3) (passes ∷ passes ∷ passes ∷ [])).idle ≡ true)
    × ((idle_run 3 (reset_idle 3) quiet_then_touch).idle ≡ false)
    × ((timer_run 5 (fresh 5) (start ∷ tick ∷ tick ∷ pause ∷ tick ∷ [])).remaining ≡ 3)
    × ((timer_run 5 (fresh 5) (start ∷ tick ∷ reset ∷ [])) ≡ fresh 5)
    × ((timer_run 2 (fresh 2) (start ∷ tick ∷ tick ∷ start ∷ [])).running ≡ false)
    × ((next_step 3 2 ≡ 2) × (next_step 3 0 ≡ 1) × (previous_step 0 ≡ 0))
    × ((report_run (shown 7) reports).posts ≡ 7 ∷ [])
    × ((report_run (shown 7) reports).opened ≡ 1)
timer_tests = (refl, refl, refl, refl, refl, (refl, refl, refl), refl, refl)

idle_run-is_idle_example :
    (idle_run 3 (reset_idle 3) quiet_then_touch).idle ≡ is_idle 3 (quiet_run 0 quiet_then_touch)
idle_run-is_idle_example = idle_run-is_idle 3 quiet_then_touch

timer_run-ticks_example :
    timer_run 60 (fresh 60) (start ∷ ticks 60)
    ≡ record { remaining = 60 - 60; running = ltb 60 60; finished = if ltb 60 60 then 0 else 1 }
timer_run-ticks_example = timer_run-ticks 60 60 (omega arith)

report_run-Spaced_example : Spaced (report_run (shown 7) reports).posts
report_run-Spaced_example = report_run-Spaced 7 reports
