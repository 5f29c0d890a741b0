-- ===== src/QuietHours/Tests.antt =====
-- A night that wraps midnight, and the theorems at one in the morning.
use tidyboard.Prelude.{
  ◌≡◌, refl, ◌↔◌, ◌+◌, ◌-◌, ◌*◌, ◌%◌, ◌<◌, true, false, none, some, String, arith,
}
use tidyboard.QuietHours.{to_minutes, is_within_quiet_hours}
use tidyboard.QuietHours.Window.{is_within_quiet_hours_iff}

abbrev same : String → String
same s = s

quiet_tests :
    (to_minutes "22:00" ≡ some 1320)
    × (to_minutes "6:30" ≡ some 390)
    × (to_minutes "24:00" ≡ none)
    × (to_minutes "6:3" ≡ none)
    × (is_within_quiet_hours same "22:00" "06:00" 1 15 ≡ true)
    × (is_within_quiet_hours same "22:00" "06:00" 6 0 ≡ false)
    × (is_within_quiet_hours same "22:00" "22:00" 22 0 ≡ false)
quiet_tests = (refl, refl, refl, refl, refl, refl, refl)

is_within_quiet_hours_iff_example :
    (is_within_quiet_hours same "22:00" "06:00" 1 15 ≡ true)
    ↔ ((1 * 60 + 15 + 1440 - 1320) % 1440 < (360 + 1440 - 1320) % 1440)
is_within_quiet_hours_iff_example =
    is_within_quiet_hours_iff same "22:00" "06:00" 1320 360 1 15 refl refl (omega arith)
      (omega arith) (omega arith)
