-- ===== src/Kiosk/Tests.antt =====
-- A child enters a PIN, leaves the pad while the login is under way, and is let in all the same.
use tidyboard.Prelude.{◌≡◌, refl, List, [], ◌∷◌, none, some, true}
use tidyboard.Kiosk.{
  Member, LockState, KioskEvent, lock_click, back, backspace, submit, members_loaded, select, digit,
  answered, return_to, opened, kiosk_run,
}
use tidyboard.Kiosk.Pages.{Safe, kiosk_run-Safe}

abbrev kid : Member
kid = record { id = "m2"; role = "child" }

abbrev cat : Member
cat = record { id = "m3"; role = "pet" }

abbrev taps : List KioskEvent
taps =
    lock_click
    ∷ select cat
    ∷ select kid
    ∷ digit "1"
    ∷ digit "2"
    ∷ digit "3"
    ∷ submit
    ∷ digit "9"
    ∷ backspace
    ∷ digit "4"
    ∷ submit
    ∷ digit "5"
    ∷ back
    ∷ answered 2 true
    ∷ []

kiosk_tests :
    ((kiosk_run none (some "/chores") opened taps).logins ≡ ("m2", "1" ∷ "2" ∷ "3" ∷ "4" ∷ []) ∷ [])
    × ((kiosk_run none (some "/chores") opened taps).pushed ≡ "/chores" ∷ [])
    × ((kiosk_run none (some "/chores") opened taps).state ≡ LockState.members)
    × ((kiosk_run (some "m2") none opened (members_loaded (cat ∷ kid ∷ []) ∷ [])).selected
        ≡ some kid)
    × ((kiosk_run (some "m3") none opened (members_loaded (cat ∷ kid ∷ []) ∷ [])).selected ≡ none)
    × (return_to (some "//example.org") ≡ "/")
    × (return_to (some "https://example.org") ≡ "/")
kiosk_tests = (refl, refl, refl, refl, refl, refl, refl)

kiosk_run-Safe_example : Safe (kiosk_run none (some "/chores") opened taps)
kiosk_run-Safe_example = kiosk_run-Safe none (some "/chores") taps
