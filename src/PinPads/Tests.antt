-- ===== src/PinPads/Tests.antt =====
-- A wrong PIN, then a right one; and a lock that is given letters.
use tidyboard.Prelude.{◌≡◌, refl, ◌+◌, ◌*◌, ◌≤◌, true, false, List, [], ◌∷◌, length, All}
use tidyboard.PinPads.{
  PadEvent, digit, delete, shown, pad_run, LockEvent, change, submit, locked, lock_run,
}
use tidyboard.PinPads.Entry.{digit_taps, waits, pad_run-guesses}
use tidyboard.PinPads.Lock.{Pin, lock_run-pins}

abbrev taps : List PadEvent
taps =
    digit "1"
    ∷ digit "2"
    ∷ delete
    ∷ digit "3"
    ∷ digit "4"
    ∷ digit "5"
    ∷ digit "6"
    ∷ PadEvent.answered false
    ∷ digit "1"
    ∷ digit "2"
    ∷ digit "3"
    ∷ digit "4"
    ∷ PadEvent.answered true
    ∷ []

abbrev edits : List LockEvent
edits = change "12a" ∷ submit ∷ change "12a45" ∷ submit ∷ submit ∷ LockEvent.answered true ∷ []

pin_tests :
    ((pad_run shown taps).logins ≡ ("1" ∷ "2" ∷ "3" ∷ "4" ∷ []) ∷ ("1" ∷ "3" ∷ "4" ∷ "5" ∷ []) ∷ [])
    × (((pad_run shown taps).successes ≡ 1) × ((lock_run locked edits).verified ≡ "1245" ∷ []))
pin_tests = (refl, (refl, refl))

pad_run-guesses_example :
    let p = pad_run shown taps in
    All (λ ds. length ds ≡ 4) p.logins
    × ((p.successes + waits p.loading ≤ length p.logins)
        × (4 * length p.logins ≤ digit_taps taps + 4 * p.successes))
pad_run-guesses_example = pad_run-guesses taps

lock_run-pins_example :
    let k = lock_run locked edits in
    All Pin k.verified × (k.unlocks + waits k.loading ≤ length k.verified)
lock_run-pins_example = lock_run-pins edits
