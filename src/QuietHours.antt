-- ===== src/QuietHours.antt =====
-- web/src/components/kiosk/SleepSchedule.tsx: the quiet hours in which a kiosk dims itself. The browser's
-- `trim` is an argument, and so are the hours and minutes that its clock shows.
pub mod Window
mod Tests
use Prim.Native.Char.{Char, code}
use Prim.Native.String.{[] as nil, ◌∷◌ as chars}
use tidyboard.Prelude.{
  ℕ, ◌+◌, ◌-◌, ◌*◌, Bool, true, false, ◌&&◌, ◌||◌, Option, none, some, String, if◌then◌else◌, ltb,
  leb, ◌==◌,
}

-- `\d`
abbrev pub digit : Char → Option ℕ
digit c = if leb 48 (code c) && leb (code c) 57 then some (code c - 48) else none

abbrev pub two_digits : Option ℕ → Option ℕ → Option ℕ
two_digits (some a) (some b) = some (a * 10 + b)
two_digits _ _ = none

-- Past the pattern: the hours and minutes in range, as minutes of the day.
abbrev pub in_range : Option ℕ → Option ℕ → Option ℕ
in_range (some h) (some mm) = if ltb 23 h || ltb 59 mm then none else some (h * 60 + mm)
in_range _ _ = none

abbrev if_colon : Char → Option ℕ → Option ℕ
if_colon c minutes = if code c == 58 then minutes else none

-- `toMinutes`, of a trimmed text: one digit or two, a colon and two digits.
abbrev pub to_minutes : String → Option ℕ
to_minutes (chars a (chars b (chars c (chars d nil)))) =
    if_colon b (in_range (digit a) (two_digits (digit c) (digit d)))
to_minutes (chars a (chars b (chars c (chars d (chars e nil))))) =
    if_colon c (in_range (two_digits (digit a) (digit b)) (two_digits (digit d) (digit e)))
to_minutes _ = none

abbrev pub within : Option ℕ → Option ℕ → ℕ → Bool
within (some s) (some e) cur =
    if s == e then false else if ltb s e then leb s cur && ltb cur e else leb s cur || ltb cur e
within _ _ cur = false

-- `isWithinQuietHours`, at the hours and minutes of `now`.
abbrev pub is_within_quiet_hours : (String → String) → String → String → ℕ → ℕ → Bool
is_within_quiet_hours trim start end hours minutes =
    within (to_minutes (trim start)) (to_minutes (trim end)) (hours * 60 + minutes)
