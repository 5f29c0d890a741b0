-- ===== src/QuietHours/Window.antt =====
-- The quiet hours as an interval on the clock's circle of 1440 minutes.
use Prim.Native.Char.{Char, code}
use Prim.Native.String.{[] as nil, ◌∷◌ as chars}
use tidyboard.Prelude.{
  ℕ, ◌+◌, ◌-◌, ◌*◌, ◌%◌, ◌<◌, ◌≡◌, ◌≢◌, ◌↔◌, true, not, Option, none, some, String, arith,
  Bool-cases, inl, inr, ◌==◌,
}
use tidyboard.QuietHours.{
  to_minutes, within, is_within_quiet_hours, in_range, if_colon, digit, two_digits,
}

in_range-lt : (h m : Option ℕ) (t : ℕ) → in_range h m ≡ some t → t < 1440
in_range-lt (some h) (some m) t e = ground arith
in_range-lt none m t e = ground arith
in_range-lt (some h) none t e = ground arith

if_colon-lt : (c : Char) (h m : Option ℕ) (t : ℕ) → if_colon c (in_range h m) ≡ some t → t < 1440
if_colon-lt c h m t =
    elim (Bool-cases (code c == 58)) as (λ _. if_colon c (in_range h m) ≡ some t → t < 1440) [
      | inl e ↦ rw e (in_range-lt h m t)
      | inr e ↦ rw e (λ no. ground arith)
    ]

-- A text that is a time is a minute of the day.
to_minutes-lt : (x : String) (t : ℕ) → to_minutes x ≡ some t → t < 1440
to_minutes-lt nil t e = ground arith
to_minutes-lt (chars a nil) t e = ground arith
to_minutes-lt (chars a (chars b nil)) t e = ground arith
to_minutes-lt (chars a (chars b (chars c nil))) t e = ground arith
to_minutes-lt (chars a (chars b (chars c (chars d nil)))) t e =
    if_colon-lt b (digit a) (two_digits (digit c) (digit d)) t e
to_minutes-lt (chars a (chars b (chars c (chars d (chars x nil))))) t e =
    if_colon-lt c (two_digits (digit a) (digit b)) (two_digits (digit d) (digit x)) t e
to_minutes-lt (chars a (chars b (chars c (chars d (chars x (chars y z)))))) t e = ground arith

within_iff :
    (s e cur : ℕ)
    → s < 1440
    → e < 1440
    → cur < 1440
    → s ≢ e
    → (within (some s) (some e) cur ≡ true) ↔ ((cur + 1440 - s) % 1440 < (e + 1440 - s) % 1440)
within_iff s e cur hs he hc n = ground arith

within-complement :
    (s e cur : ℕ) → s ≢ e → within (some e) (some s) cur ≡ not (within (some s) (some e) cur)
within-complement s e cur n = ground arith

-- When the two texts are different times of the day, the clock's minute lies within the quiet hours
-- exactly if it is fewer minutes after the start, going round the clock, than the end is.
pub is_within_quiet_hours_iff :
    (trim : String → String) (start end : String) (s e hours minutes : ℕ)
    → to_minutes (trim start) ≡ some s
    → to_minutes (trim end) ≡ some e
    → s ≢ e
    → hours < 24
    → minutes < 60
    → (is_within_quiet_hours trim start end hours minutes ≡ true)
      ↔ ((hours * 60 + minutes + 1440 - s) % 1440 < (e + 1440 - s) % 1440)
is_within_quiet_hours_iff trim start end s e hours minutes hs he n hh hm =
    rw (hs, he)
      (within_iff s e (hours * 60 + minutes) (to_minutes-lt (trim start) s hs)
        (to_minutes-lt (trim end) e he) (omega arith) n)

-- Two different times divide the day: at each of its minutes the kiosk is quiet by the hours from the
-- one to the other, or by the hours from the other to the one, and never by both.
pub is_within_quiet_hours-complement :
    (trim : String → String) (start end : String) (s e hours minutes : ℕ)
    → to_minutes (trim start) ≡ some s
    → to_minutes (trim end) ≡ some e
    → s ≢ e
    → is_within_quiet_hours trim end start hours minutes
      ≡ not (is_within_quiet_hours trim start end hours minutes)
is_within_quiet_hours-complement trim start end s e hours minutes hs he n =
    rw (hs, he) (within-complement s e (hours * 60 + minutes) n)
