-- ===== src/DayView.antt =====
-- web/src/components/screens/calendar.tsx, `CalDay`: the events of a day as blocks in columns, one for each
-- member, once the members and the events have loaded. What `Number` makes of a text is a parameter; it gives whole numbers here, or NaN.
mod Shown
mod Tests
use Prim.Native.String.{[] as nil, ◌∷◌ as chars}
use Prim.Native.Char.{Char, code}
use tidyboard.Prelude.{
  ℕ, ◌+◌, ◌-◌, ◌*◌, Bool, true, false, List, [], ◌∷◌, Option, none, some, String, str_eq,
  if◌then◌else◌, or_else, any, keep, ◌==◌,
}
use tidyboard.Prelude.Int.{ℤ, pos, negsuc, sub_ℕ, ◌-ℤ◌}

-- `shiftDay`, on a local date as a number of days.
abbrev pub shift_day : ℤ → ℕ → ℕ
shift_day (pos n) date = date + n
shift_day (negsuc n) date = date - (n + 1)

pub record DayEvent : Type 0 where
  pub title : String
  pub start : Option String
  pub end : Option String
  pub members : Option (List String)
  pub assigned_members : Option (List String)

infixl 40 ◌>>=◌
abbrev ◌>>=◌ {ℓ κ} : {A : Type ℓ} {B : Type κ} → Option A → (A → Option B) → Option B
none >>= f = none
some x >>= f = f x

abbrev add_char : Char → List String → List String
add_char c [] = chars c nil ∷ []
add_char c (w ∷ ws) = chars c w ∷ ws

-- `split(":")`
abbrev pub split_colon : String → List String
split_colon nil = nil ∷ []
split_colon (chars c s) =
    let rest = split_colon s in if code c == 58 then nil ∷ rest else add_char c rest

-- `h + m / 60` of the first two parts, in minutes; none is NaN.
abbrev pub minutes : (String → Option ℕ) → List String → Option ℕ
minutes number (h ∷ m ∷ rest) = do hours ← number h; mins ← number m; some (hours * 60 + mins)
minutes number _ = none

-- The place of a block is in minutes from 7 o'clock on, where the screen has its share of the 14 hours to 21
-- o'clock in percent; a place that is NaN is none.
pub record Block : Type 0 where
  pub title : String
  pub top : Option ℤ
  pub height : Option ℤ

-- `toY`
abbrev pub to_y : Option ℕ → Option ℤ
to_y none = none
to_y (some m) = some (sub_ℕ m (7 * 60))

abbrev pub less : Option ℤ → Option ℤ → Option ℤ
less (some b) (some a) = some (b -ℤ a)
less _ _ = none

-- The block of an event; none where the split of an undefined text throws.
abbrev pub block : (String → Option ℕ) → DayEvent → Option Block
block number e = do
  s ← e.start
  en ← e.end
  let top = to_y (minutes number (split_colon s))
  some (record {
    title = e.title;
    top = top;
    height = less (to_y (minutes number (split_colon en))) top;
  })

abbrev pub is_for : String → DayEvent → Bool
is_for member_id e = any (str_eq member_id) (or_else e.assigned_members (or_else e.members []))

-- A `map` whose function may throw.
abbrev pub map_all {ℓ κ} : {A : Type ℓ} {B : Type κ} → (A → Option B) → List A → Option (List B)
map_all f [] = some []
map_all f (x ∷ xs) = do y ← f x; ys ← map_all f xs; some (y ∷ ys)

pub record DayColumn : Type 0 where
  pub member_id : String
  pub blocks : List Block

abbrev pub column : (String → Option ℕ) → List DayEvent → String → Option DayColumn
column number events member_id = do
  blocks ← map_all (block number) (keep (is_for member_id) events)
  some (record { member_id = member_id; blocks = blocks })

-- The columns of the members, by their ids; none where the screen throws.
abbrev pub day_columns : (String → Option ℕ) → List String → List DayEvent → Option (List DayColumn)
day_columns number members events = map_all (column number events) members
