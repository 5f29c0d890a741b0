-- ===== src/Roster.antt =====
-- web/src/lib/family-roster.ts: the part of a household member that the widgets of the shared display get. A
-- name or color that is no text, which the functions test for, does not occur here.
mod Colors
mod Tests
use Prim.Native.Char.{Char, code}
use Prim.Native.String.{[] as nil, ◌∷◌ as chars}
use tidyboard.Prelude.{
  ℕ, zero, suc, Bool, true, false, not, ◌&&◌, ◌||◌, List, [], ◌∷◌, Option, none, some, String,
  truthy, ◌+++◌, if◌then◌else◌, leb, ◌==◌,
}
use tidyboard.Prelude.Words.{Casing, trim, words, char_at_0}
use tidyboard.Api.Query.{is_hex}

pub data Role : Type 0 where
  adult child pet : Role

pub data AgeGroup : Type 0 where
  adult child pet toddler tween teen : AgeGroup

pub record Member : Type 0 where
  pub id : String
  pub name : String
  pub full : String
  pub role : Role
  pub age_group : Option AgeGroup
  pub color : String
  pub initial : String
  pub stars : ℕ
  pub streak : ℕ

pub record WidgetMember : Type 0 where
  pub id : String
  pub name : String
  pub role : Role
  pub color : String
  pub initials : String
  pub age_group : Option AgeGroup

-- `DEFAULT_MEMBER_COLOR`
abbrev pub default_member_color : String
default_member_color = "#94a3b8"

-- Exactly n characters of a class.
abbrev pub run : (Char → Bool) → ℕ → String → Bool
run p zero nil = true
run p zero (chars c s) = false
run p (suc n) nil = false
run p (suc n) (chars c s) = p c && run p n s

-- `/^#[0-9a-f]{n}$/i`
abbrev pub hex_color : (Char → Bool) → ℕ → String → Bool
hex_color p n nil = false
hex_color p n (chars c s) = code c == 35 && run p n s

-- `${text[i]}`
abbrev pub char_at : ℕ → String → String
char_at n nil = "undefined"
char_at zero (chars c s) = chars c nil
char_at (suc n) (chars c s) = char_at n s

abbrev pub expanded : String → String
expanded trimmed =
    let r = char_at 1 trimmed in
    let g = char_at 2 trimmed in
    let b = char_at 3 trimmed in "#" +++ r +++ r +++ g +++ g +++ b +++ b

abbrev pub normalize_member_color : Casing → String → String
normalize_member_color c color =
    let trimmed = c.lower (trim color) in
    if not (truthy trimmed)
    then default_member_color
    else if hex_color is_hex 6 trimmed
    then trimmed
    else if hex_color is_hex 3 trimmed
    then expanded trimmed
    else default_member_color

abbrev pub last_of : String → List String → String
last_of w [] = w
last_of w (v ∷ vs) = last_of v vs

abbrev pub get_member_initials : Casing → String → String
get_member_initials c name = of (words (trim name))
  where
    of : List String → String
    of [] = "?"
    of (w ∷ []) = c.upper (char_at_0 w)
    of (w ∷ v ∷ vs) = c.upper (char_at_0 w +++ char_at_0 (last_of v vs))

abbrev pub to_widget_member : Casing → Member → WidgetMember
to_widget_member c m = record {
  id = m.id;
  name = m.name;
  role = m.role;
  color = normalize_member_color c m.color;
  initials =
      get_member_initials c (if truthy m.full && truthy (trim m.full) then m.full else m.name);
  age_group = m.age_group;
}
