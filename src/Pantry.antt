-- ===== src/Pantry.antt =====
-- web/src/components/shopping/PantryCues.tsx: the hints about staples that run low or expire. What the
-- browser does with amounts, dates, numbers in texts and the order of names is a parameter.
mod Order
mod Tests
use tidyboard.Prelude.{
  ℕ, suc, ◌+◌, Bool, true, false, List, [], ◌∷◌, ◌++◌, Option, none, some, String, ◌+++◌,
  if◌then◌else◌, or_else, truthy, leb, ltb, ◌==◌,
}
use tidyboard.Prelude.Int.{ℤ, pos, negsuc, sub_ℕ}
use tidyboard.Prelude.Words.{Casing, char_at_0, slice_1}
use tidyboard.Sort.{sort}

pub record Shelf : Type 1 where
  pub Amount : Type 0
  -- `amount <= lowThreshold`
  pub at_most : Amount → Amount → Bool
  -- the day number that `Date.UTC` gives for a text of the form `dddd-dd-dd`, none for other texts
  pub day : String → Option ℕ
  pub number_text : ℕ → String
  -- `a.localeCompare(b) <= 0`
  pub before : String → String → Bool
  pub casing : Casing

-- The kind of a cue, with its `daysUntilExpiry`: the days until it expires, or the days since it did.
pub data CueKind : Type 0 where
  low : CueKind
  expiring : ℕ → CueKind
  expired : ℕ → CueKind

pub record PantryCueComputed : Type 0 where
  pub id : String
  pub name : String
  pub kind : CueKind
  pub message : String

-- The comparator on the ranks and the days, given what the names say.
abbrev pub kind_le : Bool → CueKind → CueKind → Bool
kind_le names (expired m) (expired n) = leb n m
kind_le names (expired m) (expiring n) = true
kind_le names (expired m) low = true
kind_le names (expiring m) (expired n) = false
kind_le names (expiring m) (expiring n) = leb m n
kind_le names (expiring m) low = true
kind_le names low (expired n) = false
kind_le names low (expiring n) = false
kind_le names low low = names

module _ (s : Shelf) where
  pub record PantryCueRecord : Type 0 where
    pub id : String
    pub name : String
    pub amount : Option s.Amount
    pub expires_on : Option String

  -- The options, with their defaults filled in, and the day of `now`.
  pub record Options : Type 0 where
    pub today : ℕ
    pub low_threshold : s.Amount
    pub window : ℕ

  abbrev pub pluralize : ℕ → String → String
  pluralize n noun = s.number_text n +++ " " +++ noun +++ (if n == 1 then "" else "s")

  abbrev pub capitalize : String → String
  capitalize name = if truthy name then s.casing.upper (char_at_0 name) +++ slice_1 name else name

  abbrev pub low_cues : s.Amount → Option s.Amount → PantryCueRecord → List PantryCueComputed
  low_cues threshold none r = []
  low_cues threshold (some amount) r =
      if s.at_most amount threshold
      then record { id = r.id; name = r.name; kind = low; message = "Low on " +++ r.name } ∷ []
      else []

  abbrev pub expiring_message : ℕ → String → String
  expiring_message days name =
      if days == 0
      then capitalize name +++ " expires today"
      else capitalize name +++ " expires in " +++ pluralize days "day"

  -- The branches on the days from today.
  abbrev pub day_cues : ℕ → ℤ → PantryCueRecord → List PantryCueComputed
  day_cues window (negsuc n) r =
      record {
        id = r.id;
        name = r.name;
        kind = expired (suc n);
        message = capitalize r.name +++ " expired " +++ pluralize (suc n) "day" +++ " ago";
      }
      ∷ []
  day_cues window (pos days) r =
      if leb days window
      then record {
        id = r.id;
        name = r.name;
        kind = expiring days;
        message = expiring_message days r.name;
      }
        ∷ []
      else []

  -- `daysFromNow`
  abbrev pub days_from_now : String → ℕ → Option ℤ
  days_from_now iso_date today = go (s.day iso_date)
    where
      go : Option ℕ → Option ℤ
      go none = none
      go (some target) = some (sub_ℕ target today)

  abbrev pub expiry_cues : Options → PantryCueRecord → List PantryCueComputed
  expiry_cues o r =
      let text = or_else r.expires_on "" in
      if truthy text then go (days_from_now text o.today) else []
    where
      go : Option ℤ → List PantryCueComputed
      go none = []
      go (some days) = day_cues o.window days r

  abbrev pub cues_of : Options → PantryCueRecord → List PantryCueComputed
  cues_of o r = low_cues o.low_threshold r.amount r ++ expiry_cues o r

  abbrev pub all_cues : Options → List PantryCueRecord → List PantryCueComputed
  all_cues o [] = []
  all_cues o (r ∷ rs) = cues_of o r ++ all_cues o rs

  -- The comparator's result is at most 0.
  abbrev pub cue_le : PantryCueComputed → PantryCueComputed → Bool
  cue_le a b = kind_le (s.before a.name b.name) a.kind b.kind

  abbrev pub compute_pantry_cues : Options → List PantryCueRecord → List PantryCueComputed
  compute_pantry_cues o rs = sort cue_le (all_cues o rs)
