-- ===== src/Pantry/Tests.antt =====
-- Four staples on one day: one expired, one expiring today, one that runs low and one with both.
use mathlib.Core.List.{map, Perm}
use tidyboard.Prelude.{
  ◌≡◌, refl, ℕ, true, List, [], ◌∷◌, Option, none, some, String, str_eq, if◌then◌else◌, leb,
}
use tidyboard.Sort.{Sorted, sort, insert}
use tidyboard.Pantry.{
  Shelf, low, expiring, expired, PantryCueRecord, Options, all_cues, compute_pantry_cues,
}
use tidyboard.Pantry.Order.{no_later, compute_pantry_cues-Sorted}

abbrev shelf : Shelf
shelf = record {
  Amount = ℕ;
  at_most = leb;
  day = λ t.
      if str_eq t "2026-01-05" then some 100 else if str_eq t "2026-01-02" then some 97 else none;
  number_text = λ n. if leb n 1 then "1" else "3";
  before = λ a b. true;
  casing = record { upper = λ t. if str_eq t "m" then "M" else t; lower = λ t. t };
}

abbrev staple : String → Option ℕ → Option String → PantryCueRecord shelf
staple name amount expires_on = record {
  id = name;
  name = name;
  amount = amount;
  expires_on = expires_on;
}

abbrev staples : List (PantryCueRecord shelf)
staples =
    staple "salt" (some 1) none
    ∷ staple "milk" (some 0) (some "2026-01-05")
    ∷ staple "eggs" (some 9) (some "2026-01-02")
    ∷ staple "rice" none (some "soon")
    ∷ []

abbrev options : Options shelf
options = record { today = 100; low_threshold = 1; window = 5 }

pantry_tests :
    (map (λ c. c.message) (compute_pantry_cues shelf options staples)
      ≡ "eggs expired 3 days ago" ∷ "Milk expires today" ∷ "Low on salt" ∷ "Low on milk" ∷ [])
    × (map (λ c. c.kind) (compute_pantry_cues shelf options staples)
        ≡ expired 3 ∷ expiring 0 ∷ low ∷ low ∷ [])
unfolding sort insert
pantry_tests = (refl, refl)

compute_pantry_cues-Sorted_example :
    Perm (compute_pantry_cues shelf options staples) (all_cues shelf options staples)
    × Sorted no_later (compute_pantry_cues shelf options staples)
compute_pantry_cues-Sorted_example =
    compute_pantry_cues-Sorted shelf (λ a b h. refl) (λ a b c h k. refl) options staples
