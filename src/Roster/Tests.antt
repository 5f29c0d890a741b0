-- ===== src/Roster/Tests.antt =====
-- A table of capitals that knows those of ASCII.
use Prim.Native.Char.{Char, code}
use Prim.Native.String.{[] as nil, ◌∷◌ as chars}
use tidyboard.Prelude.{
  ◌≡◌, refl, ap, ap₂, ℕ, zero, suc, ◌-◌, Bool, true, false, not, ◌&&◌, String, none, if◌then◌else◌,
  ltb, Bool-cases, inl, inr,
}
use tidyboard.Prelude.Words.{Casing}
use tidyboard.Roster.{Member, child, normalize_member_color, get_member_initials}
use tidyboard.Roster.Colors.{no_upper, plain, is_upper}

abbrev nth : String → ℕ → Char
nth nil n = "a"
nth (chars c s) zero = c
nth (chars c s) (suc n) = nth s n

abbrev small_letter : Char → Char
small_letter c = if is_upper c then nth "abcdefghijklmnopqrstuvwxyz" (code c - 65) else c

abbrev small_letters : String → String
small_letters nil = nil
small_letters (chars c s) = chars (small_letter c) (small_letters s)

abbrev casing : Casing
casing = record { upper = λ t. t; lower = small_letters }

and_parts : (a b : Bool) → (a && b) ≡ true → (a ≡ true) × (b ≡ true)
and_parts true b h = (refl, h)
and_parts false b h = (h, absurd_of h)
  where
    absurd_of : false ≡ true → b ≡ true
    absurd_of e = cc

nth-small : (s : String) (n : ℕ) → no_upper s ≡ true → not (is_upper (nth s n)) ≡ true
nth-small nil n h = refl
nth-small (chars c s) zero h = (and_parts (not (is_upper c)) (no_upper s) h).0
nth-small (chars c s) (suc n) h = nth-small s n (and_parts (not (is_upper c)) (no_upper s) h).1

small_letter-small : (c : Char) → not (is_upper (small_letter c)) ≡ true
small_letter-small c = elim (Bool-cases (is_upper c)) [
  | inl e ↦ rw e (nth-small "abcdefghijklmnopqrstuvwxyz" (code c - 65) refl)
  | inr e ↦ rw (e, e) refl
]

small_letters-small : (s : String) → no_upper (small_letters s) ≡ true
small_letters-small nil = refl
small_letters-small (chars c s) = ap₂ (λ a b. a && b) (small_letter-small c) (small_letters-small s)

small_letters-plain : (s : String) → plain s ≡ true → small_letters s ≡ s
small_letters-plain nil h = refl
small_letters-plain (chars c s) h =
    let (a, b) = and_parts (ltb (code c) 128 && not (is_upper c)) (plain s) h in
    let (_, d) = and_parts (ltb (code c) 128) (not (is_upper c)) a in
    ap₂ chars (same c d) (small_letters-plain s b)
  where
    same : (c : Char) → not (is_upper c) ≡ true → small_letter c ≡ c
    same c h = elim (Bool-cases (is_upper c)) [ inl e ↦ cc (ap not e) | inr e ↦ rw e refl ]

roster_tests :
    (normalize_member_color casing " #FA3 " ≡ "#ffaa33")
    × ((normalize_member_color casing "red" ≡ "#94a3b8")
        × (get_member_initials casing " Ada  King Lovelace" ≡ "AL"))
roster_tests = (refl, (refl, refl))

abbrev kim : Member
kim = record {
  id = "m1";
  name = "Kim";
  full = " ";
  role = child;
  age_group = none;
  color = "#1A2B3C";
  initial = "K";
  stars = 0;
  streak = 0;
}
