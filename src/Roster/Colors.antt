-- ===== src/Roster/Colors.antt =====
-- web/src/lib/family-roster.ts: the colors that widgets get.
use Prim.Native.Char.{Char, code}
use Prim.Native.String.{[] as nil, ◌∷◌ as chars}
use Prim.Native.String.append
use Prim.Native.String.compare
use tidyboard.Prelude.{
  ◌≡◌, refl, ap, ℕ, zero, suc, Bool, true, false, not, ◌&&◌, String, truthy, ◌+++◌, if◌then◌else◌,
  leb, ltb, ◌==◌, Bool-cases, inl, inr, arith, ◌∙◌, sym, subst,
}
use tidyboard.Prelude.Words.{Casing, trim, trim_end, end_onto, is_space}
use tidyboard.Api.Query.{is_hex}
use tidyboard.Roster.{
  default_member_color, run, hex_color, expanded, normalize_member_color, Member, to_widget_member,
}

abbrev pub is_upper : Char → Bool
is_upper c = leb 65 (code c) && leb (code c) 90

-- A hexadecimal digit that is no capital letter.
abbrev pub is_small_hex : Char → Bool
is_small_hex c = is_hex c && not (is_upper c)

-- "#" and six such digits.
abbrev pub Canonical : String → Type 0
Canonical s = hex_color is_small_hex 6 s ≡ true

abbrev pub no_upper : String → Bool
no_upper nil = true
no_upper (chars c s) = not (is_upper c) && no_upper s

and_split : (a b : Bool) → (a && b) ≡ true → (a ≡ true) × (b ≡ true)
and_split a b h = (ground arith, ground arith)

not-true : (b : Bool) → not b ≡ true → b ≡ false
not-true b h = ground arith

run-small :
    (n : ℕ) (s : String) → run is_hex n s ≡ true → no_upper s ≡ true → run is_small_hex n s ≡ true
run-small zero nil h k = refl
run-small zero (chars c s) h k = h
run-small (suc n) nil h k = h
run-small (suc n) (chars c s) h k =
    let (a, b) = and_split (is_hex c) (run is_hex n s) h in
    let (d, e) = and_split (not (is_upper c)) (no_upper s) k in rw (a, d) (run-small n s b e)

hex_color-small :
    (n : ℕ) (s : String)
    → hex_color is_hex n s ≡ true
    → no_upper s ≡ true
    → hex_color is_small_hex n s ≡ true
hex_color-small n nil h k = h
hex_color-small n (chars c s) h k =
    let (a, b) = and_split (code c == 35) (run is_hex n s) h in
    let (d, e) = and_split (not (is_upper c)) (no_upper s) k in rw a (run-small n s b e)

four :
    (p q r : Bool)
    → (p && (q && (r && true))) ≡ true
    → (p && (p && (q && (q && (r && (r && true)))))) ≡ true
four p q r h = ground arith

hash-append : (t : String) → ("#" +++ t) ≡ chars "#" t
hash-append t = append.cons "#" nil t ∙ ap (chars "#") (append.nil t)

expanded-Canonical : (s : String) → hex_color is_small_hex 3 s ≡ true → Canonical (expanded s)
expanded-Canonical (chars h (chars r (chars g (chars b nil)))) k =
    simp (hash-append, append.cons, append.nil)
      (four (is_small_hex r) (is_small_hex g) (is_small_hex b) (and_split (code h == 35) _ k).1)
expanded-Canonical (chars h (chars r (chars g (chars b (chars x s))))) k = ground arith
expanded-Canonical (chars h (chars r (chars g nil))) k = ground arith
expanded-Canonical (chars h (chars r nil)) k = ground arith
expanded-Canonical (chars h nil) k = ground arith
expanded-Canonical nil k = ground arith

-- The text has no white space.
abbrev no_space : String → Bool
no_space nil = true
no_space (chars c s) = not (is_space c) && no_space s

trim_end-no_space : (s : String) → no_space s ≡ true → trim_end s ≡ s
trim_end-no_space nil h = refl
trim_end-no_space (chars c s) h =
    let (a, b) = and_split (not (is_space c)) (no_space s) h in
    rw (trim_end-no_space s b) (onto c s (not-true (is_space c) a))
  where
    onto : (c : Char) (s : String) → is_space c ≡ false → end_onto c s ≡ chars c s
    onto c nil h = rw h refl
    onto c (chars d s) h = refl

trim-no_space : (s : String) → no_space s ≡ true → trim s ≡ s
trim-no_space nil h = refl
trim-no_space (chars c s) h =
    let (a, b) = and_split (not (is_space c)) (no_space s) h in
    rw (not-true (is_space c) a) (trim_end-no_space (chars c s) h)

hex-no_space : (c : Char) → is_hex c ≡ true → is_space c ≡ false
hex-no_space c h = ground arith

run-no_space : (n : ℕ) (s : String) → run is_small_hex n s ≡ true → no_space s ≡ true
run-no_space zero nil h = refl
run-no_space zero (chars c s) h = ground arith
run-no_space (suc n) nil h = ground arith
run-no_space (suc n) (chars c s) h =
    let (a, b) = and_split (is_small_hex c) (run is_small_hex n s) h in
    rw (hex-no_space c (and_split (is_hex c) _ a).0) (run-no_space n s b)

run-hex : (n : ℕ) (s : String) → run is_small_hex n s ≡ true → run is_hex n s ≡ true
run-hex zero nil h = refl
run-hex zero (chars c s) h = h
run-hex (suc n) nil h = h
run-hex (suc n) (chars c s) h =
    let (a, b) = and_split (is_small_hex c) (run is_small_hex n s) h in
    rw ((and_split (is_hex c) _ a).0) (run-hex n s b)

hash-no_space : (c : Char) → (code c == 35) ≡ true → is_space c ≡ false
hash-no_space c h = ground arith

Canonical-parts :
    (s : String) → Canonical s → (trim s ≡ s) × ((truthy s ≡ true) × (hex_color is_hex 6 s ≡ true))
Canonical-parts nil h = ground arith
Canonical-parts (chars c s) h =
    let (a, b) = and_split (code c == 35) (run is_small_hex 6 s) h in
    (
      trim-no_space (chars c s) (rw (hash-no_space c a) (run-no_space 6 s b)),
      (rw compare.cons-nil refl, rw a (run-hex 6 s b)),
    )

-- The text has no character but those of ASCII, and none of its capitals.
abbrev pub plain : String → Bool
plain nil = true
plain (chars c s) = (ltb (code c) 128 && not (is_upper c)) && plain s

hex-plain : (c : Char) → is_small_hex c ≡ true → (ltb (code c) 128 && not (is_upper c)) ≡ true
hex-plain c h = ground arith

run-plain : (n : ℕ) (s : String) → run is_small_hex n s ≡ true → plain s ≡ true
run-plain zero nil h = refl
run-plain zero (chars c s) h = ground arith
run-plain (suc n) nil h = ground arith
run-plain (suc n) (chars c s) h =
    let (a, b) = and_split (is_small_hex c) (run is_small_hex n s) h in
    rw (hex-plain c a) (run-plain n s b)

hash-plain : (c : Char) → (code c == 35) ≡ true → (ltb (code c) 128 && not (is_upper c)) ≡ true
hash-plain c h = ground arith

Canonical-plain : (s : String) → Canonical s → plain s ≡ true
Canonical-plain nil h = refl
Canonical-plain (chars c s) h =
    let (a, b) = and_split (code c == 35) (run is_small_hex 6 s) h in
    rw (hash-plain c a) (run-plain 6 s b)

third {ℓ} :
    {A : Type ℓ} (a b c : Bool) (w x y z : A)
    → a ≡ false
    → b ≡ false
    → (if a then w else if b then x else if c then y else z) ≡ (if c then y else z)
third a b c w x y z h k = rw (h, k) refl

-- The color that a trimmed text in small letters gives.
abbrev color_of : String → String
color_of t =
    if not (truthy t)
    then default_member_color
    else if hex_color is_hex 6 t
    then t
    else if hex_color is_hex 3 t
    then expanded t
    else default_member_color

color_of-Canonical : (t : String) → no_upper t ≡ true → Canonical (color_of t)
color_of-Canonical t h = elim (Bool-cases (not (truthy t))) [
  | inl e ↦ rw e refl
  | inr e ↦ elim (Bool-cases (hex_color is_hex 6 t)) [
    | inl f ↦ rw (e, f) (hex_color-small 6 t f h)
    | inr f ↦
        subst Canonical
          (sym (third _ _ (hex_color is_hex 3 t) _ _ (expanded t) default_member_color e f))
          (short (hex_color is_hex 3 t) refl)
  ]
]
  where
    short :
        (b : Bool)
        → hex_color is_hex 3 t ≡ b
        → Canonical (if b then expanded t else default_member_color)
    short true g = expanded-Canonical t (hex_color-small 3 t g h)
    short false g = refl

color_of-same : (s : String) → Canonical s → color_of s ≡ s
color_of-same s h = let (_, (t, x)) = Canonical-parts s h in rw (t, x) refl

-- Where the small letters of a text have no capital of ASCII, and a text of ASCII without capitals is its own:
-- the color of every widget is "#" and six hexadecimal digits in small letters, whatever color its member has;
-- and a color of that form stays as it is.
pub widget-Canonical :
    (c : Casing)
    → ((s : String) → no_upper (c.lower s) ≡ true)
    → ((s : String) → plain s ≡ true → c.lower s ≡ s)
    → (m : Member)
    → Canonical (to_widget_member c m).color
      × ((s : String) → Canonical s → normalize_member_color c s ≡ s)
widget-Canonical c no_capitals keeps m = (
  color_of-Canonical (c.lower (trim m.color)) (no_capitals (trim m.color)),
  λ s h.
      let (t, _) = Canonical-parts s h in
      ap (λ u. color_of (c.lower u)) t
      ∙ ap color_of (keeps s (Canonical-plain s h))
      ∙ color_of-same s h,
)
