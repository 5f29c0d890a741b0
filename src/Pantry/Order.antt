-- ===== src/Pantry/Order.antt =====
-- web/src/components/shopping/PantryCues.tsx: the order of the cues, against the days that they speak of.
use mathlib.Core.List.{Perm}
use tidyboard.Prelude.{
  ◌≡◌, refl, Bool, true, false, not, List, [], ◌∷◌, Option, none, some, String, All, arith,
}
use tidyboard.Prelude.Int.{ℤ, ltb_ℤ, sub_ℕ}
use tidyboard.Sort.{Sorted, sort-Sorted, sort-perm}
use tidyboard.Pantry.{
  Shelf, CueKind, low, expiring, expired, PantryCueComputed, PantryCueRecord, Options, all_cues,
  kind_le, cue_le, compute_pantry_cues,
}

-- The days until a cue's staple expires: negative when it has expired, none for one that runs low.
abbrev pub days_until : CueKind → Option ℤ
days_until low = none
days_until (expiring n) = some (sub_ℕ n 0)
days_until (expired n) = some (sub_ℕ 0 n)

-- Fewer days come first, and a cue without days last.
abbrev pub sooner : Option ℤ → Option ℤ → Bool
sooner a none = true
sooner none (some n) = false
sooner (some m) (some n) = not (ltb_ℤ n m)

abbrev pub no_later : PantryCueComputed → PantryCueComputed → Bool
no_later a b = sooner (days_until a.kind) (days_until b.kind)

module _ {ℓ} {A : Type ℓ} (le le2 : A → A → Bool)
    (weaker : (a b : A) → le a b ≡ true → le2 a b ≡ true) where
  All-weaken : (x : A) (ys : List A) → All (λ y. le x y ≡ true) ys → All (λ y. le2 x y ≡ true) ys
  All-weaken x [] h = tt
  All-weaken x (y ∷ ys) (e, h) = (weaker x y e, All-weaken x ys h)

  Sorted-weaken : (xs : List A) → Sorted le xs → Sorted le2 xs
  Sorted-weaken [] h = tt
  Sorted-weaken (x ∷ xs) (a, h) = (All-weaken x xs a, Sorted-weaken xs h)

kind_le-sooner :
    (names : Bool) (j k : CueKind)
    → kind_le names j k ≡ true
    → sooner (days_until j) (days_until k) ≡ true
kind_le-sooner names j low h = refl
kind_le-sooner names low (expiring n) h = ground arith
kind_le-sooner names low (expired n) h = ground arith
kind_le-sooner names (expiring m) (expiring n) h = ground arith
kind_le-sooner names (expiring m) (expired n) h = ground arith
kind_le-sooner names (expired m) (expiring n) h = ground arith
kind_le-sooner names (expired m) (expired n) h = ground arith

kind_le_total :
    (x y : Bool) (j k : CueKind)
    → (x ≡ false → y ≡ true)
    → kind_le x j k ≡ false
    → kind_le y k j ≡ true
kind_le_total x y (expired m) (expired n) t h = ground arith
kind_le_total x y (expired m) (expiring n) t h = ground arith
kind_le_total x y (expired m) low t h = ground arith
kind_le_total x y (expiring m) (expired n) t h = refl
kind_le_total x y (expiring m) (expiring n) t h = ground arith
kind_le_total x y (expiring m) low t h = ground arith
kind_le_total x y low (expired n) t h = refl
kind_le_total x y low (expiring n) t h = refl
kind_le_total x y low low t h = t h

kind_le_trans :
    (x y z : Bool) (i j k : CueKind)
    → (x ≡ true → y ≡ true → z ≡ true)
    → kind_le x i j ≡ true
    → kind_le y j k ≡ true
    → kind_le z i k ≡ true
kind_le_trans x y z low low low t h l = t h l
kind_le_trans x y z low low (expiring n) t h l = ground arith
kind_le_trans x y z low low (expired n) t h l = ground arith
kind_le_trans x y z low (expiring m) k t h l = ground arith
kind_le_trans x y z low (expired m) k t h l = ground arith
kind_le_trans x y z (expiring n) j low t h l = refl
kind_le_trans x y z (expired n) j low t h l = refl
kind_le_trans x y z (expired n) j (expiring m) t h l = refl
kind_le_trans x y z (expiring n) low (expiring m) t h l = ground arith
kind_le_trans x y z (expiring n) low (expired m) t h l = ground arith
kind_le_trans x y z (expiring n) (expired q) k t h l = ground arith
kind_le_trans x y z (expiring n) (expiring q) (expiring m) t h l = ground arith
kind_le_trans x y z (expiring n) (expiring q) (expired m) t h l = ground arith
kind_le_trans x y z (expired n) low (expired m) t h l = ground arith
kind_le_trans x y z (expired n) (expiring q) (expired m) t h l = ground arith
kind_le_trans x y z (expired n) (expired q) (expired m) t h l = ground arith

module _ (s : Shelf) (total : (a b : String) → s.before a b ≡ false → s.before b a ≡ true)
    (trans : (a b c : String)
      → s.before a b ≡ true
      → s.before b c ≡ true
      → s.before a c ≡ true) where
  -- Where the order of names is total and transitive: the cues are those of all the records, each as often
  -- as there, and they come in the order of the days that are left, the longest expired first and the low
  -- stocks, which have no days, last.
  pub compute_pantry_cues-Sorted :
      (o : Options s) (rs : List (PantryCueRecord s))
      → Perm (compute_pantry_cues s o rs) (all_cues s o rs)
        × Sorted no_later (compute_pantry_cues s o rs)
  compute_pantry_cues-Sorted o rs = (
    sort-perm (cue_le s) (all_cues s o rs),
    Sorted-weaken (cue_le s) no_later (λ a b. kind_le-sooner (s.before a.name b.name) a.kind b.kind)
        (compute_pantry_cues s o rs)
        (sort-Sorted (cue_le s)
          (λ a b.
            kind_le_total (s.before a.name b.name) (s.before b.name a.name) a.kind b.kind
              (total a.name b.name))
          (λ a b c.
            kind_le_trans (s.before a.name b.name) (s.before b.name c.name) (s.before a.name c.name)
              a.kind b.kind c.kind (trans a.name b.name c.name))
          (all_cues s o rs)),
  )
