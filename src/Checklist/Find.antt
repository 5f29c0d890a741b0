-- ===== src/Checklist/Find.antt =====
-- web/src/components/screens/recipes.tsx, `ShoppingList`: where the search for a tapped item ends.
use mathlib.Core.List.{Mem, mem-cons, not-mem-nil, mem-append}
use mathlib.Core.Logic.Or
use tidyboard.Prelude.{
  ◌⊎◌, str_eq, ◌≡◌, refl, sym, ap, subst, ◌∙◌, ℕ, zero, suc, ◌+◌, Bool, true, false, ◌&&◌, List, [],
  ◌∷◌, Option, none, some, String, truthy, if◌then◌else◌, is_some, Bool-cases, inl, inr, eq_iff,
  arith,
}
use mathlib.Core.Bool.{Bool-set}
use tidyboard.Api.Query.{given}
use tidyboard.MealPlan.{modify}
use tidyboard.MealPlan.Grid.{get_elem?}
use tidyboard.Shopping.{ShoppingItem, ShoppingCategory, all_items}
use tidyboard.Checklist.{
  Found, find_item, found_in, find_from, same_id, has_id, with_done, with_items, change_item, flip,
}

some-inj {ℓ} : {A : Type ℓ} (x y : A) → some x ≡ some y → x ≡ y
some-inj x y h = cc

modify-same {ℓ} :
    {A : Type ℓ} (f : A → A) (n : ℕ) (xs : List A) (x : A)
    → get_elem? xs n ≡ some x
    → f x ≡ x
    → modify f n xs ≡ xs
modify-same f n [] x h e = refl
modify-same f zero (y ∷ ys) x h e = ap (λ z. z ∷ ys) (subst (λ z. f z ≡ z) (sym (some-inj y x h)) e)
modify-same f (suc n) (y ∷ ys) x h e = ap (λ zs. y ∷ zs) (modify-same f n ys x h e)

modify-modify {ℓ} :
    {A : Type ℓ} (f g : A → A) (n : ℕ) (xs : List A)
    → modify f n (modify g n xs) ≡ modify (λ x. f (g x)) n xs
modify-modify f g n [] = refl
modify-modify f g zero (x ∷ xs) = refl
modify-modify f g (suc n) (x ∷ xs) = ap (λ ys. x ∷ ys) (modify-modify f g n xs)

pub get-modify_self {ℓ} :
    {A : Type ℓ} (f : A → A) (n : ℕ) (xs : List A) (x : A)
    → get_elem? xs n ≡ some x
    → get_elem? (modify f n xs) n ≡ some (f x)
get-modify_self f n [] x h = cc
get-modify_self f zero (y ∷ ys) x h = ap (λ z. some (f z)) (some-inj y x h)
get-modify_self f (suc n) (y ∷ ys) x h = get-modify_self f n ys x h

-- The item lies at a place of the list and passes the test.
abbrev pub Lies : (ShoppingItem → Bool) → List ShoppingItem → ℕ → ShoppingItem → Type 0
Lies test its n it = (get_elem? its n ≡ some it) × (test it ≡ true)

find_item-Lies :
    (test : ShoppingItem → Bool) (i : ℕ) (its : List ShoppingItem) (ii : ℕ) (it : ShoppingItem)
    → find_item test i its ≡ some (ii, it)
    → (n : ℕ) × ((ii ≡ i + n) × Lies test its n it)
find_item-Lies test i [] ii it h = cc
find_item-Lies test i (x ∷ its) ii it h = elim (Bool-cases (test x)) [
  | inl e ↦
      let pair : (i, x) ≡ (ii, it) = some-inj (i, x) (ii, it) (rw e at h) in
      let same : x ≡ it = ap (λ p. p.1) pair in
      let place : i ≡ ii = ap (λ p. p.0) pair in (0, (omega arith, (ap some same, rw (← same) e)))
  | inr e ↦
      let (n, (p, q)) = find_item-Lies test (suc i) its ii it (rw e at h) in
      (suc n, (omega arith, q))
]

abbrev pub Placed : (ShoppingItem → Bool) → List ShoppingCategory → ℕ → Found → Type 0
Placed test cats n f = (get_elem? cats n ≡ some f.cat) × Lies test f.cat.items f.ii f.it

in_category :
    (enters : Bool) (test : ShoppingItem → Bool) (c : ℕ) (cat : ShoppingCategory)
    (rest : Option Found) (o : Option (ℕ × ShoppingItem)) (f : Found)
    → (if enters then find_item test 0 cat.items else none) ≡ o
    → found_in c cat o rest ≡ some f
    → ((f.ci ≡ c) × ((cat ≡ f.cat) × Lies test f.cat.items f.ii f.it)) ⊎ (rest ≡ some f)
in_category false test c cat rest (some (ii, it)) f h k = cc
in_category true test c cat rest (some (ii, it)) f h k =
    let (n, (p, q)) = find_item-Lies test 0 cat.items ii it h in
    let same = some-inj (record { ci = c; ii = ii; cat = cat; it = it }) f k in
    let here : ii ≡ n = omega arith in
    inl (
      sym (ap (λ x. x.ci) same),
      (
        ap (λ x. x.cat) same,
        subst (λ x. Lies test x.cat.items x.ii x.it) same
            (subst (λ m. Lies test cat.items m it) (sym here) q),
      ),
    )
in_category enters test c cat rest none f h k = inr k

pub find_from-Placed :
    (enters : ShoppingCategory → Bool) (test : ShoppingItem → Bool) (c : ℕ)
    (cats : List ShoppingCategory) (f : Found)
    → find_from enters test c cats ≡ some f
    → (n : ℕ) × ((f.ci ≡ c + n) × Placed test cats n f)
find_from-Placed enters test c [] f h = cc
find_from-Placed enters test c (cat ∷ cats) f h =
    elim (in_category (enters cat) test c cat (find_from enters test (suc c) cats) _ f refl h) [
      | inl (p, (q, r)) ↦ (0, (omega arith, (ap some q, r)))
      | inr k ↦
          let (n, (p, q)) = find_from-Placed enters test (suc c) cats f k in
          (suc n, (omega arith, q))
    ]

-- A change to the item that was found, and its check put back.
pub change-back :
    (cats : List ShoppingCategory) (test : ShoppingItem → Bool) (f : Found)
    → Placed test cats f.ci f
    → change_item (with_done f.it.done) f.ci f.ii (change_item flip f.ci f.ii cats) ≡ cats
change-back cats test f (p, (q, _)) =
    modify-modify _ _ f.ci cats
    ∙ modify-same _ f.ci cats f.cat p (
        ap (λ its. with_items its f.cat)
          (modify-modify (with_done f.it.done) flip f.ii f.cat.items
            ∙ modify-same _ f.ii f.cat.items f.it q refl))

found-some :
    (test : ShoppingItem → Bool) (x : ShoppingItem) (i : ℕ) (its : List ShoppingItem)
    → test x ≡ true
    → Mem x its
    → is_some (find_item test i its) ≡ true
found-some test x i [] e m = absurd (not-mem-nil m)
found-some test x i (y ∷ its) e m = elim (Bool-cases (test y)) [
  | inl p ↦ rw p refl
  | inr p ↦
      Or.elim (Bool-set _ _) (mem-cons.0 m) (λ same. cc (ap test same))
        (λ n. rw p (found-some test x (suc i) its e n))
]

found_in-some :
    (c : ℕ) (cat : ShoppingCategory) (o : Option (ℕ × ShoppingItem)) (rest : Option Found)
    → (is_some o ≡ true) ⊎ (is_some rest ≡ true)
    → is_some (found_in c cat o rest) ≡ true
found_in-some c cat (some (ii, it)) rest h = refl
found_in-some c cat none rest (inl h) = cc
found_in-some c cat none rest (inr h) = h

pub find_from-some :
    (test : ShoppingItem → Bool) (x : ShoppingItem) (c : ℕ) (cats : List ShoppingCategory)
    → test x ≡ true
    → Mem x (all_items cats)
    → is_some (find_from (λ _. true) test c cats) ≡ true
find_from-some test x c [] e m = absurd (not-mem-nil m)
find_from-some test x c (cat ∷ cats) e m =
    let rest = find_from (λ _. true) test (suc c) cats in
    Or.elim (Bool-set _ _) (mem-append.0 m)
      (λ here.
        found_in-some c cat (find_item test 0 cat.items) rest
          (inl (found-some test x 0 cat.items e here)))
      (λ there.
        found_in-some c cat (find_item test 0 cat.items) rest
          (inr (find_from-some test x (suc c) cats e there)))

pub has_id-same : (it : ShoppingItem) → given it.id ≡ true → has_id it it ≡ true
has_id-same it h = of it.id h
  where
    of : (o : Option String) → given o ≡ true → same_id o o ≡ true
    of none h = cc
    of (some a) h = rw (h, (eq_iff a a).1 refl) refl

pub same_id-eq : (a b : Option String) → same_id a b ≡ true → b ≡ a
same_id-eq none b h = cc
same_id-eq (some a) none h = cc
same_id-eq (some a) (some b) h = ap some ((eq_iff b a).0 (and_right (truthy a) (str_eq b a) h))
  where
    and_right : (p q : Bool) → (p && q) ≡ true → q ≡ true
    and_right p q h = ground arith
