-- ===== src/Sort.antt =====
-- `Array.prototype.sort`, which the language defines as a stable sort by a comparator: an insertion
-- sort over the Boolean test "the comparator's result is at most 0".
use mathlib.Core.List.{Perm, filter_map}
use mathlib.Core.List.Perm
use tidyboard.Prelude.{
  ◌≡◌, refl, Bool, true, false, List, [], ◌∷◌, if◌then◌else◌, Bool-cases, inl, inr, All, keep,
  keep-cons, ◌∙◌, ap, Option, none, some, arith,
}

module _ {ℓ} {A : Type ℓ} (le : A → A → Bool) where
  unfoldable pub insert : A → List A → List A
  insert x [] = x ∷ []
  insert x (y ∷ ys) = if le x y then x ∷ y ∷ ys else y ∷ insert x ys

  unfoldable pub sort : List A → List A
  unfolding insert
  sort [] = []
  sort (x ∷ xs) = insert x (sort xs)

  abbrev pub Sorted : List A → Type ℓ
  Sorted [] = Unit
  Sorted (x ∷ xs) = All (λ y. le x y ≡ true) xs × Sorted xs

  insert-perm : (x : A) (ys : List A) → Perm (insert x ys) (x ∷ ys)
  unfolding insert
  insert-perm x [] = Perm.rfl
  insert-perm x (y ∷ ys) = elim (Bool-cases (le x y)) [
    | inl e ↦ rw (e, insert) Perm.rfl
    | inr e ↦ rw (e, insert) (Perm.trans (Perm.cons y (insert-perm x ys)) (Perm.swap x y ys))
  ]

  pub sort-perm : (xs : List A) → Perm (sort xs) xs
  unfolding sort
  sort-perm [] = Perm.rfl
  sort-perm (x ∷ xs) = Perm.trans (insert-perm x (sort xs)) (Perm.cons x (sort-perm xs))

  module _ {κ} (P : A → Type κ) where
    insert-All : (x : A) (ys : List A) → P x → All P ys → All P (insert x ys)
    unfolding insert
    insert-All x [] p h = (p, tt)
    insert-All x (y ∷ ys) p h = elim (Bool-cases (le x y)) [
      | inl e ↦ rw (e, insert) (p, h)
      | inr e ↦ rw (e, insert) (h.0, insert-All x ys p h.1)
    ]

    pub sort-All : (xs : List A) → All P xs → All P (sort xs)
    unfolding sort
    sort-All [] h = h
    sort-All (x ∷ xs) (p, h) = insert-All x (sort xs) p (sort-All xs h)

  module _ (total : (a b : A) → le a b ≡ false → le b a ≡ true)
      (trans : (a b c : A) → le a b ≡ true → le b c ≡ true → le a c ≡ true) where
    All-le :
        (x y : A) (ys : List A)
        → le x y ≡ true
        → All (λ z. le y z ≡ true) ys
        → All (λ z. le x z ≡ true) ys
    All-le x y [] e h = tt
    All-le x y (z ∷ ys) e (p, h) = (trans x y z e p, All-le x y ys e h)

    insert-Sorted : (x : A) (ys : List A) → Sorted ys → Sorted (insert x ys)
    unfolding insert
    insert-Sorted x [] h = (tt, tt)
    insert-Sorted x (y ∷ ys) h = elim (Bool-cases (le x y)) [
      | inl e ↦ rw (e, insert) ((e, All-le x y ys e h.0), h)
      | inr e ↦
          rw (e, insert)
            (insert-All (λ z. le y z ≡ true) x ys (total x y e) h.0, insert-Sorted x ys h.1)
    ]

    -- The result is ascending, for a comparator that is a total order.
    pub sort-Sorted : (xs : List A) → Sorted (sort xs)
    unfolding sort
    sort-Sorted [] = tt
    sort-Sorted (x ∷ xs) = insert-Sorted x (sort xs) (sort-Sorted xs)

  -- Insertion does not disturb a class whose members the new entry goes before.
  pub keep-insert :
      (p : A → Bool) (x : A) (ys : List A)
      → All (λ y. p x ≡ true → p y ≡ true → le x y ≡ true) ys
      → keep p (insert x ys) ≡ keep p (x ∷ ys)
  unfolding insert
  keep-insert p x [] h = refl
  keep-insert p x (y ∷ ys) (first, h) = ground (arith, first, keep-insert p x ys h)

  -- The sort does not disturb a class whose members the comparator takes for equal.
  pub keep-sort :
      (p : A → Bool)
      → ((x y : A) → p x ≡ true → p y ≡ true → le x y ≡ true)
      → (xs : List A) → keep p (sort xs) ≡ keep p xs
  unfolding sort
  keep-sort p h [] = refl
  keep-sort p h (x ∷ xs) =
      keep-insert p x (sort xs) (each (sort xs)) ∙ keep-cons p x _ _ (keep-sort p h xs)
    where
      each : (ys : List A) → All (λ y. p x ≡ true → p y ≡ true → le x y ≡ true) ys
      each [] = tt
      each (y ∷ ys) = (h x y, each ys)

-- Two comparators that agree on the entries sort them alike.
module _ {ℓ κ} {A : Type ℓ} (le le' : A → A → Bool) (P : A → Type κ)
    (same : (x y : A) → P x → P y → le x y ≡ le' x y) where
  insert-agree : (x : A) (ys : List A) → P x → All P ys → insert le x ys ≡ insert le' x ys
  unfolding insert
  insert-agree x [] p h = refl
  insert-agree x (y ∷ ys) p (q, h) = elim (Bool-cases (le' x y)) [
    | inl e ↦ rw (insert, same x y p q, e) refl
    | inr e ↦ rw (insert, same x y p q, e) (ap (λ zs. y ∷ zs) (insert-agree x ys p h))
  ]

  pub sort-agree : (xs : List A) → All P xs → sort le xs ≡ sort le' xs
  unfolding sort
  sort-agree [] h = refl
  sort-agree (x ∷ xs) (p, h) =
      insert-agree x (sort le xs) p (sort-All le P xs h) ∙ ap (insert le' x) (sort-agree xs h)

-- A filter of the same entries in another order.
module _ {ℓ} {A : Type ℓ} (p : A → Bool) where
  abbrev if_passes : A → Option A
  if_passes x = if p x then some x else none

  keep-filter_map : (xs : List A) → filter_map if_passes xs ≡ keep p xs
  unfolding filter_map
  keep-filter_map [] = refl
  keep-filter_map (x ∷ xs) = elim (Bool-cases (p x)) [
    | inl e ↦ rw e (ap (λ es. x ∷ es) (keep-filter_map xs))
    | inr e ↦ rw e (keep-filter_map xs)
  ]

  pub keep-perm : (xs ys : List A) → Perm xs ys → Perm (keep p xs) (keep p ys)
  keep-perm xs ys h = rw (← keep-filter_map xs, ← keep-filter_map ys) (Perm.filter_map if_passes h)
