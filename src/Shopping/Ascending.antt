-- ===== src/Shopping/Ascending.antt =====
-- web/src/lib/api/shopping.ts: the order of the items, by their sort orders.
use tidyboard.Prelude.{
  ◌≡◌, refl, ◌∙◌, Bool, true, false, not, ◌&&◌, sym, List, [], ◌∷◌, Bool-cases, inl, inr, All,
  All-keep, keep, arith,
}
use tidyboard.Prelude.Int.{ℤ, ltb_ℤ, ◌≤ℤ◌}
use tidyboard.Sort.{sort, Sorted, keep-sort}
use tidyboard.Shopping.{Amounts, ApiShoppingListItem, in_order}

-- The sort orders ascend.
abbrev pub Ascending : (n : Amounts) → List (ApiShoppingListItem n) → Type 0
Ascending n [] = Unit
Ascending n (x ∷ xs) = All (λ y. x.sort_order ≤ℤ y.sort_order) xs × Ascending n xs

abbrev pub is_ℤ : ℤ → ℤ → Bool
is_ℤ a b = not (ltb_ℤ a b) && not (ltb_ℤ b a)

abbrev pub order_is : (n : Amounts) → ℤ → ApiShoppingListItem n → Bool
order_is n v item = is_ℤ item.sort_order v

-- The items of any one sort order stand in the same order in both lists.
abbrev pub Stable :
    (n : Amounts) → List (ApiShoppingListItem n) → List (ApiShoppingListItem n) → Type 0
Stable n xs ys = (v : ℤ) → keep (order_is n v) xs ≡ keep (order_is n v) ys

module _ (n : Amounts) where
  pub in_order-total :
      (a b : ApiShoppingListItem n) → in_order n a b ≡ false → in_order n b a ≡ true
  in_order-total a b h = ground arith

  pub in_order_trans :
      (a b c : ApiShoppingListItem n)
      → in_order n a b ≡ true
      → in_order n b c ≡ true
      → in_order n a c ≡ true
  in_order_trans a b c h k = ground arith

  in_order-le : (a b : ApiShoppingListItem n) → in_order n a b ≡ true → a.sort_order ≤ℤ b.sort_order
  in_order-le a b h = ground arith

  All-le :
      (x : ApiShoppingListItem n) (xs : List (ApiShoppingListItem n))
      → All (λ y. in_order n x y ≡ true) xs
      → All (λ y. x.sort_order ≤ℤ y.sort_order) xs
  All-le x [] h = tt
  All-le x (y ∷ xs) (e, h) = (in_order-le x y e, All-le x xs h)

  pub Sorted→Ascending :
      (xs : List (ApiShoppingListItem n)) → Sorted (in_order n) xs → Ascending n xs
  Sorted→Ascending [] h = tt
  Sorted→Ascending (x ∷ xs) (e, h) = (All-le x xs e, Sorted→Ascending xs h)

  pub keep-Ascending :
      (p : ApiShoppingListItem n → Bool) (xs : List (ApiShoppingListItem n))
      → Ascending n xs
      → Ascending n (keep p xs)
  keep-Ascending p [] h = tt
  keep-Ascending p (x ∷ xs) (e, h) = elim (Bool-cases (p x)) [
    | inl q ↦ rw q (All-keep _ p xs e, keep-Ascending p xs h)
    | inr q ↦ rw q (keep-Ascending p xs h)
  ]

  pub order_is-same :
      (v : ℤ) (x y : ApiShoppingListItem n)
      → order_is n v x ≡ true
      → order_is n v y ≡ true
      → in_order n x y ≡ true
  order_is-same v x y h k = ground arith

  pub keep-keep :
      (p q : ApiShoppingListItem n → Bool) (xs : List (ApiShoppingListItem n))
      → keep q (keep p xs) ≡ keep (λ x. p x && q x) xs
  keep-keep p q [] = refl
  keep-keep p q (x ∷ xs) = elim (Bool-cases (p x)) [
    | inl e ↦ rw (e, keep-keep p q xs) refl
    | inr e ↦ rw (e, keep-keep p q xs) refl
  ]

  pub sort-Stable :
      (p : ApiShoppingListItem n → Bool) (v : ℤ) (xs : List (ApiShoppingListItem n))
      → keep (order_is n v) (keep p (sort (in_order n) xs)) ≡ keep (order_is n v) (keep p xs)
  sort-Stable p v xs =
      keep-keep p (order_is n v) (sort (in_order n) xs)
      ∙ keep-sort (in_order n) (λ x. p x && order_is n v x)
          (λ x y h g. order_is-same v x y (right (p x) _ h) (right (p y) _ g)) xs
      ∙ sym (keep-keep p (order_is n v) xs)
    where
      right : (a b : Bool) → (a && b) ≡ true → b ≡ true
      right a b h = ground arith
