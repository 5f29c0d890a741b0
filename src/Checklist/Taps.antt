-- ===== src/Checklist/Taps.antt =====
-- web/src/components/screens/recipes.tsx, `ShoppingList`: what a tap asks for, and how its failure is undone.
use mathlib.Core.List.{Mem}
use tidyboard.Prelude.{
  ◌≡◌, refl, sym, ap, subst, ◌∙◌, ℕ, zero, suc, Bool, true, false, not, ◌&&◌, List, [], ◌∷◌, Option,
  none, some, String, if◌then◌else◌, is_some, Bool-cases, inl, inr, ◌==◌, ==_iff, arith,
}
use tidyboard.Prelude.Words.{Casing}
use tidyboard.Api.Query.{given}
use tidyboard.MealPlan.{modify}
use tidyboard.MealPlan.Grid.{get_elem?}
use tidyboard.Shopping.{ShoppingItem, ShoppingCategory, all_items}
use tidyboard.Shopping.Groups.{GroupMode, group_shopping}
use tidyboard.Shopping.Regroup.{group_shopping-mem_iff}
use tidyboard.Checklist.{
  Checklist, tap, answered, Found, find_from, has_id, has_name, is_source, or_found, with_done,
  with_items, change_item, flip, toggle_found, list_step, list_run,
}
use tidyboard.Checklist.Find.{
  get-modify_self, Placed, find_from-Placed, change-back, find_from-some, has_id-same, same_id-eq,
}

-- The item at a place; none is out of range.
abbrev pub item_at : ℕ → ℕ → List ShoppingCategory → Option ShoppingItem
item_at a b cats = of (get_elem? cats a)
  where
    of : Option ShoppingCategory → Option ShoppingItem
    of none = none
    of (some cat) = get_elem? cat.items b

-- The item with its check turned.
abbrev pub turned : ShoppingItem → ShoppingItem
turned it = record {
  amt = it.amt;
  name = it.name;
  done = if it.done then false else true;
  id = it.id;
  source_recipes = it.source_recipes;
}

-- The lists differ at one place only, where the second has the item with its check turned.
abbrev pub TurnsOnly : ℕ → ℕ → ShoppingItem → List ShoppingCategory → List ShoppingCategory → Type 0
TurnsOnly ci ii it before after =
    (a b : ℕ)
    → item_at a b after ≡ (if a == ci && b == ii then some (turned it) else item_at a b before)

same_suc : (m n : ℕ) → (suc m == suc n) ≡ (m == n)
same_suc m n = ground arith

get-modify_other {ℓ} :
    {A : Type ℓ} (f : A → A) (n m : ℕ) (xs : List A)
    → (m == n) ≡ false
    → get_elem? (modify f n xs) m ≡ get_elem? xs m
get-modify_other f n m [] e = refl
get-modify_other f zero zero (x ∷ xs) e = ground arith
get-modify_other f zero (suc m) (x ∷ xs) e = refl
get-modify_other f (suc n) zero (x ∷ xs) e = refl
get-modify_other f (suc n) (suc m) (x ∷ xs) e = get-modify_other f n m xs (sym (same_suc m n) ∙ e)

not-turned : (b : Bool) → not b ≡ (if b then false else true)
not-turned b = ground arith

flip-turned : (it : ShoppingItem) → flip it ≡ turned it
flip-turned it = ap (λ d. with_done d it) (not-turned it.done)

-- What a change to the item that was found leaves in its category.
item_at-change :
    (cats : List ShoppingCategory) (f : Found) (b : ℕ)
    → get_elem? cats f.ci ≡ some f.cat
    → get_elem? f.cat.items f.ii ≡ some f.it
    → item_at f.ci b (change_item flip f.ci f.ii cats)
      ≡ (if b == f.ii then some (turned f.it) else get_elem? f.cat.items b)
item_at-change cats f b p q =
    rw (get-modify_self (λ cat. with_items (modify flip f.ii cat.items) cat) f.ci cats f.cat p)
      (elim (Bool-cases (b == f.ii)) [
        | inr d ↦ rw (d, get-modify_other flip f.ii b f.cat.items d) refl
        | inl d ↦
            rw (d, (==_iff b f.ii).0 d, get-modify_self flip f.ii f.cat.items f.it q)
              (ap some (flip-turned f.it))
      ])

change-TurnsOnly :
    (cats : List ShoppingCategory) (test : ShoppingItem → Bool) (f : Found)
    → Placed test cats f.ci f
    → TurnsOnly f.ci f.ii f.it cats (change_item flip f.ci f.ii cats)
change-TurnsOnly cats test f (p, (q, _)) a b = elim (Bool-cases (a == f.ci)) [
  | inr e ↦
      rw (e, get-modify_other (λ cat. with_items (modify flip f.ii cat.items) cat) f.ci a cats e)
        refl
  | inl e ↦ rw (e, (==_iff a f.ci).0 e, p) (item_at-change cats f b p q)
]

some-found :
    (o : Option Found) (other : Option Found)
    → is_some o ≡ true
    → (f : Found) × ((o ≡ some f) × (or_found o other ≡ some f))
some-found none other h = cc
some-found (some f) other h = (f, (refl, refl))

-- In each of the three modes: a tap on an item that the screen shows and that has an id finds an item of this
-- id in the list; it sends one toggle, with that item's id, category and name and the opposite of its check;
-- of all items, it turns the check of that one only and leaves the rest as it was; and if the toggle fails,
-- the list is again what it was before the tap.
pub tap-shown :
    (c : Casing) (mode : GroupMode) (k : Checklist) (item : ShoppingItem) (source : String)
    → Mem item (all_items (group_shopping c k.categories mode))
    → given item.id ≡ true
    → (cat : ShoppingCategory) × (it : ShoppingItem) × (ci : ℕ) × (ii : ℕ) × (get_elem? k.categories
          ci
        ≡ some cat)
      × (get_elem? cat.items ii ≡ some it)
      × (it.id ≡ item.id)
      × ((list_step k (tap item source)).sent
          ≡ record { id = it.id; category = cat.name; name = it.name; done = not it.done } ∷ k.sent)
      × TurnsOnly ci ii it k.categories (list_step k (tap item source)).categories
      × ((list_run k (tap item source ∷ answered 0 false ∷ [])).categories ≡ k.categories)
tap-shown c mode k item source m g =
    let there = (group_shopping-mem_iff c item k.categories mode).0 m in
    let (f, (o, e)) =
      some-found (find_from (λ _. true) (has_id item) 0 k.categories)
        (find_from (is_source source) (has_name item) 0 k.categories)
        (find_from-some (has_id item) item 0 k.categories (has_id-same item g) there) in
    let (n, (place, lies)) = find_from-Placed (λ _. true) (has_id item) 0 k.categories f o in
    let at : n ≡ f.ci = omega arith in
    let placed = subst (λ n. Placed (has_id item) k.categories n f) at lies in
    (
      f.cat,
      f.it,
      f.ci,
      f.ii,
      placed.0,
      placed.1.0,
      same_id-eq item.id f.it.id placed.1.1,
      ap (λ o. (toggle_found o k).sent) e,
      (λ a b.
          ap (λ o. item_at a b (toggle_found o k).categories) e
          ∙ change-TurnsOnly k.categories (has_id item) f placed a b),
      ap (λ o. (list_step (toggle_found o k) (answered 0 false)).categories) e
          ∙ change-back k.categories (has_id item) f placed,
    )
