-- ===== src/Checklist/Kept.antt =====
-- web/src/components/screens/recipes.tsx, `ShoppingList`: what the taps leave alone.
use mathlib.Core.List.{map}
use tidyboard.Prelude.{
  ◌≡◌, refl, ap, ◌∙◌, ℕ, zero, suc, Bool, true, false, not, ◌&&◌, List, [], ◌∷◌, Option, none, some,
  String, truthy, if◌then◌else◌,
}
use tidyboard.MealPlan.{modify}
use tidyboard.Shopping.{ShoppingItem, ShoppingCategory, Shopping}
use tidyboard.Checklist.{
  Undo, Checklist, ListEvent, loaded, tap, answered, is_version, seeded, Found, find_indices,
  with_done, with_items, change_item, flip, toggle_found, toggle, undone, waiting_at,
  toggle_answered, list_run,
}

-- A list with every check taken away.
abbrev pub unchecked : ShoppingCategory → ShoppingCategory
unchecked cat = with_items (map (with_done false) cat.items) cat

-- The loads among some events.
abbrev pub loads : List ListEvent → List ListEvent
loads [] = []
loads (loaded s ∷ es) = loaded s ∷ loads es
loads (tap item source ∷ es) = loads es
loads (answered n ok ∷ es) = loads es

map-modify {ℓ κ} :
    {A : Type ℓ} {B : Type κ} (g : A → B) (f : A → A)
    → ((x : A) → g (f x) ≡ g x)
    → (n : ℕ) (xs : List A) → map g (modify f n xs) ≡ map g xs
map-modify g f h n [] = refl
map-modify g f h zero (x ∷ xs) = ap (λ y. y ∷ map g xs) (h x)
map-modify g f h (suc n) (x ∷ xs) = ap (λ ys. g x ∷ ys) (map-modify g f h n xs)

change_item-unchecked :
    (f : ShoppingItem → ShoppingItem)
    → ((it : ShoppingItem) → with_done false (f it) ≡ with_done false it)
    → (ci ii : ℕ) (cats : List ShoppingCategory)
    → map unchecked (change_item f ci ii cats) ≡ map unchecked cats
change_item-unchecked f h ci ii cats =
    map-modify unchecked (λ cat. with_items (modify f ii cat.items) cat)
      (λ cat. ap (λ its. with_items its cat) (map-modify (with_done false) f h ii cat.items)) ci
      cats

undone-unchecked :
    (ok : Bool) (u : Option Undo) (cats : List ShoppingCategory)
    → map unchecked (undone ok u cats) ≡ map unchecked cats
undone-unchecked true u cats = refl
undone-unchecked false none cats = refl
undone-unchecked false (some u) cats =
    change_item-unchecked (with_done u.done) (λ it. refl) u.ci u.ii cats

-- Two screens that differ in nothing but checks and requests.
abbrev Alike : Checklist → Checklist → Type 0
Alike k m =
    (map unchecked k.categories ≡ map unchecked m.categories) × (k.api_version ≡ m.api_version)

toggle_found-Alike : (f : Option Found) (k m : Checklist) → Alike k m → Alike (toggle_found f k) m
toggle_found-Alike none k m h = h
toggle_found-Alike (some f) k m (h, v) =
    (change_item-unchecked flip (λ it. refl) f.ci f.ii k.categories ∙ h, v)

if-Alike :
    (b : Bool) (s : Shopping) (k m : Checklist)
    → Alike k m
    → map unchecked (if b then s.categories else k.categories)
      ≡ map unchecked (if b then s.categories else m.categories)
if-Alike true s k m h = refl
if-Alike false s k m h = h.0

seeded-Alike : (s : Shopping) (k m : Checklist) → Alike k m → Alike (seeded s k) (seeded s m)
seeded-Alike s k m (h, v) =
    let fresh = λ (o : Option String). truthy s.week_of && not (is_version o s.week_of) in
    (
      if-Alike (fresh k.api_version) s k m (h, v)
          ∙ ap (λ o. map unchecked (if fresh o then s.categories else m.categories)) v,
      ap (λ o. if fresh o then some s.week_of else o) v,
    )

list_run-Alike :
    (k m : Checklist) (es : List ListEvent)
    → Alike k m
    → Alike (list_run k es) (list_run m (loads es))
list_run-Alike k m [] h = h
list_run-Alike k m (loaded s ∷ es) h =
    list_run-Alike (seeded s k) (seeded s m) es (seeded-Alike s k m h)
list_run-Alike k m (tap item source ∷ es) h =
    list_run-Alike (toggle item source k) m es
      (toggle_found-Alike (find_indices item source k.categories) k m h)
list_run-Alike k m (answered n ok ∷ es) (h, v) =
    list_run-Alike (toggle_answered n ok k) m es
      (undone-unchecked ok (waiting_at n k.waiting) k.categories ∙ h, v)

-- After any loads, taps and answers, successful or not, the screen lists what it would list after the loads
-- alone: the same categories with the same items in the same order, which differ in their checks at most.
pub list_run-unchecked :
    (k : Checklist) (es : List ListEvent)
    → map unchecked (list_run k es).categories ≡ map unchecked (list_run k (loads es)).categories
list_run-unchecked k es = (list_run-Alike k k es (refl, refl)).0
