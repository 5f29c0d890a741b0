-- ===== src/Ws/Invalidation.antt =====
-- web/src/lib/ws/ws-provider.tsx, `handleInvalidation`: the filters that a frame invalidates, by its type.
use text.Mathlib.Text.{starts_with}
use tidyboard.Prelude.{
  ◌≡◌, refl, ◌⊎◌, inl, inr, Bool, true, false, ◌||◌, List, [], ◌∷◌, Option, none, some, String,
  truthy, str_eq, if◌then◌else◌, Bool-cases, arith,
}
use tidyboard.Api.Keys.{Filter, Key, Begins, QueryClient}
use tidyboard.Api.Matching.{refreshes, all_avoid, unmatched}

-- A parsed frame; `list_id` is its payload's, if it is a text.
pub record WsEvent : Type 0 where
  pub kind : String
  pub list_id : Option String

abbrev list_filters : Option String → List Filter
list_filters none = ("lists" ∷ []) ∷ []
list_filters (some id) =
    if truthy id then ("lists" ∷ []) ∷ ("lists" ∷ id ∷ []) ∷ [] else ("lists" ∷ []) ∷ []

abbrev pub handle_invalidation : WsEvent → List Filter
handle_invalidation e =
    if starts_with e.kind "event."
    then ("events" ∷ []) ∷ []
    else if starts_with e.kind "list.item." || str_eq e.kind "list.item.toggled"
    then list_filters e.list_id
    else if starts_with e.kind "list."
    then list_filters e.list_id
    else if starts_with e.kind "routine."
    then ("routines" ∷ []) ∷ []
    else if starts_with e.kind "shopping."
    then ("shopping" ∷ []) ∷ []
    else if starts_with e.kind "meal_plan."
    then ("meal-plan" ∷ []) ∷ []
    else if starts_with e.kind "recipe_collection."
    then ("recipe-collections" ∷ []) ∷ []
    else if starts_with e.kind "equity."
    then ("equity" ∷ []) ∷ []
    else []

if-avoids :
    (s : String) (b : Bool) (x y : List Filter)
    → all_avoid s x ≡ true
    → all_avoid s y ≡ true
    → all_avoid s (if b then x else y) ≡ true
if-avoids s true x y p q = p
if-avoids s false x y p q = q

one-avoids : (s h : String) → str_eq h s ≡ false → all_avoid s ((h ∷ []) ∷ []) ≡ true
one-avoids s h e = rw e refl

list_filters-avoid :
    (s : String) (id : Option String)
    → str_eq "lists" s ≡ false
    → all_avoid s (list_filters id) ≡ true
list_filters-avoid s none e = rw e refl
list_filters-avoid s (some id) e = elim (Bool-cases (truthy id)) [
  | inl t ↦ rw (t, e) refl
  | inr f ↦ rw (f, e) refl
]

-- The text is the first entry of none of the filters.
abbrev IsElsewhere : String → Type 0
IsElsewhere s =
    (str_eq "events" s ≡ false)
    × (str_eq "lists" s ≡ false)
    × (str_eq "routines" s ≡ false)
    × (str_eq "shopping" s ≡ false)
    × (str_eq "meal-plan" s ≡ false)
    × (str_eq "recipe-collections" s ≡ false)
    × (str_eq "equity" s ≡ false)

handle_invalidation-avoids :
    (s : String) (e : WsEvent) → IsElsewhere s → all_avoid s (handle_invalidation e) ≡ true
handle_invalidation-avoids s e (events, lists, routines, shopping, meal, collections, equity) =
    ground (arith, list_filters-avoid s e.list_id lists)

-- No frame, whatever its type, refreshes a cached read whose key begins with "mealPlan" or
-- "collections", under which the meal plan and the recipe collections are cached, or with "live-only".
pub handle_invalidation-misses :
    (client : QueryClient) (e : WsEvent) (s : String) (k : Key)
    → (s ≡ "mealPlan") ⊎ ((s ≡ "collections") ⊎ (s ≡ "live-only"))
    → Begins (s ∷ []) k
    → refreshes client (handle_invalidation e) k ≡ false
handle_invalidation-misses client e s k which b =
    unmatched client s k (handle_invalidation e) (handle_invalidation-avoids s e (elsewhere which))
      b
  where
    elsewhere : (s ≡ "mealPlan") ⊎ ((s ≡ "collections") ⊎ (s ≡ "live-only")) → IsElsewhere s
    elsewhere (inl p) = rw p (refl, refl, refl, refl, refl, refl, refl)
    elsewhere (inr (inl p)) = rw p (refl, refl, refl, refl, refl, refl, refl)
    elsewhere (inr (inr p)) = rw p (refl, refl, refl, refl, refl, refl, refl)
