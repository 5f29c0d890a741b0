-- ===== src/Api/Keys.antt =====
-- web/src/lib/api/hooks.ts, the query keys: a key is an array, whose entries are texts, numbers,
-- flags, or an object of options that may be undefined. `invalidateQueries` is given an array of
-- texts, and marks the cached queries whose keys begin with it: that matching is the query library's
-- and a parameter.
use tidyboard.Prelude.{ℕ, ◌≡◌, ◌↔◌, Bool, true, List, [], ◌∷◌, Option, none, some, String, or_else}

pub data Part : Type 0 where
  text : String → Part
  number : ℕ → Part
  flag : Bool → Part
  -- null or undefined
  absent : Part
  -- an object of optional texts, or undefined
  options : Option (List (String × Option String)) → Part

abbrev pub Key : Type 0
Key = List Part

abbrev pub Filter : Type 0
Filter = List String

-- An entry that is a text, null or undefined.
abbrev pub optional : Option String → Part
optional none = absent
optional (some s) = text s

-- The filter's texts are the first entries of the key.
abbrev pub Begins : Filter → Key → Type 0
Begins [] k = Unit
Begins (s ∷ f) [] = ⊥
Begins (s ∷ f) (x ∷ k) = (x ≡ text s) × Begins f k

-- The query library's documented matching of an array of texts: by prefix.
pub record QueryClient : Type 0 where
  pub matches : Filter → Key → Bool
  pub matches_iff : (f : Filter) (k : Key) → (matches f k ≡ true) ↔ Begins f k

pub record EventOptions : Type 0 where
  pub start : Option String
  pub end : Option String
  pub member_id : Option String

pub record RoutineOptions : Type 0 where
  pub member_id : Option String
  pub time_slot : Option String

pub record AuditFilters : Type 0 where
  pub action : Option String
  pub target_type : Option String
  pub from : Option String
  pub to : Option String

abbrev event_part : EventOptions → List (String × Option String)
event_part o = ("start", o.start) ∷ ("end", o.end) ∷ ("memberId", o.member_id) ∷ []

abbrev routine_part : RoutineOptions → List (String × Option String)
routine_part o = ("member_id", o.member_id) ∷ ("time_slot", o.time_slot) ∷ []

abbrev audit_part : AuditFilters → List (String × Option String)
audit_part o =
    ("action", o.action) ∷ ("target_type", o.target_type) ∷ ("from", o.from) ∷ ("to", o.to) ∷ []

-- `qk`, the key factory.
pub record KeyFactory : Type 0 where
  pub events : Option EventOptions → Key
  pub event : String → Key
  pub members : Key
  pub recipes : Key
  pub recipe : String → Key
  pub lists : Key
  pub list : String → Key
  pub shopping : Key
  pub routines : Option RoutineOptions → Key
  pub routine_streak : String → String → Key
  pub equity : Option String → Key
  pub equity_dashboard : Option String → Option String → Key
  pub equity_tasks : Key
  pub equity_domains : Key
  pub equity_suggestions : Key
  pub meal_plan : Option String → Key
  pub race : Key
  pub audit : ℕ → ℕ → Option AuditFilters → Key
  pub collections : Key
  pub collection_recipes : String → Key
  pub household_by_code : String → Key
  pub join_requests : String → Key

abbrev option_map {ℓ κ} : {A : Type ℓ} {B : Type κ} → (A → B) → Option A → Option B
option_map f none = none
option_map f (some a) = some (f a)

abbrev pub qk : KeyFactory
qk = record {
  events = λ o. text "events" ∷ options (option_map event_part o) ∷ [];
  event = λ id. text "events" ∷ text id ∷ [];
  members = text "members" ∷ [];
  recipes = text "recipes" ∷ [];
  recipe = λ id. text "recipes" ∷ text id ∷ [];
  lists = text "lists" ∷ [];
  list = λ id. text "lists" ∷ text id ∷ [];
  shopping = text "shopping" ∷ [];
  routines = λ o. text "routines" ∷ options (option_map routine_part o) ∷ [];
  routine_streak = λ r m. text "routines" ∷ text r ∷ text "streak" ∷ text m ∷ [];
  equity = λ period. text "equity" ∷ optional period ∷ [];
  equity_dashboard = λ from to. text "equity" ∷ text "dashboard" ∷ optional from ∷ optional to ∷ [];
  equity_tasks = text "equity" ∷ text "tasks" ∷ [];
  equity_domains = text "equity" ∷ text "domains" ∷ [];
  equity_suggestions = text "equity" ∷ text "suggestions" ∷ [];
  meal_plan = λ week. text "mealPlan" ∷ text (or_else week "current") ∷ [];
  race = text "race" ∷ [];
  audit = λ limit offset fs.
      text "audit" ∷ number limit ∷ number offset ∷ options (option_map audit_part fs) ∷ [];
  collections = text "collections" ∷ [];
  collection_recipes = λ id. text "collections" ∷ text id ∷ text "recipes" ∷ [];
  household_by_code = λ code. text "householdByCode" ∷ text code ∷ [];
  join_requests = λ id. text "joinRequests" ∷ text id ∷ [];
}
