-- ===== src/DayView/Shown.antt =====
-- web/src/components/screens/calendar.tsx, `CalDay`: which events the day shows, and when it can be drawn.
use mathlib.Core.Bool.{false≢true}
use tidyboard.Prelude.{
  ◌≡◌, refl, ap₂, ◌⊎◌, inl, inr, ℕ, true, ◌&&◌, List, [], ◌∷◌, Option, none, some, String, str_eq,
  or_else, any, keep, map, All, is_some,
}
use tidyboard.DayView.{DayEvent, block, map_all, DayColumn, column, day_columns}

-- Either P holds and the function gives a value that g takes to c, or P does not hold and it throws.
abbrev pub GivesIf {ℓ κ μ} :
    {B : Type ℓ} {C : Type κ} → Type μ → Option B → (B → C) → C → Type (ℓ ⊔ κ ⊔ μ)
GivesIf {B = B} P o g c = (P × ((y : B) × ((o ≡ some y) × (g y ≡ c)))) ⊎ ((¬ P) × (o ≡ none))

module _ {A B C : Type 0} (f : A → Option B) (g : B → C) (h : A → C) (P : A → Type 0)
    (f_gives : (x : A) → GivesIf (P x) (f x) g (h x)) where
  map_all-gives : (xs : List A) → GivesIf (All P xs) (map_all f xs) (map g) (map h xs)
  map_all-gives [] = inl (tt, ([], (refl, refl)))
  map_all-gives (x ∷ xs) = elim (f_gives x) [
    | inr (np, e) ↦ inr (λ k. np k.0, rw e refl)
    | inl (p, (y, (e, q))) ↦ elim (map_all-gives xs) [
      | inr (nps, es) ↦ inr (λ k. nps k.1, rw (e, es) refl)
      | inl (ps, (ys, (es, qs))) ↦
          inl ((p, ps), (y ∷ ys, (rw (e, es) refl, ap₂ (λ c cs. c ∷ cs) q qs)))
    ]
  ]

-- An event has both texts of the clock, `start` and `end`.
abbrev pub HasTimes : DayEvent → Type 0
HasTimes e = (is_some e.start && is_some e.end) ≡ true

made_of-gives :
    (number : String → Option ℕ) (title : String) (start end : Option String)
    (members assigned : Option (List String))
    → (let e : DayEvent = record {
      title = title;
      start = start;
      end = end;
      members = members;
      assigned_members = assigned;
    } in
        GivesIf (HasTimes e) (block number e) (λ b. b.title) title)
made_of-gives number title none end members assigned = inr (λ h. false≢true h, refl)
made_of-gives number title (some s) none members assigned = inr (λ h. false≢true h, refl)
made_of-gives number title (some s) (some en) members assigned = inl (refl, (_, (refl, refl)))

block-gives :
    (number : String → Option ℕ) (e : DayEvent)
    → GivesIf (HasTimes e) (block number e) (λ b. b.title) e.title
block-gives number e = made_of-gives number e.title e.start e.end e.members e.assigned_members

-- The member of a column, with the titles of its blocks.
abbrev pub titles : DayColumn → String × List String
titles c = (c.member_id, map (λ b. b.title) c.blocks)

module _ (number : String → Option ℕ) (events : List DayEvent) where
  -- The events that are assigned to a member; `members` counts where there are no `assigned_members`.
  abbrev pub own : String → List DayEvent
  own m = keep (λ e. any (str_eq m) (or_else e.assigned_members (or_else e.members []))) events

  column-gives :
      (m : String)
      → GivesIf
          (All HasTimes (own m))
          (column number events m)
          titles
          (m, map (λ e. e.title) (own m))
  column-gives m =
      elim (map_all-gives (block number) (λ b. b.title) _ _ (block-gives number) (own m)) [
        | inr (n, e) ↦ inr (n, rw e refl)
        | inl (p, (bs, (e, q))) ↦
            inl
              (p, (record { member_id = m; blocks = bs }, (rw e refl, ap₂ (λ a b. (a, b)) refl q)))
      ]

  -- Either each event that is assigned to one of the members has both a `start` and an `end`, and the day is
  -- drawn: it has a column for each member in their order, with a block for each event that is assigned to
  -- the member and for no other event, in the order of the events. Or some such event lacks one of the two,
  -- and the screen throws.
  pub day_columns-shown :
      (members : List String)
      → GivesIf
          (All (λ m. All HasTimes (own m)) members)
          (day_columns number members events)
          (map titles)
          (map (λ m. (m, map (λ e. e.title) (own m))) members)
  day_columns-shown members = map_all-gives (column number events) titles _ _ column-gives members
