-- ===== src/Planner/Reload.antt =====
-- web/src/components/screens/recipes.tsx, `MealPlan`: a plan that is loaded again for the same week.
use tidyboard.Prelude.{
  ◌≡◌, refl, sym, ap, ap₂, subst, ◌∙◌, ℕ, zero, suc, Bool, true, false, List, [], ◌∷◌, Option, none,
  some, ◌+++◌, String, truthy, if◌then◌else◌, eq_iff,
}
use tidyboard.MealPlan.{Grid}
use tidyboard.MealPlan.Week.{Calendar, WeekPlan, MealPlanEntryMeta}
use tidyboard.Api.Query.{given}
use tidyboard.Planner.{
  MealSlot, Tuning, deletes, slot_name, set_cell, or_grid, recipe_at, col_date, Planner, PlanEvent,
  loaded, open_cell, pick, clear, edit_save, edit_delete, close, is_week, plan_grid, delete_meta,
  handle_edit_save, handle_edit_delete, open_picker, display_grid, with_slots, with_grid, seeded,
  unloaded, sends, lookup_meta, picked, pick_recipe, plan_step, plan_run,
}

module _ (cal : Calendar) where
  -- Every plan that is loaded is one of the week.
  abbrev pub OfWeek : String → List (PlanEvent cal) → Type 0
  OfWeek w [] = Unit
  OfWeek w (loaded p ∷ es) = (p.week_of ≡ w) × OfWeek w es
  OfWeek w (e ∷ es) = OfWeek w es

  -- The events without the loads.
  abbrev pub taps : List (PlanEvent cal) → List (PlanEvent cal)
  taps [] = []
  taps (loaded p ∷ es) = taps es
  taps (e ∷ es) = e ∷ taps es

  abbrev On : String → Option (WeekPlan cal) → Type 0
  On w o = (p : WeekPlan cal) × ((o ≡ some p) × (p.week_of ≡ w))

  -- The grid has a row.
  abbrev Solid : Grid → Type 0
  Solid g = (x : Grid) → or_grid g x ≡ g

  -- Two screens of a week that show the same grid and the same dialogs.
  abbrev Alike : String → Planner cal → Planner cal → Type 0
  Alike w k m =
      (k.local_grid ≡ m.local_grid)
      × (k.picker_slot ≡ m.picker_slot)
      × (k.edit_slot ≡ m.edit_slot)
      × (k.seeded_week ≡ some w)
      × On w k.meal_plan
      × On w m.meal_plan
      × Solid m.local_grid

  Solid-set_cell : (r c : ℕ) (v : Option String) (g : Grid) → Solid (set_cell r c v g)
  Solid-set_cell zero c v [] x = refl
  Solid-set_cell zero c v (row ∷ rows) x = refl
  Solid-set_cell (suc r) c v [] x = refl
  Solid-set_cell (suc r) c v (row ∷ rows) x = refl

  seeded-Alike :
      (w : String) (p : WeekPlan cal) (k m : Planner cal)
      → p.week_of ≡ w
      → Alike w k m
      → Alike w (seeded cal p k) m
  seeded-Alike w p k m e (g, s, d, v, on, om, solid) =
      let same : is_week cal k.seeded_week p.week_of ≡ true =
        ap₂ (is_week cal) v e ∙ (eq_iff w w).1 refl in
      (
        ap (λ b. if b then k.local_grid else p.grid) same ∙ g,
        s,
        d,
        ap some e,
        (p, (refl, e)),
        om,
        solid,
      )

  grid-Alike :
      (w : String) (k m : Planner cal) (r c : ℕ) (x : Option String)
      → Alike w k m
      → Alike w
          (with_grid cal (set_cell r c x k.local_grid) k)
          (with_grid cal (set_cell r c x m.local_grid) m)
  grid-Alike w k m r c x (g, s, d, v, on, om, solid) =
      (ap (set_cell r c x) g, s, d, v, on, om, Solid-set_cell r c x m.local_grid)

  picked-Alike :
      (w : String) (s : MealSlot) (recipe_id : String) (o : Option String) (k m : Planner cal)
      → Alike w k m
      → Alike w (picked cal s recipe_id o k) (picked cal s recipe_id o m)
  picked-Alike w s recipe_id none k m h = h
  picked-Alike w s recipe_id (some date) k m (g, _, d, v, on, om, solid) =
      (g, refl, d, v, on, om, solid)

  pick-Alike :
      (w recipe_id : String) (s : Option MealSlot) (p q : WeekPlan cal) (k m : Planner cal)
      → p.week_of ≡ w
      → q.week_of ≡ w
      → Alike w k m
      → Alike w (pick_recipe cal recipe_id s (some p) k) (pick_recipe cal recipe_id s (some q) m)
  pick-Alike w recipe_id none p q k m e f h = h
  pick-Alike w recipe_id (some s) p q k m e f h =
      let k2 = with_grid cal (set_cell s.row_idx s.col_idx (some recipe_id) k.local_grid) k in
      let m2 = with_grid cal (set_cell s.row_idx s.col_idx (some recipe_id) m.local_grid) m in
      subst
        (λ t.
          Alike w (picked cal s recipe_id (col_date cal t s.col_idx) k2)
            (picked cal s recipe_id (col_date cal q.week_of s.col_idx) m2))
        (f ∙ sym e)
        (picked-Alike w s recipe_id (col_date cal q.week_of s.col_idx) k2 m2
          (grid-Alike w k m _ _ _ h))

  slots-Alike :
      (w : String) (a b : Option MealSlot) (k m : Planner cal)
      → Alike w k m
      → Alike w (with_slots cal a b k) (with_slots cal a b m)
  slots-Alike w a b k m (g, s, d, v, on, om, solid) = (g, refl, refl, v, on, om, solid)

  open-Alike :
      (w : String) (s : MealSlot) (k m : Planner cal)
      → Alike w k m
      → Alike w (open_picker cal s k) (open_picker cal s m)
  open-Alike w s k m (g, pk, ed, v, on, om, solid) =
      let same : display_grid cal k ≡ display_grid cal m =
        ap (λ x. or_grid x (plan_grid cal k.meal_plan)) g
        ∙ solid (plan_grid cal k.meal_plan)
        ∙ sym (solid (plan_grid cal m.meal_plan)) in
      subst
        (λ b.
          Alike w
            (if b
              then with_slots cal k.picker_slot (some s) k
              else with_slots cal (some s) k.edit_slot k)
            (open_picker cal s m))
        (ap (λ x. given (recipe_at s x)) (sym same))
        (opens (given (recipe_at s (display_grid cal m))) (g, pk, ed, v, on, om, solid))
    where
      opens :
          (b : Bool)
          → Alike w k m
          → Alike w
              (if b
                then with_slots cal k.picker_slot (some s) k
                else with_slots cal (some s) k.edit_slot k)
              (if b
                then with_slots cal m.picker_slot (some s) m
                else with_slots cal (some s) m.edit_slot m)
      opens true (g, pk, ed, v, on, om, solid) = (g, pk, refl, v, on, om, solid)
      opens false (g, pk, ed, v, on, om, solid) = (g, refl, ed, v, on, om, solid)

  save-Alike :
      (w : String) (values : Tuning) (s : Option MealSlot) (p q : WeekPlan cal) (k m : Planner cal)
      → Alike w k m
      → Alike w
          (handle_edit_save cal values s (some p) k)
          (handle_edit_save cal values s (some q) m)
  save-Alike w values none p q k m h = h
  save-Alike w values (some s) p q k m (g, pk, ed, v, on, om, solid) =
      (g, pk, refl, v, on, om, solid)

  -- The deletion that is asked for changes nothing but the requests.
  deleted-left :
      (w : String) (o : Option MealPlanEntryMeta) (k m : Planner cal)
      → Alike w k m
      → Alike w (delete_meta cal o k) m
  deleted-left w none k m h = h
  deleted-left w (some x) k m h = sent (truthy x.id) h
    where
      sent : (b : Bool) → Alike w k m → Alike w (if b then sends cal (deletes x.id) k else k) m
      sent true (g, pk, ed, v, on, om, solid) = (g, pk, ed, v, on, om, solid)
      sent false h = h

  deleted-right :
      (w : String) (o : Option MealPlanEntryMeta) (k m : Planner cal)
      → Alike w k m
      → Alike w k (delete_meta cal o m)
  deleted-right w none k m h = h
  deleted-right w (some x) k m h = sent (truthy x.id) h
    where
      sent : (b : Bool) → Alike w k m → Alike w k (if b then sends cal (deletes x.id) m else m)
      sent true (g, pk, ed, v, on, om, solid) = (g, pk, ed, v, on, om, solid)
      sent false h = h

  emptied-Alike :
      (w : String) (r c : ℕ) (x y : Grid) (k m k2 m2 : Planner cal)
      → Alike w k m
      → Alike w k2 m2
      → Alike w
          (with_slots cal k.picker_slot none
            (with_grid cal (set_cell r c none (or_grid k.local_grid x)) k2))
          (with_slots cal m.picker_slot none
            (with_grid cal (set_cell r c none (or_grid m.local_grid y)) m2))
  emptied-Alike w r c x y k m k2 m2 (g, pk, _, _, _, _, solid) (_, _, ed, v, on, om, _) = (
    ap (set_cell r c none) (ap (λ z. or_grid z x) g ∙ solid x ∙ sym (solid y)),
    pk,
    refl,
    v,
    on,
    om,
    Solid-set_cell r c none (or_grid m.local_grid y),
  )

  delete-Alike :
      (w : String) (s : Option MealSlot) (p q : WeekPlan cal) (k m : Planner cal)
      → Alike w k m
      → Alike w (handle_edit_delete cal s (some p) k) (handle_edit_delete cal s (some q) m)
  delete-Alike w none p q k m h = h
  delete-Alike w (some s) p q k m h =
      let key = s.date +++ "|" +++ slot_name s.row_idx in
      let o = lookup_meta key p.entry_ids in
      let o2 = lookup_meta key q.entry_ids in
      emptied-Alike w s.row_idx s.col_idx p.grid q.grid k m (delete_meta cal o k)
        (delete_meta cal o2 m) h
        (deleted-right w o2 (delete_meta cal o k) m (deleted-left w o k m h))

  -- A step that goes by an open dialog and the plan.
  by_plan :
      (w : String) (f : Option MealSlot → Option (WeekPlan cal) → Planner cal → Planner cal)
      (slot : Planner cal → Option MealSlot) (k m : Planner cal)
      → slot k ≡ slot m
      → ((s : Option MealSlot) (p q : WeekPlan cal)
          → p.week_of ≡ w
          → q.week_of ≡ w
          → Alike w (f s (some p) k) (f s (some q) m))
      → Alike w k m
      → Alike w (f (slot k) k.meal_plan k) (f (slot m) m.meal_plan m)
  by_plan w f slot k m same h (g, pk, ed, v, (p, (pp, pw)), (q, (qp, qw)), solid) =
      subst (λ x. Alike w x (f (slot m) m.meal_plan m)) (sym (ap₂ (λ a b. f a b k) same pp))
        (subst (λ x. Alike w (f (slot m) (some p) k) x) (sym (ap (λ b. f (slot m) b m) qp))
          (h (slot m) p q pw qw))

  plan_run-Alike :
      (w : String) (k m : Planner cal) (es : List (PlanEvent cal))
      → OfWeek w es
      → Alike w k m
      → Alike w (plan_run cal k es) (plan_run cal m (taps es))
  plan_run-Alike w k m [] o h = h
  plan_run-Alike w k m (loaded p ∷ es) (e, o) h =
      plan_run-Alike w (seeded cal p k) m es o (seeded-Alike w p k m e h)
  plan_run-Alike w k m (open_cell s ∷ es) o h =
      plan_run-Alike w (open_picker cal s k) (open_picker cal s m) es o (open-Alike w s k m h)
  plan_run-Alike w k m (pick r ∷ es) o h =
      plan_run-Alike w (plan_step cal k (pick r)) (plan_step cal m (pick r)) es o (
        by_plan w (pick_recipe cal r) (λ x. x.picker_slot) k m h.1
          (λ s p q e f. pick-Alike w r s p q k m e f h) h)
  plan_run-Alike w k m (clear r c ∷ es) o h =
      plan_run-Alike w (plan_step cal k (clear r c)) (plan_step cal m (clear r c)) es o
        (grid-Alike w k m r c none h)
  plan_run-Alike w k m (edit_save values ∷ es) o h =
      plan_run-Alike w (plan_step cal k (edit_save values)) (plan_step cal m (edit_save values)) es
        o
        (by_plan w (handle_edit_save cal values) (λ x. x.edit_slot) k m h.2
          (λ s p q e f. save-Alike w values s p q k m h) h)
  plan_run-Alike w k m (edit_delete ∷ es) o h =
      plan_run-Alike w (plan_step cal k edit_delete) (plan_step cal m edit_delete) es o (
        by_plan w (handle_edit_delete cal) (λ x. x.edit_slot) k m h.2
          (λ s p q e f. delete-Alike w s p q k m h) h)
  plan_run-Alike w k m (close ∷ es) o h =
      plan_run-Alike w (with_slots cal none none k) (with_slots cal none none m) es o
        (slots-Alike w none none k m h)

  -- From a screen that was just seeded with a plan that has a row: while all plans that are loaded are of the
  -- same week, the grid shown is the first plan's with the taps of this screen, and nothing that another
  -- plan brings is shown, such as the meals that the copy of last week has made.
  pub reload-unshown :
      (p : WeekPlan cal) (row : List (Option String)) (rows : Grid) (es : List (PlanEvent cal))
      → p.grid ≡ row ∷ rows
      → OfWeek p.week_of es
      → (let k = seeded cal p (unloaded cal) in
          display_grid cal (plan_run cal k es) ≡ display_grid cal (plan_run cal k (taps es)))
  reload-unshown p row rows es e o =
      let k = seeded cal p (unloaded cal) in
      let solid : Solid p.grid = λ x. ap (λ g. or_grid g x) e ∙ sym e in
      let (g, _, _, _, _, _, s) =
        plan_run-Alike p.week_of k k es o
          (refl, refl, refl, refl, (p, (refl, refl)), (p, (refl, refl)), solid) in
      let a = plan_run cal k es in
      let b = plan_run cal k (taps es) in
      ap (λ x. or_grid x (plan_grid cal a.meal_plan)) g
      ∙ s (plan_grid cal a.meal_plan)
      ∙ sym (s (plan_grid cal b.meal_plan))
