-- ===== src/Tasks/Order.antt =====
-- The order of the task feed: `unifyTasks` sorts what it collected by falling priority, loses and
-- invents no row, and keeps the input order within a priority band.
use mathlib.Core.List.{Perm}
use mathlib.Core.List.Perm
use tidyboard.Prelude.{
  ℕ, ◌+◌, ◌≤◌, ◌≡◌, refl, ap, ◌∙◌, Bool, true, false, List, [], ◌∷◌, map, ◌==◌, All, keep,
  keep-cons, arith,
}
use tidyboard.Sort.{sort, Sorted, sort-perm, sort-Sorted, sort-All, keep-insert}
use tidyboard.Tasks.Shape.{UnifiedTask, UnifyTasksSources}
use tidyboard.Tasks.Unify.{collect, number_from, goes_before, by_urgency, unify_tasks}

abbrev pub Descending : List UnifiedTask → Type 0
Descending [] = Unit
Descending (t ∷ ts) = All (λ u. u.priority ≤ t.priority) ts × Descending ts

-- The rows of one priority band.
abbrev pub band : ℕ → List UnifiedTask → List UnifiedTask
band k = keep (λ t. t.priority == k)

abbrev Numbered : Type 0
Numbered = List (UnifiedTask × ℕ)

tasks_of-number_from : (i : ℕ) (ts : List UnifiedTask) → map (λ x. x.0) (number_from i ts) ≡ ts
unfolding number_from
tasks_of-number_from i [] = refl
tasks_of-number_from i (t ∷ ts) = ap (◌∷◌ t) (tasks_of-number_from (i + 1) ts)

pub by_urgency-perm : (ts : List UnifiedTask) → Perm (by_urgency ts) ts
unfolding by_urgency
by_urgency-perm ts =
    Perm.trans (Perm.map _ (sort-perm goes_before (number_from 0 ts)))
      (rw (tasks_of-number_from 0 ts) Perm.rfl)

goes_before-total : (a b : UnifiedTask × ℕ) → goes_before a b ≡ false → goes_before b a ≡ true
goes_before-total a b h = ground arith

goes_before_trans :
    (a b c : UnifiedTask × ℕ)
    → goes_before a b ≡ true
    → goes_before b c ≡ true
    → goes_before a c ≡ true
goes_before_trans a b c h k = ground arith

goes_before-le : (a b : UnifiedTask × ℕ) → goes_before a b ≡ true → b.0.priority ≤ a.0.priority
goes_before-le a b h = ground arith

All-priority :
    (a : UnifiedTask × ℕ) (xs : Numbered)
    → All (λ b. goes_before a b ≡ true) xs
    → All (λ u. u.priority ≤ a.0.priority) (map (λ x. x.0) xs)
All-priority a [] h = tt
All-priority a (b ∷ xs) (p, h) = (goes_before-le a b p, All-priority a xs h)

Sorted→Descending : (xs : Numbered) → Sorted goes_before xs → Descending (map (λ x. x.0) xs)
Sorted→Descending [] h = tt
Sorted→Descending (x ∷ xs) (p, h) = (All-priority x xs p, Sorted→Descending xs h)

pub by_urgency-Descending : (ts : List UnifiedTask) → Descending (by_urgency ts)
unfolding by_urgency
by_urgency-Descending ts =
    Sorted→Descending _
      (sort-Sorted goes_before goes_before-total goes_before_trans (number_from 0 ts))

-- Every entry is numbered from `i` on.
abbrev From : ℕ → Numbered → Type 0
From i = All (λ b. i ≤ b.1)

From-weaken : (i : ℕ) (xs : Numbered) → From (i + 1) xs → From i xs
From-weaken i [] h = tt
From-weaken i (x ∷ xs) (p, h) = (omega arith, From-weaken i xs h)

number_from-From : (i : ℕ) (ts : List UnifiedTask) → From i (number_from i ts)
unfolding number_from
number_from-From i [] = tt
number_from-From i (t ∷ ts) = (omega arith, From-weaken i _ (number_from-From (i + 1) ts))

abbrev in_band : ℕ → UnifiedTask × ℕ → Bool
in_band k x = x.0.priority == k

earlier_first :
    (k i : ℕ) (t : UnifiedTask) (xs : Numbered)
    → From (i + 1) xs
    → All (λ y. in_band k (t, i) ≡ true → in_band k y ≡ true → goes_before (t, i) y ≡ true) xs
earlier_first k i t [] h = tt
earlier_first k i t (y ∷ xs) (p, h) = ((λ e f. ground arith), earlier_first k i t xs h)

sort-keep :
    (k i : ℕ) (ts : List UnifiedTask)
    → keep (in_band k) (sort goes_before (number_from i ts)) ≡ keep (in_band k) (number_from i ts)
unfolding number_from sort
sort-keep k i [] = refl
sort-keep k i (t ∷ ts) =
    keep-insert goes_before (in_band k) (t, i) (sort goes_before (number_from (i + 1) ts))
      (earlier_first k i t _ (
        sort-All goes_before (λ b. i + 1 ≤ b.1) (number_from (i + 1) ts)
          (number_from-From (i + 1) ts)))
    ∙ keep-cons (in_band k) (t, i) _ _ (sort-keep k (i + 1) ts)

map-keep :
    (k : ℕ) (xs : Numbered) → band k (map (λ x. x.0) xs) ≡ map (λ x. x.0) (keep (in_band k) xs)
map-keep k [] = refl
map-keep k (x ∷ xs) = ground (arith, map-keep k xs)

pub by_urgency-band : (k : ℕ) (ts : List UnifiedTask) → band k (by_urgency ts) ≡ band k ts
unfolding by_urgency
by_urgency-band k ts = rw (
  map-keep k (sort goes_before (number_from 0 ts)),
  sort-keep k 0 ts,
  ← map-keep k (number_from 0 ts),
  tasks_of-number_from 0 ts,
)

module _ {κ} (P : UnifiedTask → Type κ) where
  number_from-All : (i : ℕ) (ts : List UnifiedTask) → All P ts → All (λ x. P x.0) (number_from i ts)
  unfolding number_from
  number_from-All i [] h = tt
  number_from-All i (t ∷ ts) (p, h) = (p, number_from-All (i + 1) ts h)

  All-tasks : (xs : Numbered) → All (λ x. P x.0) xs → All P (map (λ x. x.0) xs)
  All-tasks [] h = tt
  All-tasks (x ∷ xs) (p, h) = (p, All-tasks xs h)

  pub by_urgency-All : (ts : List UnifiedTask) → All P ts → All P (by_urgency ts)
  unfolding by_urgency
  by_urgency-All ts h =
      All-tasks _ (sort-All goes_before (λ x. P x.0) (number_from 0 ts) (number_from-All 0 ts h))

-- For every set of sources the feed is ordered by falling priority, it is a permutation of the rows
-- that the projector collected, and within each priority band the rows keep the collected order.
pub unify_tasks-order :
    (s : UnifyTasksSources)
    → Descending (unify_tasks s)
      × Perm (unify_tasks s) (collect s)
      × ((k : ℕ) → band k (unify_tasks s) ≡ band k (collect s))
unfolding unify_tasks
unify_tasks-order s = (
  by_urgency-Descending (collect s),
  by_urgency-perm (collect s),
  λ k. by_urgency-band k (collect s),
)
