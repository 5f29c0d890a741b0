-- ===== src/Tasks/Unify.antt =====
-- web/src/lib/unified-tasks.ts: `unifyTasks` and `filterTasksByMember`.
use tidyboard.Prelude.{
  ℕ, ◌+◌, Bool, false, not, ◌&&◌, ◌||◌, List, [], ◌∷◌, ◌++◌, map, Option, none, some, String,
  str_eq, truthy, ltb, leb, ◌==◌, if◌then◌else◌, or_else, keep,
}
use tidyboard.Sort.{sort}
use tidyboard.Types.{ApiRedemption, ApiAdHocTask, ApiRoutine, ApiChore, present}
use tidyboard.Tasks.Shape.{UnifiedTask, UnifyTasksSources, RosterMember, is_pet}
use tidyboard.Tasks.Rows.{
  is_pending, task_is_pending, task_is_open, redemption_approval, todo_approval, todo_row,
  routine_row, chore_row, rows_of_rewards, group_from,
}

-- The loops of `unifyTasks`, in their order: each pushes the rows of the entries that its guards
-- let through.
unfoldable pub redemption_approvals : List ApiRedemption → List UnifiedTask
unfolding redemption_approval
redemption_approvals rs = map redemption_approval (keep (λ r. is_pending r.status) rs)

unfoldable pub todo_approvals : List ApiAdHocTask → List UnifiedTask
unfolding todo_approval
todo_approvals ts =
    map todo_approval (keep (λ t. task_is_pending t.status && t.requires_approval) ts)

unfoldable pub todo_rows : List ApiAdHocTask → List UnifiedTask
unfolding todo_row
todo_rows ts = map todo_row (keep (λ t. task_is_open t.status) ts)

unfoldable pub routine_rows : List ApiRoutine → List UnifiedTask
unfolding routine_row
routine_rows rs = map routine_row (keep (λ r. not r.archived) rs)

-- The guards of the chore loop: neither archived nor a pet's.
unfoldable pub chore_passes : Option (List RosterMember) → ApiChore → Bool
chore_passes members c = not (present c.archived_at) && not (is_pet members (some c.member_id))

unfoldable pub chore_rows : Option (List RosterMember) → List ApiChore → List UnifiedTask
unfolding chore_row chore_passes
chore_rows members cs = map chore_row (keep (chore_passes members) cs)

-- `out`, before it is sorted.
unfoldable pub collect : UnifyTasksSources → List UnifiedTask
unfolding redemption_approvals todo_approvals todo_rows routine_rows chore_rows rows_of_rewards
    group_from
collect s =
    redemption_approvals (or_else s.redemptions [])
    ++ (todo_approvals (or_else s.todos [])
        ++ (todo_rows (or_else s.todos [])
            ++ (routine_rows (or_else s.routines [])
                ++ (chore_rows s.members (or_else s.chores [])
                    ++ rows_of_rewards (group_from [] (or_else s.redemptions []))
                        (or_else s.rewards [])))))

-- `out.map((t, i) => ({ t, i }))`
unfoldable pub number_from : ℕ → List UnifiedTask → List (UnifiedTask × ℕ)
number_from i [] = []
number_from i (t ∷ ts) = (t, i) ∷ number_from (i + 1) ts

-- The comparator `b.t.priority - a.t.priority || a.i - b.i` is at most 0.
abbrev pub goes_before : UnifiedTask × ℕ → UnifiedTask × ℕ → Bool
goes_before a b = ltb b.0.priority a.0.priority || ((a.0.priority == b.0.priority) && leb a.1 b.1)

unfoldable pub by_urgency : List UnifiedTask → List UnifiedTask
unfolding number_from sort
by_urgency out = map (λ x. x.0) (sort goes_before (number_from 0 out))

unfoldable pub unify_tasks : UnifyTasksSources → List UnifiedTask
unfolding collect by_urgency
unify_tasks sources = by_urgency (collect sources)

abbrev pub owned_by : String → UnifiedTask → Bool
owned_by id t = elim t.member_id [ none ↦ false | some m ↦ str_eq m id ]

unfoldable pub filter_tasks_by_member : List UnifiedTask → Option String → List UnifiedTask
filter_tasks_by_member tasks none = tasks
filter_tasks_by_member tasks (some id) = if truthy id then keep (owned_by id) tasks else tasks
