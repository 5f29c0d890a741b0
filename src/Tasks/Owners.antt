-- ===== src/Tasks/Owners.antt =====
-- The owners of the feed's rows: pets, redemptions, and the view of one member.
use mathlib.Core.List.{
  Mem, mem-append_left, mem-append_right, mem-cons, mem-map_of_mem, not-mem-nil,
}
use mathlib.Core.List.Perm
use mathlib.Core.Logic.Or
use tidyboard.Prelude.{
  ◌≡◌, refl, ap, Bool, true, false, List, [], ◌∷◌, Option, some, or_else, All, arith, Option-cases,
  inl, inr, ◌⊎◌, String, str_eq, truthy, find, ◌↔◌, mem-keep_of_mem, mem-keep_iff, eq_iff, ◌||◌,
}
use tidyboard.Types.{ApiChore, ApiReward, ApiRedemption}
use tidyboard.Tasks.Shape.{
  UnifiedTask, UnifiedTaskKind, UnifyTasksSources, RosterMember, says_pet, is_pet_in, is_pet,
}
use tidyboard.Tasks.Rows.{
  redemption_approval, todo_approval, todo_row, routine_row, chore_row, catalog_row, redemption_row,
  reward_rows, rows_of_rewards, get_group, group_from, Groups,
}
use tidyboard.Tasks.Groups.{get_group-eq-filter}
use tidyboard.Tasks.Unify.{
  redemption_approvals, todo_approvals, todo_rows, routine_rows, chore_passes, chore_rows, collect,
  owned_by, unify_tasks, filter_tasks_by_member,
}
use tidyboard.Tasks.Order.{by_urgency-perm}
use tidyboard.Tasks.Feed.{unify_tasks-All}

-- The member of the roster that an id names is a pet.
abbrev pub IsPetMember : RosterMember → Type 0
IsPetMember m = (m.role ≡ some "pet") ⊎ (m.age_group ≡ some "pet")

-- No chore of the roster's member with this id is that of a pet.
abbrev pub NotPets : List RosterMember → Option String → Type 0
NotPets members owner =
    (id : String) (m : RosterMember)
    → owner ≡ some id
    → truthy id ≡ true
    → find (λ mm. str_eq mm.id id) members ≡ some m
    → ¬ IsPetMember m

-- The rule for one row: a chore is never a pet's.
abbrev pub NoPetChore : List RosterMember → UnifiedTask → Type 0
NoPetChore members t = t.kind ≡ UnifiedTaskKind.chore → NotPets members t.member_id

says_pet_of_IsPetMember :
    (m : RosterMember) → IsPetMember m → (says_pet m.role || says_pet m.age_group) ≡ true
says_pet_of_IsPetMember m (inl e) = rw e
says_pet_of_IsPetMember m (inr e) = rw e (or_true (says_pet m.role))
  where
    or_true : (b : Bool) → (b || true) ≡ true
    or_true true = refl
    or_true false = refl

is_pet_of_IsPetMember :
    (members : List RosterMember) (id : String) (m : RosterMember)
    → truthy id ≡ true
    → find (λ mm. str_eq mm.id id) members ≡ some m
    → IsPetMember m
    → is_pet (some members) (some id) ≡ true
unfolding is_pet
is_pet_of_IsPetMember members id m h f p = rw (h, f, is_pet_in) (says_pet_of_IsPetMember m p)

chore_row-NoPetChore :
    (members : List RosterMember) (c : ApiChore)
    → chore_passes (some members) c ≡ true
    → NoPetChore members (chore_row c)
unfolding chore_row chore_passes
chore_row-NoPetChore members c h k id m e t f p =
    let pet = is_pet_of_IsPetMember members id m t f p in
    let same : c.member_id ≡ id = ground arith in
    let owned : is_pet (some members) (some c.member_id) ≡ true = rw same pet in ground arith

-- When the roster is given, no chore in the feed is owned by a member that the roster's first entry
-- with its (non-empty) id marks as a pet, by role or by age group.
pub unify_tasks-NoPetChore :
    (s : UnifyTasksSources) (members : List RosterMember)
    → s.members ≡ some members
    → All (NoPetChore members) (unify_tasks s)
unfolding redemption_approval todo_approval todo_row routine_row catalog_row redemption_row
unify_tasks-NoPetChore s members e =
    unify_tasks-All (NoPetChore members) s (λ r. (λ k. cc)) (λ t. (λ k. cc)) (λ t. (λ k. cc))
      (λ r. (λ k. cc)) (λ c h. chore_row-NoPetChore members c (rw e at h)) (λ w. (λ k. cc))
      (λ w red. (λ k. cc))

for_reward-mem :
    (w : ApiReward) (red : ApiRedemption) (s : UnifyTasksSources)
    → Mem red (or_else s.redemptions [])
    → red.reward_id ≡ w.id
    → Mem red (get_group w.id (group_from [] (or_else s.redemptions [])))
for_reward-mem w red s m e =
    rw (get_group-eq-filter w.id (or_else s.redemptions []))
      (mem-keep_of_mem (λ r. str_eq r.reward_id w.id) red _ m ((eq_iff red.reward_id w.id).1 e))

reward_rows-mem :
    (w : ApiReward) (red : ApiRedemption) (reds : List ApiRedemption)
    → Mem red reds
    → Mem (redemption_row w red) (reward_rows w reds)
unfolding reward_rows
reward_rows-mem w red [] m = absurd (not-mem-nil m)
reward_rows-mem w red (x ∷ reds) m = mem-map_of_mem (redemption_row w) m

rows_of_rewards-mem :
    (groups : Groups) (w : ApiReward) (red : ApiRedemption) (ws : List ApiReward)
    → Mem w ws
    → w.active ≡ true
    → Mem red (get_group w.id groups)
    → Mem (redemption_row w red) (rows_of_rewards groups ws)
unfolding rows_of_rewards
rows_of_rewards-mem groups w red [] m a h = absurd (not-mem-nil m)
rows_of_rewards-mem groups w red (x ∷ ws) m a h =
    Or.elim squash₁ (mem-cons.0 m)
      (λ same.
        rw (← same, a)
          (mem-append_left (rows_of_rewards groups ws)
            (reward_rows-mem w red (get_group w.id groups) h)))
      (λ n. mem-append_right _ (rows_of_rewards-mem groups w red ws n a h))

-- Every redemption of an active reward has its own row in the feed, naming the member who redeemed:
-- whatever the redemption's status, a declined one included, and whoever the member is, a pet
-- included.
pub unify_tasks-redemptions :
    (s : UnifyTasksSources) (w : ApiReward) (red : ApiRedemption)
    → Mem w (or_else s.rewards [])
    → w.active ≡ true
    → Mem red (or_else s.redemptions [])
    → red.reward_id ≡ w.id
    → Mem (redemption_row w red) (unify_tasks s)
      × ((redemption_row w red).member_id ≡ some red.member_id)
unfolding unify_tasks redemption_row
unify_tasks-redemptions s w red m a n e = (
  (Perm.mem_iff (by_urgency-perm (collect s))).1 (
      unfold collect in
      mem-append_right (redemption_approvals (or_else s.redemptions [])) (
        mem-append_right (todo_approvals (or_else s.todos [])) (
          mem-append_right (todo_rows (or_else s.todos [])) (
            mem-append_right (routine_rows (or_else s.routines [])) (
              mem-append_right (chore_rows s.members (or_else s.chores [])) (
                rows_of_rewards-mem (group_from [] (or_else s.redemptions [])) w red _ m a
                  (for_reward-mem w red s n e))))))),
  refl,
)

owned_by_iff : (id : String) (t : UnifiedTask) → (owned_by id t ≡ true) ↔ (t.member_id ≡ some id)
owned_by_iff id t = elim (Option-cases t.member_id) [
  | inl e ↦ rw e (λ h. cc, λ h. cc)
  | inr (m, e) ↦ rw e (λ h. ap some ((eq_iff m id).0 h), λ h. (eq_iff m id).1 (ground arith))
]

-- The view of one member (with a non-empty id) holds exactly the rows of the feed that name that
-- member.
pub filter_tasks_by_member_iff :
    (tasks : List UnifiedTask) (id : String) (t : UnifiedTask)
    → truthy id ≡ true
    → Mem t (filter_tasks_by_member tasks (some id)) ↔ (Mem t tasks × (t.member_id ≡ some id))
unfolding filter_tasks_by_member
filter_tasks_by_member_iff tasks id t h =
    let (to, from) = mem-keep_iff (owned_by id) t tasks in
    let (own, owned) = owned_by_iff id t in
    rw h (λ m. ((to m).0, own (to m).1), λ p. from (p.0, owned p.1))
