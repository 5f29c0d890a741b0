-- ===== src/Tasks/Groups.antt =====
-- The redemptions grouped by reward: the map that one pass builds answers as a filter does.
use mathlib.Core.List.{append-nil, append_assoc}
use tidyboard.Prelude.{
  ◌≡◌, refl, sym, ap, ◌∙◌, Bool, true, false, List, [], ◌∷◌, ◌++◌, String, str_eq, if◌then◌else◌,
  keep, arith, eq_iff, Bool-cases, inl, inr,
}
use tidyboard.Types.{ApiRedemption}
use tidyboard.Tasks.Rows.{Groups, get_group, push_group, group_from}

abbrev pub for_reward : String → List ApiRedemption → List ApiRedemption
for_reward id = keep (λ r. str_eq r.reward_id id)

append_in_branch :
    (b : Bool) (list rest : List ApiRedemption) (r : ApiRedemption)
    → (if b then list ++ r ∷ [] else rest)
      ≡ (if b then list else rest) ++ (if b then r ∷ [] else [])
append_in_branch true list rest r = refl
append_in_branch false list rest r = sym (append-nil rest)

other_reward :
    (key reward_id id : String)
    → str_eq key reward_id ≡ false
    → str_eq key id ≡ true
    → str_eq reward_id id ≡ false
other_reward key reward_id id h k =
    ground (arith, eq_iff key reward_id, eq_iff key id, eq_iff reward_id id)

get_group-push_group :
    (id : String) (r : ApiRedemption) (groups : Groups)
    → get_group id (push_group r groups) ≡ get_group id groups ++ for_reward id (r ∷ [])
unfolding get_group push_group
get_group-push_group id r [] = refl
get_group-push_group id r ((key, list) ∷ groups) = elim (Bool-cases (str_eq key r.reward_id)) [
  | inl hit ↦ rw hit (
      append_in_branch (str_eq key id) list (get_group id groups) r
      ∙ ap (λ x. get_group id ((key, list) ∷ groups) ++ (if str_eq x id then r ∷ [] else []))
          ((eq_iff key r.reward_id).0 hit))
  | inr miss ↦ elim (Bool-cases (str_eq key id)) [
    | inl e ↦
        rw (miss, get_group)
          (rw (e, other_reward key r.reward_id id miss e) (sym (append-nil list)))
    | inr e ↦ rw (miss, get_group) (rw e (get_group-push_group id r groups))
  ]
]

keep-singleton :
    (id : String) (r : ApiRedemption) (rs : List ApiRedemption)
    → for_reward id (r ∷ []) ++ for_reward id rs ≡ for_reward id (r ∷ rs)
keep-singleton id r rs = ground arith

get_group-group_from :
    (id : String) (groups : Groups) (rs : List ApiRedemption)
    → get_group id (group_from groups rs) ≡ get_group id groups ++ for_reward id rs
unfolding group_from
get_group-group_from id groups [] = sym (append-nil (get_group id groups))
get_group-group_from id groups (r ∷ rs) =
    get_group-group_from id (push_group r groups) rs
    ∙ rw (get_group-push_group id r groups, append_assoc, keep-singleton id r rs)

-- For every reward id and every list of redemptions, looking the id up in the map that the loop
-- builds gives exactly the redemptions of that reward, in input order; the empty list if none.
pub get_group-eq-filter :
    (id : String) (rs : List ApiRedemption) → get_group id (group_from [] rs) ≡ for_reward id rs
unfolding get_group
get_group-eq-filter id rs = get_group-group_from id [] rs
