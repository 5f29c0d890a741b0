-- ===== src/Agenda/Shown.antt =====
-- web/src/components/screens/calendar.tsx, `CalAgenda`: which events the groups show.
use mathlib.Core.List.Perm
use mathlib.Core.List.{Perm, perm_append_comm, append_assoc, append-nil, map}
use tidyboard.Prelude.{
  ◌≡◌, refl, ap, sym, subst, ◌∙◌, Bool, true, false, not, ◌||◌, ◌⊎◌, str_eq, any, or_else, List, [],
  ◌∷◌, ◌++◌, Option, none, some, String, truthy, if◌then◌else◌, keep, keep-append, Bool-cases, inl,
  inr,
}
use tidyboard.Prelude.Words.{trim, includes}
use tidyboard.Sort.{insert, sort, keep-perm}
use tidyboard.Shopping.Buckets.{Bucket, gather, everything, values, everything-gather}
use tidyboard.Agenda.{
  CalendarEvent, Dates, filter_events_by_member, Keyed, by_key, Group, group_of, groups_of,
  search_groups, matches, searched, has_items, groups,
}
use tidyboard.Agenda.Readable.{all_readable, keyed-Entries}

-- The events of all groups, in order.
abbrev pub shown : List Group → List CalendarEvent
shown [] = []
shown (g ∷ gs) = g.items ++ shown gs

module _ {T A : Type 0} (le : Bucket T A → Bucket T A → Bool) where
  everything-insert :
      (b : Bucket T A) (bs : List (Bucket T A))
      → Perm (everything (insert le b bs)) (b.items ++ everything bs)
  unfolding insert
  everything-insert b [] = Perm.rfl
  everything-insert b (c ∷ cs) = elim (Bool-cases (le b c)) [
    | inl e ↦ rw (e, insert) Perm.rfl
    | inr e ↦
        rw (e, insert)
          (Perm.trans (Perm.append_left c.items (everything-insert b cs)) (
            rw
              (
                ← append_assoc c.items b.items (everything cs),
                ← append_assoc b.items c.items (everything cs),
              )
              (Perm.append_right (everything cs) (perm_append_comm c.items b.items))))
  ]

  everything-sort : (bs : List (Bucket T A)) → Perm (everything (sort le bs)) (everything bs)
  unfolding sort
  everything-sort [] = Perm.rfl
  everything-sort (b ∷ bs) =
      Perm.trans (everything-insert b (sort le bs)) (Perm.append_left b.items (everything-sort bs))

shown-map :
    (d : Dates) (word today : String) (bs : List (Bucket (Unit {0}) CalendarEvent))
    → shown (map (group_of d word today) bs) ≡ everything bs
shown-map d word today [] = refl
shown-map d word today (b ∷ bs) = ap (λ es. b.items ++ es) (shown-map d word today bs)

groups_of-shown :
    (d : Dates) (word today : String) (entries : Keyed)
    → Perm (shown (groups_of d word today entries)) (values entries)
groups_of-shown d word today entries =
    let bs = gather entries [] in
    rw (shown-map d word today (sort (by_key d) bs)) (
      Perm.trans (everything-sort (by_key d) bs) (
        subst (λ es. Perm (everything bs) es) (append-nil (values entries))
          (everything-gather entries [])))

shown-has_items-cons :
    (g : Group) (gs : List Group)
    → shown (keep has_items gs) ≡ shown gs
    → (items : List CalendarEvent) → g.items ≡ items
    → shown (keep has_items (g ∷ gs)) ≡ shown (g ∷ gs)
shown-has_items-cons g gs ih [] e = rw e ih
shown-has_items-cons g gs ih (x ∷ xs) e = rw e (ap (λ es. x ∷ xs ++ es) ih)

shown-has_items : (gs : List Group) → shown (keep has_items gs) ≡ shown gs
shown-has_items [] = refl
shown-has_items (g ∷ gs) = shown-has_items-cons g gs (shown-has_items gs) g.items refl

shown-searched :
    (p : CalendarEvent → Bool) (gs : List Group) → shown (map (searched p) gs) ≡ keep p (shown gs)
shown-searched p [] = refl
shown-searched p (g ∷ gs) =
    ap (λ es. keep p g.items ++ es) (shown-searched p gs) ∙ sym (keep-append p g.items (shown gs))

search_groups-shown :
    (d : Dates) (query : String) (gs : List Group)
    → (let q = d.casing.lower (trim query) in
        shown (search_groups d query gs)
        ≡ (if truthy q then keep (matches d q) (shown gs) else shown gs))
search_groups-shown d query gs =
    let q = d.casing.lower (trim query) in
    elim (Bool-cases (truthy q)) [
      | inl e ↦
          rw e (shown-has_items (map (searched (matches d q)) gs) ∙ shown-searched (matches d q) gs)
      | inr e ↦ rw e refl
    ]

-- An event is assigned to the chosen member, if there is one; `members` counts where there are no
-- `assigned_members`.
abbrev pub is_assigned : Option String → CalendarEvent → Bool
is_assigned none e = true
is_assigned (some m) e = any (str_eq m) (or_else e.assigned_members (or_else e.members []))

-- The title or the location of an event has the search text, all in lower case, unless that is blank.
abbrev pub has_text : Dates → String → CalendarEvent → Bool
has_text d query e =
    let sought = d.casing.lower (trim query) in
    not (truthy sought)
    || (includes sought (d.casing.lower e.title)
        || includes sought (d.casing.lower (or_else e.location "")))

keep-same :
    (p q : CalendarEvent → Bool)
    → ((e : CalendarEvent) → p e ≡ q e)
    → (es : List CalendarEvent) → keep p es ≡ keep q es
keep-same p q h [] = refl
keep-same p q h (e ∷ es) = rw (h e, keep-same p q h es) refl

keep-every : (es : List CalendarEvent) → keep (λ _. true) es ≡ es
keep-every [] = refl
keep-every (e ∷ es) = ap (λ xs. e ∷ xs) (keep-every es)

passing-assigned :
    (events : List CalendarEvent) (member_filter : Option String)
    → filter_events_by_member events member_filter ≡ keep (is_assigned member_filter) events
passing-assigned events none = sym (keep-every events)
passing-assigned events (some m) = refl

search-has_text :
    (d : Dates) (query : String) (es : List CalendarEvent)
    → (let q = d.casing.lower (trim query) in
        (if truthy q then keep (matches d q) es else es) ≡ keep (has_text d query) es)
search-has_text d query es = elim (Bool-cases (truthy (d.casing.lower (trim query)))) [
  | inl e ↦ rw e (keep-same _ _ (λ x. rw e refl) es)
  | inr e ↦ rw e (sym (keep-same _ (λ _. true) (λ x. rw e refl) es ∙ keep-every es))
]

-- For any search text, member filter and list of events. Either the starts of all events that are assigned to
-- the chosen member (all events, if none is chosen) are dates, where one without a start, or with a clock
-- time only, has nothing to read; then the groups together show exactly those of them whose title or
-- location contains the search text, all in lower case, or all of them when it is blank, each as often as it
-- is in the list. Or the start of one of them is no date, and the screen throws.
pub groups-shown :
    (d : Dates) (word today query : String) (member_filter : Option String)
    (events : List CalendarEvent)
    → (let chosen = keep (is_assigned member_filter) events in
        let drawn = groups d word today query member_filter events in
        ((all_readable d chosen ≡ true)
          × ((gs : List Group) × ((drawn ≡ some gs)
                × Perm (shown gs) (keep (has_text d query) chosen))))
        ⊎ ((all_readable d chosen ≡ false) × (drawn ≡ none)))
groups-shown d word today query member_filter events =
    rw (← passing-assigned events member_filter) (
      let passing = filter_events_by_member events member_filter in
      elim (keyed-Entries d today passing) [
        | inr (r, p) ↦ inr (r, rw p refl)
        | inl (r, (entries, (p, v))) ↦
            let gs = groups_of d word today entries in
            inl (
              r,
              (
                search_groups d query gs,
                (
                  rw p refl,
                  rw (search_groups-shown d query gs, search-has_text d query (shown gs))
                      (keep-perm (has_text d query) (shown gs) passing (
                        subst (λ es. Perm (shown gs) es) v (groups_of-shown d word today entries))),
                ),
              ),
            )
      ])
