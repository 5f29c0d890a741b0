-- ===== src/EventForm/Overlap.antt =====
-- web/src/components/screens/calendar.tsx, `EventModal`: when the form warns of another event.
use tidyboard.Prelude.{
  ◌≡◌, refl, ◌↔◌, Bool, true, false, ◌&&◌, List, [], ◌∷◌, Option, none, some, String, truthy, keep,
  take, All, Bool-cases, inl, inr, arith,
}
use tidyboard.Prelude.Int.{ℤ, ltb_ℤ, ◌≤ℤ◌}
use tidyboard.EventForm.{Dates, ListedEvent, Fields, span, meets, is_own, is_conflict, conflicts}

-- The moment t lies in a time span, whose end does not belong to it.
abbrev pub Within : ℤ → ℤ × ℤ → Type 0
Within t (s, e) = (s ≤ℤ t) × (ltb_ℤ t e ≡ true)

-- A listed event has a time span, and some moment lies in it and in the draft's.
abbrev pub Clashes : Dates → ℤ × ℤ → ListedEvent → Type 0
Clashes d draft e =
    (times : ℤ × ℤ) × ((span d e ≡ some times) × ((t : ℤ) × (Within t draft × Within t times)))

-- No event ends before it has begun, or when it begins.
abbrev pub Forward : Option (ℤ × ℤ) → Type 0
Forward none = Unit
Forward (some (s, en)) = ltb_ℤ s en ≡ true

abbrev pub Proper : Dates → ListedEvent → Type 0
Proper d e = Forward (span d e)

later-Within :
    (ds de s en : ℤ)
    → ltb_ℤ ds de ≡ true
    → ltb_ℤ s en ≡ true
    → (ltb_ℤ s de && ltb_ℤ ds en) ≡ true
    → (t : ℤ) × (Within t (ds, de) × Within t (s, en))
later-Within ds de s en p q h = elim (Bool-cases (ltb_ℤ s ds)) [
  | inl e ↦ (ds, ((ground arith, p), (ground arith, ground arith)))
  | inr e ↦ (s, ((ground arith, ground arith), (ground arith, q)))
]

Within-meets :
    (ds de s en t : ℤ) → Within t (ds, de) → Within t (s, en) → (ltb_ℤ s de && ltb_ℤ ds en) ≡ true
Within-meets ds de s en t (a, b) (c, e) = ground arith

meets-Clashes :
    (d : Dates) (ds de : ℤ) (e : ListedEvent)
    → ltb_ℤ ds de ≡ true
    → (o : Option (ℤ × ℤ)) → span d e ≡ o
    → Forward o
    → meets (ds, de) o ≡ true
    → Clashes d (ds, de) e
meets-Clashes d ds de e p none h proper m = ground arith
meets-Clashes d ds de e p (some (s, en)) h proper m =
    ((s, en), (h, later-Within ds de s en p proper m))

Clashes-meets :
    (d : Dates) (ds de : ℤ) (e : ListedEvent)
    → Clashes d (ds, de) e
    → meets (ds, de) (span d e) ≡ true
Clashes-meets d ds de e ((s, en), (h, (t, (a, b)))) = rw h (Within-meets ds de s en t a b)

is_conflict_iff :
    (d : Dates) (own : Option String) (ds de : ℤ) (e : ListedEvent)
    → ltb_ℤ ds de ≡ true
    → Proper d e
    → (is_conflict d own (ds, de) e ≡ true) ↔ ((is_own own e ≡ false) × Clashes d (ds, de) e)
is_conflict_iff d own ds de e p proper = (to, from)
  where
    to : is_conflict d own (ds, de) e ≡ true → (is_own own e ≡ false) × Clashes d (ds, de) e
    to h = elim (Bool-cases (is_own own e)) [
      | inl o ↦ ground arith
      | inr o ↦ (o, meets-Clashes d ds de e p (span d e) refl proper (rw o at h))
    ]

    from : (is_own own e ≡ false) × Clashes d (ds, de) e → is_conflict d own (ds, de) e ≡ true
    from (o, c) = rw o (Clashes-meets d ds de e c)

All-imp {ℓ} :
    {A : Type ℓ} (P Q : A → Type 0) → ((x : A) → P x → Q x) → (xs : List A) → All P xs → All Q xs
All-imp P Q f [] h = tt
All-imp P Q f (x ∷ xs) (p, h) = (f x p, All-imp P Q f xs h)

-- For a draft whose two texts are dates, the start before the end, and events none of which ends before or
-- when it begins: the warning lists, in the order of the events, the first three that are not the edited
-- one and share some moment with the draft.
pub conflicts-Clashes :
    (d : Dates) (own : Option String) (f : Fields) (events : List ListedEvent) (ds de : ℤ)
    → truthy f.start ≡ true
    → truthy f.end ≡ true
    → d.time_of f.start ≡ some ds
    → d.time_of f.end ≡ some de
    → ltb_ℤ ds de ≡ true
    → All (Proper d) events
    → (test : ListedEvent → Bool) × ((conflicts d own f (some events) ≡ take 3 (keep test events))
        × All (λ e. (test e ≡ true) ↔ ((is_own own e ≡ false) × Clashes d (ds, de) e)) events)
conflicts-Clashes d own f events ds de gs ge hs he p proper = (
  is_conflict d own (ds, de),
  (rw (gs, ge, hs, he, p) refl, All-imp _ _ (λ e. is_conflict_iff d own ds de e p) events proper),
)
