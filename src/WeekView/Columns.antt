-- ===== src/WeekView/Columns.antt =====
-- web/src/components/screens/calendar.tsx, `CalWeek`: which events the columns of a week have.
use mathlib.Core.List.Perm
use mathlib.Core.List.{Perm, perm_middle}
use mathlib.Core.Bool.{false≢true}
use tidyboard.Prelude.{
  ◌≡◌, refl, ℕ, zero, suc, ◌+◌, ◌≤◌, ◌<◌, Bool, true, false, ◌&&◌, ◌||◌, List, [], ◌∷◌, ◌++◌,
  Option, none, some, keep, leb, ltb, All, All-keep, ap, or_else, is_some, ==_iff, Bool-cases, inl,
  inr, arith,
}
use tidyboard.Sort.{Sorted, sort, sort-perm, sort-All, sort-Sorted, sort-agree}
use tidyboard.Agenda.{CalendarEvent}
use tidyboard.Month.{get_day}
use tidyboard.WeekView.{
  LocalTimes, week_start, start_day, is_day, time_of, earlier, Column, columns_from, columns,
}

-- The date lies among the k days from d on.
abbrev pub is_within : ℕ → ℕ → Option ℕ → Bool
is_within d k none = false
is_within d k (some n) = leb d n && ltb n (d + k)

abbrev pub shown : List Column → List CalendarEvent
shown [] = []
shown (c ∷ cs) = c.events ++ shown cs

within_suc :
    (d k : ℕ) (o : Option ℕ) → is_within d (suc k) o ≡ (is_day d o || is_within (d + 1) k o)
within_suc d k none = refl
within_suc d k (some n) = ground arith

never_both : (d k : ℕ) (o : Option ℕ) → is_day d o ≡ true → is_within (d + 1) k o ≡ false
never_both d k none h = refl
never_both d k (some n) h = ground arith

within_zero : (d : ℕ) (o : Option ℕ) → is_within d 0 o ≡ false
within_zero d none = refl
within_zero d (some n) = ground arith

keep_none {ℓ} :
    {A : Type ℓ} (p : A → Bool) → ((x : A) → p x ≡ false) → (xs : List A) → keep p xs ≡ []
keep_none p h [] = refl
keep_none p h (x ∷ xs) = rw (h x) (keep_none p h xs)

keep-or {ℓ} :
    {A : Type ℓ} (r p q : A → Bool)
    → ((x : A) → r x ≡ (p x || q x))
    → ((x : A) → p x ≡ true → q x ≡ false)
    → (xs : List A) → Perm (keep p xs ++ keep q xs) (keep r xs)
keep-or r p q e n [] = Perm.rfl
keep-or r p q e n (x ∷ xs) = elim (Bool-cases (p x)) [
  | inl h ↦ rw (e x, h, n x h) (Perm.cons x (keep-or r p q e n xs))
  | inr h ↦ elim (Bool-cases (q x)) [
    | inl k ↦
        rw (e x, h, k)
          (Perm.trans (perm_middle {a = x} (keep p xs) (keep q xs))
            (Perm.cons x (keep-or r p q e n xs)))
    | inr k ↦ rw (e x, h, k) (keep-or r p q e n xs)
  ]
]

-- Both times are numbers, and the first is no later.
abbrev pub NoLater : Option ℕ → Option ℕ → Type 0
NoLater (some m) (some n) = m ≤ n
NoLater _ _ = ⊥

abbrev pub Ascending : LocalTimes → List CalendarEvent → Type 0
Ascending t [] = Unit
Ascending t (e ∷ es) = All (λ f. NoLater (time_of t e) (time_of t f)) es × Ascending t es

-- The events of a column start on its date, the earlier ones first.
abbrev pub InOrder : LocalTimes → Column → Type 0
InOrder t c = All (λ e. start_day t e ≡ some c.col_date) c.events × Ascending t c.events

abbrev pub HasTime : LocalTimes → CalendarEvent → Type 0
HasTime t e = is_some (time_of t e) ≡ true

is_day-some : (d : ℕ) (o : Option ℕ) → is_day d o ≡ true → o ≡ some d
is_day-some d none h = absurd (false≢true h)
is_day-some d (some n) h = ap some ((==_iff n d).0 h)

keep-day :
    (t : LocalTimes) (d : ℕ) (xs : List CalendarEvent)
    → All (λ e. start_day t e ≡ some d) (keep (λ e. is_day d (start_day t e)) xs)
keep-day t d [] = tt
keep-day t d (x ∷ xs) = elim (Bool-cases (is_day d (start_day t x))) [
  | inl h ↦ rw h (is_day-some d (start_day t x) h, keep-day t d xs)
  | inr h ↦ rw h (keep-day t d xs)
]

-- The order of the times when all are numbers.
abbrev by_time : LocalTimes → CalendarEvent → CalendarEvent → Bool
by_time t a b = leb (or_else (time_of t a) 0) (or_else (time_of t b) 0)

earlier-by_time :
    (t : LocalTimes) (a b : CalendarEvent)
    → HasTime t a
    → HasTime t b
    → earlier t a b ≡ by_time t a b
earlier-by_time t a b h k = ground arith

by_time-NoLater :
    (t : LocalTimes) (a b : CalendarEvent)
    → HasTime t a
    → HasTime t b
    → by_time t a b ≡ true
    → NoLater (time_of t a) (time_of t b)
by_time-NoLater t a b h k e = ground arith

All-NoLater :
    (t : LocalTimes) (a : CalendarEvent) (xs : List CalendarEvent)
    → HasTime t a
    → All (HasTime t) xs
    → All (λ b. by_time t a b ≡ true) xs
    → All (λ b. NoLater (time_of t a) (time_of t b)) xs
All-NoLater t a [] h ks es = tt
All-NoLater t a (b ∷ xs) h (k, ks) (e, es) =
    (by_time-NoLater t a b h k e, All-NoLater t a xs h ks es)

Sorted→Ascending :
    (t : LocalTimes) (xs : List CalendarEvent)
    → All (HasTime t) xs
    → Sorted (by_time t) xs
    → Ascending t xs
Sorted→Ascending t [] h k = tt
Sorted→Ascending t (x ∷ xs) (h, hs) (k, ks) =
    (All-NoLater t x xs h hs k, Sorted→Ascending t xs hs ks)

sort-Ascending :
    (t : LocalTimes) (xs : List CalendarEvent)
    → All (HasTime t) xs
    → Ascending t (sort (earlier t) xs)
sort-Ascending t xs h =
    rw (sort-agree (earlier t) (by_time t) (HasTime t) (earlier-by_time t) xs h) (
      Sorted→Ascending t (sort (by_time t) xs) (sort-All (by_time t) (HasTime t) xs h)
        (sort-Sorted (by_time t) (λ a b e. ground arith) (λ a b c e k. ground arith) xs))

module _ (t : LocalTimes) (today : ℕ) (events : List CalendarEvent) where
  columns_from-shown :
      (d k : ℕ)
      → Perm
          (shown (columns_from t today events d k))
          (keep (λ e. is_within d k (start_day t e)) events)
  columns_from-shown d zero = rw (keep_none _ (λ e. within_zero d (start_day t e)) events) Perm.rfl
  columns_from-shown d (suc k) =
      let here = keep (λ e. is_day d (start_day t e)) events in
      let later = shown (columns_from t today events (d + 1) k) in
      Perm.trans (Perm.append_right later (sort-perm (earlier t) here)) (
        Perm.trans (Perm.append_left here (columns_from-shown (d + 1) k)) (
          keep-or (λ e. is_within d (suc k) (start_day t e)) (λ e. is_day d (start_day t e))
            (λ e. is_within (d + 1) k (start_day t e)) (λ e. within_suc d k (start_day t e))
            (λ e. never_both d k (start_day t e)) events))

  columns_from-InOrder :
      (d k : ℕ) → All (HasTime t) events → All (InOrder t) (columns_from t today events d k)
  columns_from-InOrder d zero h = tt
  columns_from-InOrder d (suc k) h =
      let here = keep (λ e. is_day d (start_day t e)) events in
      (
        (
          sort-All (earlier t) (λ e. start_day t e ≡ some d) here (keep-day t d events),
          sort-Ascending t here (All-keep (HasTime t) _ events h),
        ),
        columns_from-InOrder (d + 1) k h,
      )

  -- The week of a day (from the second week on, where the numbers of the days begin), with events whose start
  -- times `toFractionalHours` reads as numbers: the week begins on a Sunday and has the day; its columns
  -- together have exactly the events that start within its seven days, each as often as it is in the list;
  -- and each column has events of its own date only, whose times ascend.
  pub columns-shown :
      7 ≤ today
      → All (HasTime t) events
      → (let start = week_start today in
          let cols = columns t today events start in
          ((get_day start ≡ 0) × (start ≤ today) × (today < start + 7))
          × (Perm (shown cols) (keep (λ e. is_within start 7 (start_day t e)) events)
              × All (InOrder t) cols))
  columns-shown h times = (
    (omega arith, omega arith, omega arith),
    (columns_from-shown (week_start today) 7, columns_from-InOrder (week_start today) 7 times),
  )
