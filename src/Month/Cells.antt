-- ===== src/Month/Cells.antt =====
-- web/src/components/screens/calendar.tsx, `CalMonth`: each day of the month has one cell, in the column of
-- its weekday.
use mathlib.Core.List.{map}
use tidyboard.Prelude.{
  ◌≡◌, ◌∙◌, refl, ap, ap₂, sym, ltb, ℕ, zero, suc, ◌+◌, ◌-◌, ◌%◌, ◌≤◌, ◌<◌, max, min, Bool, true,
  false, ◌&&◌, List, [], ◌∷◌, leb, keep, length, Bool-cases, inl, inr, arith,
}
use tidyboard.Prelude.Int.{ℤ, pos, sub_ℕ}
use tidyboard.Month.{MonthCell, get_day, visible_cells, cells_from, month_cells}

-- So many numbers from a number on.
abbrev pub numbers : ℕ → ℕ → List ℤ
numbers a zero = []
numbers a (suc k) = pos a ∷ numbers (a + 1) k

-- The cells of a list, from an index on, are in the columns of their weekdays.
abbrev pub Aligned : ℕ → List MonthCell → Type 0
Aligned i [] = Unit
Aligned i (c ∷ cs) = (get_day c.date ≡ i % 7) × Aligned (i + 1) cs

weekday : (anchor i : ℕ) → 6 ≤ anchor → get_day (anchor + i - get_day anchor) ≡ i % 7
weekday anchor i h = ground arith

cells_from-Aligned : (anchor n i k : ℕ) → 6 ≤ anchor → Aligned i (cells_from anchor n i k)
cells_from-Aligned anchor n i zero h = tt
cells_from-Aligned anchor n i (suc k) h =
    (weekday anchor i h, cells_from-Aligned anchor n (i + 1) k h)

length-cells_from : (anchor n i k : ℕ) → length (cells_from anchor n i k) ≡ k
length-cells_from anchor n i zero = refl
length-cells_from anchor n i (suc k) = ap suc (length-cells_from anchor n (i + 1) k)

-- The first day and the number of days of the month among the cells of some indices.
abbrev first_of : ℕ → ℕ → ℕ
first_of f i = max i f + 1 - f

abbrev count_of : ℕ → ℕ → ℕ → ℕ → ℕ
count_of f n i k = min (i + k) (f + n) - max i f

abbrev days_of : List MonthCell → List ℤ
days_of cs = map (λ c. c.d) (keep (λ c. c.cur) cs)

none_left : (f n i : ℕ) → count_of f n i 0 ≡ 0
none_left f n i = ground arith

abbrev in_month : ℕ → ℕ → ℕ → Bool
in_month f n i = leb (f + 1) (i + 1) && leb (i + 1) (n + f)

counted :
    (f n i k : ℕ) → in_month f n i ≡ true → count_of f n i (suc k) ≡ suc (count_of f n (i + 1) k)
counted f n i k e = ground arith

day_of : (f n i : ℕ) → in_month f n i ≡ true → sub_ℕ (i + 1) f ≡ pos (first_of f i)
day_of f n i e = ground arith

next_day : (f n i : ℕ) → in_month f n i ≡ true → first_of f (i + 1) ≡ first_of f i + 1
next_day f n i e = ground arith

before_month : (f i : ℕ) → ltb i f ≡ true → first_of f (i + 1) ≡ first_of f i
before_month f i e = ground arith

skipped : (f n i k : ℕ) → in_month f n i ≡ false → count_of f n (i + 1) k ≡ count_of f n i (suc k)
skipped f n i k e = ground arith

over : (f n i k : ℕ) → in_month f n i ≡ false → ltb i f ≡ false → count_of f n i (suc k) ≡ 0
over f n i k e q = ground arith

skip_days :
    (f n i k : ℕ)
    → in_month f n i ≡ false
    → numbers (first_of f (i + 1)) (count_of f n (i + 1) k)
      ≡ numbers (first_of f i) (count_of f n i (suc k))
skip_days f n i k e = elim (Bool-cases (ltb i f)) [
  | inl q ↦ ap₂ numbers (before_month f i q) (skipped f n i k e)
  | inr q ↦
      ap (numbers (first_of f (i + 1))) (skipped f n i k e ∙ over f n i k e q)
      ∙ sym (ap (numbers (first_of f i)) (over f n i k e q))
]

kept_days :
    (anchor n i k : ℕ)
    → days_of (cells_from anchor n i k)
      ≡ numbers (first_of (get_day anchor) i) (count_of (get_day anchor) n i k)
kept_days anchor n i zero =
    sym (ap (numbers (first_of (get_day anchor) i)) (none_left (get_day anchor) n i))
kept_days anchor n i (suc k) =
    let f = get_day anchor in
    elim (Bool-cases (in_month f n i)) [
      | inl e ↦ rw e (
          ap₂ ◌∷◌ (day_of f n i e) (
            kept_days anchor n (i + 1) k
            ∙ ap (λ a. numbers a (count_of f n (i + 1) k)) (next_day f n i e))
          ∙ sym (ap (numbers (first_of f i)) (counted f n i k e)))
      | inr e ↦ rw e (kept_days anchor n (i + 1) k ∙ skip_days f n i k e)
    ]

whole_month : (f n : ℕ) → f < 7 → count_of f n 0 (visible_cells f n) ≡ n
whole_month f n h = ground arith

whole_weeks : (f n : ℕ) → visible_cells f n % 7 ≡ 0
whole_weeks f n = ground arith

-- For every month: the cells that are of the month have the days 1, 2, … up to the last in this order; each
-- cell stands in the column of its date's weekday, Sunday first; and the cells fill whole weeks.
pub month_cells-days :
    (anchor days_in_month : ℕ)
    → 6 ≤ anchor
    → (let cells = month_cells anchor days_in_month in
        (map (λ c. c.d) (keep (λ c. c.cur) cells) ≡ numbers 1 days_in_month)
        × Aligned 0 cells
        × (length cells % 7 ≡ 0))
month_cells-days anchor n h =
    let f = get_day anchor in
    let k = visible_cells f n in
    (
      kept_days anchor n 0 k ∙ ap₂ numbers (first_day f) (whole_month f n (ground arith)),
      cells_from-Aligned anchor n 0 k h,
      ap (λ l. l % 7) (length-cells_from anchor n 0 k) ∙ whole_weeks f n,
    )
  where
    first_day : (f : ℕ) → first_of f 0 ≡ 1
    first_day f = ground arith
