-- ===== src/Month.antt =====
-- web/src/components/screens/calendar.tsx, `CalMonth`: the cells of a month. A date is its number of days
-- since Monday, January 1st of the year 1.
mod Cells
mod Tests
use tidyboard.Prelude.{ℕ, zero, suc, ◌+◌, ◌-◌, ◌*◌, ◌/◌, ◌%◌, max, Bool, ◌&&◌, List, [], ◌∷◌, leb}
use tidyboard.Prelude.Int.{ℤ, sub_ℕ}

-- A cell: the number of its day within the month, which is 0 or less before the first day, whether it is
-- of the month, and its date.
pub record MonthCell : Type 0 where
  pub d : ℤ
  pub cur : Bool
  pub date : ℕ

-- `getDay()`: 0 is Sunday.
abbrev pub get_day : ℕ → ℕ
get_day date = (date + 1) % 7

-- `Math.max(35, Math.ceil((firstWeekday + daysInMonth) / 7) * 7)`
abbrev pub visible_cells : ℕ → ℕ → ℕ
visible_cells first_weekday days_in_month = max 35 ((first_weekday + days_in_month + 6) / 7 * 7)

-- The cell of an index, for the first day of the month: `dayNum` is `i - firstWeekday + 1`, and
-- `setDate(dayNum)` counts from that first day, over the ends of the month. `dayNum >= 1` and
-- `dayNum <= daysInMonth` are written without the subtraction.
abbrev pub month_cell : ℕ → ℕ → ℕ → MonthCell
month_cell anchor days_in_month i =
    let first_weekday = get_day anchor in
    record {
      d = sub_ℕ (i + 1) first_weekday;
      cur = leb (first_weekday + 1) (i + 1) && leb (i + 1) (days_in_month + first_weekday);
      date = anchor + i - first_weekday;
    }

-- The loop from an index on, for so many cells.
abbrev pub cells_from : ℕ → ℕ → ℕ → ℕ → List MonthCell
cells_from anchor days_in_month i zero = []
cells_from anchor days_in_month i (suc k) =
    month_cell anchor days_in_month i ∷ cells_from anchor days_in_month (i + 1) k

abbrev pub month_cells : ℕ → ℕ → List MonthCell
month_cells anchor days_in_month =
    cells_from anchor days_in_month 0 (visible_cells (get_day anchor) days_in_month)
