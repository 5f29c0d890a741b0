-- ===== src/Month/Tests.antt =====
-- A month of 31 days whose first is a Thursday.
use mathlib.Core.List.{map}
use tidyboard.Prelude.{◌≡◌, refl, ◌%◌, keep, length, arith}
use tidyboard.Prelude.Int.{pos, negsuc}
use tidyboard.Month.{get_day, visible_cells, month_cell, month_cells}
use tidyboard.Month.Cells.{numbers, Aligned, month_cells-days}

-- The day 10 is a Thursday.
month_tests :
    (get_day 10 ≡ 4)
    × (visible_cells 4 31 ≡ 35)
    × (visible_cells 6 31 ≡ 42)
    × (visible_cells 0 28 ≡ 35)
    × ((month_cell 10 31 0).d ≡ negsuc 2)
    × ((month_cell 10 31 0).date ≡ 6)
    × ((month_cell 10 31 4).d ≡ pos 1)
month_tests = (refl, refl, refl, refl, refl, refl, refl)

month_cells-days_example :
    let cells = month_cells 10 31 in
    (map (λ c. c.d) (keep (λ c. c.cur) cells) ≡ numbers 1 31)
    × Aligned 0 cells
    × (length cells % 7 ≡ 0)
month_cells-days_example = month_cells-days 10 31 (omega arith)
