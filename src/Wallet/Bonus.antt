-- ===== src/Wallet/Bonus.antt =====
-- The streak bonus is a tenth of the week's total, rounded to the nearest cent.
use tidyboard.Prelude.{◌+◌, ◌*◌, ◌≤◌, ◌<◌, ◌≡◌, arith}
use tidyboard.Prelude.Int.{ℤ, pos, negsuc, pos_part, neg_part}
use tidyboard.Wallet.{streak_bonus}

-- The bonus is never negative, ten times the bonus differs from a week's total that is not negative
-- by at most 5 cents (a total of half a cent's bonus is rounded up), and a negative total has no
-- bonus.
pub streak_bonus-nearest :
    (total : ℤ)
    → (neg_part (streak_bonus total) ≡ 0)
      × (10 * pos_part (streak_bonus total) ≤ pos_part total + 5)
      × (pos_part total < 10 * pos_part (streak_bonus total) + 5)
unfolding streak_bonus
streak_bonus-nearest (pos n) = (ground arith, ground arith, ground arith)
streak_bonus-nearest (negsuc n) = (ground arith, ground arith, ground arith)
