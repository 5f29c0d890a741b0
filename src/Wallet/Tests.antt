-- ===== src/Wallet/Tests.antt =====
-- Runs of the payout arithmetic, and its theorems at a concrete week: two chores, one done daily.
use tidyboard.Prelude.{◌≤◌, ◌≡◌, refl, List, [], ◌∷◌, arith}
use tidyboard.Prelude.Int.{pos, negsuc, ◌+ℤ◌, ◌*ℤ◌}
use tidyboard.Types.{FrequencyKind}
use tidyboard.Wallet.{weekly_divisor, per_instance_payout, freq_per_week}
use tidyboard.Wallet.Budget.{Share, shares_divisor, paid, paid-le-allowance}

abbrev week : List Share
week =
    record { weight = pos 3; frequency = 7; done = 7 }
    ∷ record { weight = pos 2; frequency = 5; done = 5 }
    ∷ []

payout_tests :
    (weekly_divisor (pos 3 ∷ pos 2 ∷ []) (pos 7 ∷ negsuc 0 ∷ []) ≡ pos 21)
    × (per_instance_payout (pos 500) (pos 3) (pos 31) ≡ pos 48)
    × (freq_per_week FrequencyKind.weekdays [] ≡ 5)
unfolding weekly_divisor per_instance_payout freq_per_week ◌+ℤ◌ ◌*ℤ◌
payout_tests = (refl, refl, refl)

paid-le-allowance_example : paid (pos 500) (shares_divisor week) week ≤ 500
paid-le-allowance_example = paid-le-allowance (pos 500) week (omega arith)
