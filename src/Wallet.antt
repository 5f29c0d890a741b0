-- ===== src/Wallet.antt =====
-- web/src/lib/wallet/payout-math.ts, and the weekly frequency of a chore in
-- web/src/components/screens/chores-kid.tsx. Amounts are whole cents and weights whole numbers, so a
-- quotient of two numbers below 2^53 has the floor that integer division gives.
pub mod Budget
pub mod Bonus
mod Tests
use tidyboard.Prelude.{
  ℕ, suc, ◌+◌, ◌*◌, ◌/◌, Bool, ◌||◌, List, [], ◌∷◌, ◌==◌, if◌then◌else◌, length, String, not, leb,
}
use tidyboard.Prelude.Int.{ℤ, pos, negsuc, pos_part, neg_part, ◌+ℤ◌, ◌*ℤ◌, ltb_ℤ}
use tidyboard.Types.{FrequencyKind}

-- The loop of `weeklyDivisor`; the lists have the same length.
divisor_loop : ℤ → List ℤ → List ℤ → ℤ
divisor_loop d (w ∷ ws) (f ∷ fs) =
    divisor_loop (if ltb_ℤ w (pos 0) || ltb_ℤ f (pos 0) then d else d +ℤ w *ℤ f) ws fs
divisor_loop d _ _ = d

unfoldable pub weekly_divisor : List ℤ → List ℤ → ℤ
unfolding divisor_loop
weekly_divisor weights frequencies =
    if length weights == length frequencies then divisor_loop (pos 0) weights frequencies else pos 0

-- x ≤ 0
abbrev not_positive : ℤ → Bool
not_positive x = not (ltb_ℤ (pos 0) x)

-- Past the guard all three are positive, and `Math.floor` of their quotient is the integer quotient.
unfoldable pub per_instance_payout : ℤ → ℤ → ℤ → ℤ
per_instance_payout allowance weight divisor =
    if not_positive allowance || (not_positive weight || not_positive divisor)
    then pos 0
    else pos (pos_part allowance * pos_part weight / pos_part divisor)

unfoldable pub streak_bonus : ℤ → ℤ
streak_bonus total = if not_positive total then pos 0 else pos ((pos_part total + 5) / 10)

-- `freqPerWeek` of chores-kid.tsx.
unfoldable pub freq_per_week : FrequencyKind → List String → ℕ
freq_per_week FrequencyKind.daily days = 7
freq_per_week FrequencyKind.weekdays days = 5
freq_per_week FrequencyKind.specific_days days = length days
freq_per_week FrequencyKind.weekly days = 1
freq_per_week FrequencyKind.unknown days = 0
