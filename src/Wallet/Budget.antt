-- ===== src/Wallet/Budget.antt =====
-- A week's payouts against the allowance that they are cut from.
use native.Mathlib.Nat.{
  div-mul-le_self, le_of_mul-le-mul_right, mul-le-mul_left, mul-le-mul, lt-div-mul-add,
}
use tidyboard.Prelude.{
  ℕ, zero, suc, ◌+◌, ◌*◌, ◌≤◌, ◌<◌, ◌≡◌, refl, ◌||◌, ap, ◌∙◌, List, [], ◌∷◌, map, arith, ==_iff,
  if◌then◌else◌, length-map, sym,
}
use tidyboard.Prelude.Int.{ℤ, pos, negsuc, pos_part, ◌+ℤ◌, ◌*ℤ◌, ltb_ℤ}
use tidyboard.Wallet.{divisor_loop, weekly_divisor, per_instance_payout}

-- A member's chore in one week: its weight, how often it is due, and how often it was done.
pub record Share : Type 0 where
  pub weight : ℤ
  pub frequency : ℕ
  pub done : ℕ

abbrev pub shares_divisor : List Share → ℤ
shares_divisor shares =
    weekly_divisor (map (λ s. s.weight) shares) (map (λ s. pos s.frequency) shares)

-- What the week's completions pay, in cents.
abbrev pub paid : ℤ → ℤ → List Share → ℕ
paid allowance divisor [] = 0
paid allowance divisor (s ∷ shares) =
    s.done * pos_part (per_instance_payout allowance s.weight divisor)
    + paid allowance divisor shares

-- No chore is done more often than it is due.
abbrev pub WithinDue : List Share → Type 0
WithinDue [] = Unit
WithinDue (s ∷ shares) = (s.done ≤ s.frequency) × WithinDue shares

-- The divisor as a plain sum over the positive weights.
abbrev weighted : List Share → ℕ
weighted [] = 0
weighted (s ∷ shares) = pos_part s.weight * s.frequency + weighted shares

divisor_step :
    (d : ℕ) (w : ℤ) (f : ℕ)
    → (if ltb_ℤ w (pos 0) || ltb_ℤ (pos f) (pos 0) then pos d else pos d +ℤ w *ℤ pos f)
      ≡ pos (d + pos_part w * f)
unfolding ◌+ℤ◌ ◌*ℤ◌
divisor_step d (pos n) f = ground arith
divisor_step d (negsuc n) f = ground arith

divisor_loop-weighted :
    (d : ℕ) (shares : List Share)
    → divisor_loop (pos d) (map (λ s. s.weight) shares) (map (λ s. pos s.frequency) shares)
      ≡ pos (d + weighted shares)
unfolding divisor_loop
divisor_loop-weighted d [] = ap pos (omega arith)
divisor_loop-weighted d (s ∷ shares) =
    ap (λ e. divisor_loop e (map (λ s'. s'.weight) shares) (map (λ s'. pos s'.frequency) shares))
      (divisor_step d s.weight s.frequency)
    ∙ divisor_loop-weighted (d + pos_part s.weight * s.frequency) shares
    ∙ ap pos (omega arith)

payout-le :
    (a d : ℕ) (w : ℤ) → pos_part (per_instance_payout (pos a) w (pos d)) * d ≤ a * pos_part w
unfolding per_instance_payout
payout-le a d (pos n) = ground (arith, div-mul-le_self (a * n) d)
payout-le a d (negsuc n) = ground arith

-- Of a positive allowance over a positive divisor a cent at most is lost.
payout-near :
    (a d : ℕ) (w : ℤ)
    → 0 < a
    → 0 < d
    → a * pos_part w ≤ (pos_part (per_instance_payout (pos a) w (pos d)) + 1) * d
unfolding per_instance_payout
payout-near a d (pos n) ha h = ground (arith, lt-div-mul-add {a = a * n} h)
payout-near a d (negsuc n) ha h = ground arith

share-le : (k f p w a d : ℕ) → k ≤ f → p * d ≤ a * w → k * p * d ≤ a * (w * f)
share-le k f p w a d h g = omega (arith, mul-le-mul h g)

paid-le_weighted :
    (a d : ℕ) (shares : List Share)
    → WithinDue shares
    → paid (pos a) (pos d) shares * d ≤ a * weighted shares
paid-le_weighted a d [] h = omega arith
paid-le_weighted a d (s ∷ shares) (h, hs) = omega (
  arith,
  share-le s.done s.frequency (pos_part (per_instance_payout (pos a) s.weight (pos d)))
      (pos_part s.weight) a d h (payout-le a d s.weight),
  paid-le_weighted a d shares hs,
)

no_payout : (a w : ℤ) (d : ℕ) → pos_part a ≡ 0 → pos_part (per_instance_payout a w (pos d)) ≡ 0
unfolding per_instance_payout
no_payout (pos zero) w d h = ground arith
no_payout (pos (suc n)) w d h = absurd (omega (arith, h))
no_payout (negsuc n) w d h = ground arith

paid-eq-zero : (a : ℤ) (d : ℕ) (shares : List Share) → pos_part a ≡ 0 → paid a (pos d) shares ≡ 0
paid-eq-zero a d [] h = refl
paid-eq-zero a d (s ∷ shares) h =
    rw (no_payout a s.weight d h, paid-eq-zero a d shares h) (omega arith)

no_divisor : (a w : ℤ) → pos_part (per_instance_payout a w (pos 0)) ≡ 0
unfolding per_instance_payout
no_divisor a w = ground arith

paid-no_divisor : (a : ℤ) (shares : List Share) → paid a (pos 0) shares ≡ 0
paid-no_divisor a [] = refl
paid-no_divisor a (s ∷ shares) = rw (no_divisor a s.weight, paid-no_divisor a shares) (omega arith)

shares_divisor-weighted : (shares : List Share) → shares_divisor shares ≡ pos (weighted shares)
unfolding weekly_divisor
shares_divisor-weighted shares =
    rw
      ((==_iff _ _).1
        (length-map (λ s. s.weight) shares ∙ sym (length-map (λ s. pos s.frequency) shares)))
      (divisor_loop-weighted 0 shares ∙ ap pos (omega arith))

paid-le_of_weighted :
    (a : ℕ) (d : ℕ) (shares : List Share)
    → d ≡ weighted shares
    → WithinDue shares
    → paid (pos a) (pos d) shares ≤ a
paid-le_of_weighted a zero shares e h = rw (paid-no_divisor (pos a) shares) (omega arith)
paid-le_of_weighted a (suc d) shares e h =
    le_of_mul-le-mul_right (rw (← e) at (paid-le_weighted a (suc d) shares h)) (omega arith)

-- For every allowance and every week in which no chore is done more often than it is due, the
-- payouts of the week's completions, at the divisor of that week's chores, sum to at most the
-- allowance, and to nothing if the allowance is negative.
pub paid-le-allowance :
    (allowance : ℤ) (shares : List Share)
    → WithinDue shares
    → paid allowance (shares_divisor shares) shares ≤ pos_part allowance
paid-le-allowance (pos a) shares h =
    rw (shares_divisor-weighted shares) (paid-le_of_weighted a (weighted shares) shares refl h)
paid-le-allowance (negsuc a) shares h =
    rw (shares_divisor-weighted shares, paid-eq-zero (negsuc a) (weighted shares) shares refl)
      (omega arith)

-- Every chore is done as often as it is due.
abbrev pub AllDone : List Share → Type 0
AllDone [] = Unit
AllDone (s ∷ shares) = (s.done ≡ s.frequency) × AllDone shares

abbrev pub instances : List Share → ℕ
instances [] = 0
instances (s ∷ shares) = s.frequency + instances shares

share-near : (k p w a d : ℕ) → a * w ≤ (p + 1) * d → a * (w * k) ≤ (k * p + k) * d
share-near k p w a d g = omega (arith, mul-le-mul_left k g)

weighted-near :
    (a d : ℕ) (shares : List Share)
    → 0 < a
    → 0 < d
    → AllDone shares
    → a * weighted shares ≤ (paid (pos a) (pos d) shares + instances shares) * d
weighted-near a d [] ha hd h = omega arith
weighted-near a d (s ∷ shares) ha hd (e, h) = rw e (
    omega (
      arith,
      share-near s.frequency (pos_part (per_instance_payout (pos a) s.weight (pos d)))
          (pos_part s.weight) a d (payout-near a d s.weight ha hd),
      weighted-near a d shares ha hd h,
    ))

-- When every chore of the week is done as often as it is due and the divisor is positive, rounding
-- down keeps back at most one cent for each due instance.
pub paid-near-allowance :
    (allowance : ℕ) (shares : List Share)
    → AllDone shares
    → 0 < pos_part (shares_divisor shares)
    → allowance ≤ paid (pos allowance) (shares_divisor shares) shares + instances shares
paid-near-allowance zero shares h p = omega arith
paid-near-allowance (suc a) shares h p =
    let e = shares_divisor-weighted shares in
    let q : 0 < weighted shares = rw e at p in
    rw e
      (le_of_mul-le-mul_right (weighted-near (suc a) (weighted shares) shares (omega arith) q h) q)
