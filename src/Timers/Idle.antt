-- ===== src/Timers/Idle.antt =====
-- web/src/lib/use-idle-timeout.ts: the hook's flag and its pending timer, over events and milliseconds.
use tidyboard.Prelude.{
  ◌≡◌, refl, ℕ, suc, ◌+◌, ◌-◌, ◌≤◌, ◌<◌, max, Bool, true, false, List, [], ◌∷◌, Option, none, some,
  if◌then◌else◌, leb, ◌⊎◌, inl, inr, Bool-cases, arith,
}

-- The milliseconds until the timer fires.
pub record IdleTimer : Type 0 where
  pub idle : Bool
  pub timer : Option ℕ

-- One of the six events on `window`, or a millisecond.
pub data IdleEvent : Type 0 where
  activity passes : IdleEvent

abbrev pub reset : ℕ → IdleTimer
reset ms = record { idle = false; timer = some ms }

abbrev fire_after : ℕ → IdleTimer → IdleTimer
fire_after left t =
    if leb left 1
    then record { idle = true; timer = none }
    else record { idle = t.idle; timer = some (left - 1) }

abbrev elapse : Option ℕ → IdleTimer → IdleTimer
elapse none t = t
elapse (some left) t = fire_after left t

abbrev pub idle_step : ℕ → IdleTimer → IdleEvent → IdleTimer
idle_step ms t activity = reset ms
idle_step ms t passes = elapse t.timer t

abbrev pub idle_run : ℕ → IdleTimer → List IdleEvent → IdleTimer
idle_run ms t [] = t
idle_run ms t (e ∷ es) = idle_run ms (idle_step ms t e) es

-- The specification: the milliseconds since the last activity, and the screen idle from the limit on.
abbrev pub quiet_step : ℕ → IdleEvent → ℕ
quiet_step q activity = 0
quiet_step q passes = suc q

abbrev pub quiet_run : ℕ → List IdleEvent → ℕ
quiet_run q [] = q
quiet_run q (e ∷ es) = quiet_run (quiet_step q e) es

abbrev pub is_idle : ℕ → ℕ → Bool
is_idle ms q = leb (max 1 ms) q

-- A state of the hook stands for a quiet time.
abbrev Stands : ℕ → IdleTimer → ℕ → Type 0
Stands ms t q =
    ((t.idle ≡ true) × (t.timer ≡ none) × (max 1 ms ≤ q))
    ⊎ ((t.idle ≡ false) × ((left : ℕ) × (t.timer ≡ some left) × (left + q ≡ ms) × (q < max 1 ms)))

Stands-step :
    (ms : ℕ) (t : IdleTimer) (q : ℕ) (e : IdleEvent)
    → Stands ms t q
    → Stands ms (idle_step ms t e) (quiet_step q e)
Stands-step ms t q activity h = inr (refl, (ms, refl, omega arith, omega arith))
Stands-step ms t q passes (inl (i, n, h)) = rw n (inl (i, refl, omega arith))
Stands-step ms t q passes (inr (i, (left, n, s, b))) = elim (Bool-cases (leb left 1)) [
  | inl e ↦ rw (n, e) (inl (refl, refl, ground arith))
  | inr e ↦ rw (n, e) (inr (i, (left - 1, refl, ground arith, ground arith)))
]

Stands-run :
    (ms : ℕ) (t : IdleTimer) (q : ℕ) (es : List IdleEvent)
    → Stands ms t q
    → Stands ms (idle_run ms t es) (quiet_run q es)
Stands-run ms t q [] h = h
Stands-run ms t q (e ∷ es) h =
    Stands-run ms (idle_step ms t e) (quiet_step q e) es (Stands-step ms t q e h)

Stands-idle : (ms : ℕ) (t : IdleTimer) (q : ℕ) → Stands ms t q → t.idle ≡ is_idle ms q
Stands-idle ms t q (inl (i, _, h)) = rw i (ground arith)
Stands-idle ms t q (inr (i, (_, _, _, h))) = rw i (ground arith)

-- For any limit and any sequence of events after mounting, the hook's flag is the specification's: the
-- screen counts as idle exactly when at least the limit, and at least a millisecond, has passed since
-- the last activity.
pub idle_run-is_idle :
    (ms : ℕ) (es : List IdleEvent) → (idle_run ms (reset ms) es).idle ≡ is_idle ms (quiet_run 0 es)
idle_run-is_idle ms es =
    Stands-idle ms (idle_run ms (reset ms) es) (quiet_run 0 es)
      (Stands-run ms (reset ms) 0 es (inr (refl, (ms, refl, omega arith, omega arith))))
