-- ===== src/Timers/Countdown.antt =====
-- web/src/components/screens/cooking-mode.tsx: the countdown of a cooking step, in ticks of its interval,
-- and the buttons that change the step.
use tidyboard.Prelude.{
  ◌≡◌, refl, ℕ, zero, suc, ◌+◌, ◌-◌, ◌<◌, min, Bool, true, false, not, ◌&&◌, List, [], ◌∷◌,
  if◌then◌else◌, leb, ltb, ◌==◌, Bool-cases, inl, inr, ap, ◌∙◌, lt→ltb, arith,
}

-- `finished` counts the calls of `onDone`.
pub record StepTimer : Type 0 where
  pub remaining : ℕ
  pub running : Bool
  pub finished : ℕ

pub data TimerEvent : Type 0 where
  start pause reset tick : TimerEvent

abbrev pub fresh : ℕ → StepTimer
fresh seconds = record { remaining = seconds; running = false; finished = 0 }

-- The Start button is shown when the timer is stopped with time left, Pause while it runs, and Reset when
-- the time left is not the whole; the interval ticks while it runs.
abbrev pub timer_step : ℕ → StepTimer → TimerEvent → StepTimer
timer_step seconds t start =
    if not t.running && ltb 0 t.remaining
    then record { remaining = t.remaining; running = true; finished = t.finished }
    else t
timer_step seconds t pause =
    if t.running
    then record { remaining = t.remaining; running = false; finished = t.finished }
    else t
timer_step seconds t reset =
    if t.remaining == seconds
    then t
    else record { remaining = seconds; running = false; finished = t.finished }
timer_step seconds t tick =
    if not t.running
    then t
    else if leb t.remaining 1
    then record { remaining = 0; running = false; finished = suc t.finished }
    else record { remaining = t.remaining - 1; running = true; finished = t.finished }

abbrev pub timer_run : ℕ → StepTimer → List TimerEvent → StepTimer
timer_run seconds t [] = t
timer_run seconds t (e ∷ es) = timer_run seconds (timer_step seconds t e) es

abbrev pub ticks : ℕ → List TimerEvent
ticks zero = []
ticks (suc n) = tick ∷ ticks n

abbrev stopped : ℕ → ℕ → StepTimer
stopped left done = record { remaining = left; running = false; finished = done }

abbrev pub going : ℕ → ℕ → StepTimer
going left done = record { remaining = left; running = true; finished = done }

still :
    (seconds n left done : ℕ) → timer_run seconds (stopped left done) (ticks n) ≡ stopped left done
still seconds zero left done = refl
still seconds (suc n) left done = still seconds n left done

last_tick :
    (seconds left done : ℕ)
    → leb left 1 ≡ true
    → timer_step seconds (going left done) tick ≡ stopped 0 (suc done)
last_tick seconds left done e = rw e refl

next_tick :
    (seconds left done : ℕ)
    → leb left 1 ≡ false
    → timer_step seconds (going left done) tick ≡ going (left - 1) done
next_tick seconds left done e = rw e refl

abbrev after_ticks : ℕ → ℕ → ℕ → StepTimer
after_ticks n left done = record {
  remaining = left - n;
  running = ltb n left;
  finished = if ltb n left then done else suc done;
}

ended :
    (n left done : ℕ)
    → 0 < left
    → leb left 1 ≡ true
    → stopped 0 (suc done) ≡ after_ticks (suc n) left done
ended n left done h e = ground arith

one_less :
    (n left done : ℕ)
    → leb left 1 ≡ false
    → after_ticks n (left - 1) done ≡ after_ticks (suc n) left done
one_less n left done e = ground arith

counting :
    (seconds n left done : ℕ)
    → 0 < left
    → timer_run seconds (going left done) (ticks n) ≡ after_ticks n left done
counting seconds zero left done h = ground arith
counting seconds (suc n) left done h = elim (Bool-cases (leb left 1)) [
  | inl e ↦
      ap (λ t. timer_run seconds t (ticks n)) (last_tick seconds left done e)
      ∙ still seconds n 0 (suc done)
      ∙ ended n left done h e
  | inr e ↦
      ap (λ t. timer_run seconds t (ticks n)) (next_tick seconds left done e)
      ∙ counting seconds n (left - 1) done (ground arith)
      ∙ one_less n left done e
]

-- A countdown of some seconds, started and let run: after n ticks, n seconds fewer are left, never below
-- none; it runs until the last second is gone, then stops by itself, and `onDone` has been called once
-- when it has stopped and not before, however many ticks follow.
pub timer_run-ticks :
    (seconds n : ℕ)
    → 0 < seconds
    → timer_run seconds (fresh seconds) (start ∷ ticks n) ≡ record {
      remaining = seconds - n;
      running = ltb n seconds;
      finished = if ltb n seconds then 0 else 1;
    }
timer_run-ticks seconds n h =
    ap (λ t. timer_run seconds t (ticks n)) (started seconds h) ∙ counting seconds n seconds 0 h
  where
    started :
        (seconds : ℕ) → 0 < seconds → timer_step seconds (fresh seconds) start ≡ going seconds 0
    started seconds h = rw (lt→ltb 0 seconds h) refl

-- The Previous and Next buttons of `CookingMode`.
abbrev pub previous_step : ℕ → ℕ
previous_step i = i - 1

-- `Math.min(totalSteps - 1, i + 1)`; the buttons are shown when there is a step.
abbrev pub next_step : ℕ → ℕ → ℕ
next_step total i = min (total - 1) (i + 1)
