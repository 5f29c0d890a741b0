-- ===== src/Api/Polling.antt =====
-- web/src/lib/api/hooks.ts, `useImportJob`: how often a recipe import is polled, and when no more.
use Prim.Native.Nat.pow
use tidyboard.Prelude.{
  ℕ, zero, suc, ◌*◌, ◌^◌, ◌≤◌, min, ◌≡◌, refl, ◌↔◌, ◌⊎◌, inl, inr, Option, none, some, arith,
}
use tidyboard.Api.Hooks.Kitchen.{JobStatus, running, succeeded, failed, import_interval}

power-pos : (n : ℕ) → 1 ≤ 2 ^ n
power-pos zero = let base = pow.zero 2 in omega arith
power-pos (suc n) = let double = pow.suc 2 n in omega (arith, power-pos n)

abbrev Waits : Option ℕ → Type 0
Waits interval = (ms : ℕ) × (interval ≡ some ms) × (2000 ≤ ms) × (ms ≤ 30000)

poll-Waits : (failures : ℕ) → Waits (import_interval none failures)
poll-Waits zero = (2000, refl, omega arith, omega arith)
poll-Waits (suc failures) =
    let p = power-pos failures in
    (min (2000 * (2 ^ failures)) 30000, refl, omega arith, omega arith)

Waits-some : (interval : Option ℕ) → Waits interval → interval ≡ none → ⊥
Waits-some interval (_, e, _, _) n = let no = rw n at e in ground arith

-- A job that has not ended.
pending :
    (status : Option JobStatus) (interval : Option ℕ)
    → Waits interval
    → ¬ (status ≡ some succeeded)
    → ¬ (status ≡ some failed)
    → ((interval ≡ none) ↔ ((status ≡ some succeeded) ⊎ (status ≡ some failed)))
      × ((interval ≡ none) ⊎ Waits interval)
pending status interval w s f = ((λ n. absurd (Waits-some interval w n), cases s f), inr w)
  where
    cases :
        ¬ (status ≡ some succeeded)
        → ¬ (status ≡ some failed)
        → (status ≡ some succeeded) ⊎ (status ≡ some failed)
        → interval ≡ none
    cases s f (inl e) = absurd (s e)
    cases s f (inr e) = absurd (f e)

-- Polling stops exactly when the last payload says that the job succeeded or failed, however many
-- fetches have failed since; and until then the next poll is due in two seconds at least and thirty at
-- most.
pub import_interval-polls :
    (status : Option JobStatus) (failures : ℕ)
    → ((import_interval status failures ≡ none)
        ↔ ((status ≡ some succeeded) ⊎ (status ≡ some failed)))
      × ((import_interval status failures ≡ none)
          ⊎ ((ms : ℕ) × (import_interval status failures ≡ some ms) × (2000 ≤ ms) × (ms ≤ 30000)))
import_interval-polls none failures =
    pending none (import_interval none failures) (poll-Waits failures) (λ e. ground arith)
      (λ e. ground arith)
import_interval-polls (some running) failures =
    pending (some running) (import_interval none failures) (poll-Waits failures) (λ e. ground arith)
      (λ e. ground arith)
import_interval-polls (some succeeded) failures = ((λ _. inl refl, λ _. refl), inl refl)
import_interval-polls (some failed) failures = ((λ _. inr refl, λ _. refl), inl refl)
