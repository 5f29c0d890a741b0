-- ===== src/Ws/Backoff.antt =====
-- web/src/lib/ws/ws-provider.tsx: the delays of a connection that keeps failing.
use Prim.Native.Nat.pow
use tidyboard.Prelude.{
  ℕ, zero, suc, ◌*◌, ◌^◌, min, ◌≡◌, refl, true, false, List, [], ◌∷◌, ◌++◌, ==_iff, arith,
}
use tidyboard.Ws.Connection.{Connection, Event, initial, step, run, deps_changed, timer_fired}

-- The effect runs and its socket cannot be built; then so many retries fail in the same way.
abbrev pub failing : ℕ → List Event
failing zero = deps_changed true false ∷ []
failing (suc n) = failing n ++ timer_fired n false ∷ []

run-append : (c : Connection) (es fs : List Event) → run c (es ++ fs) ≡ run (run c es) fs
run-append c [] fs = refl
run-append c (e ∷ es) fs = run-append (step c e) es fs

abbrev delay_after : ℕ → ℕ
delay_after n = min (1000 * (2 ^ n)) 30000

abbrev Failed : ℕ → Connection → Type 0
Failed n c =
    (c.timers ≡ record { id = n; delay = delay_after n } ∷ [])
    × (c.backoff ≡ delay_after (suc n))
    × (c.intentional_close ≡ false)
    × (c.fresh ≡ suc n)

delay-doubles : (n : ℕ) → min (delay_after n * 2) 30000 ≡ delay_after (suc n)
delay-doubles n = let power = pow.suc 2 n in omega arith

fires-Failed : (n : ℕ) (c : Connection) → Failed n c → Failed (suc n) (step c (timer_fired n false))
fires-Failed n c (t, b, i, f) =
    rw (t, (==_iff n n).1 refl, i, b, f) (refl, delay-doubles (suc n), refl, refl)

failing-Failed : (n : ℕ) → Failed n (run initial (failing n))
failing-Failed zero = (refl, refl, refl, refl)
failing-Failed (suc n) =
    rw (run-append initial (failing n) (timer_fired n false ∷ []))
      (fires-Failed n (run initial (failing n)) (failing-Failed n))

-- A connection whose sockets cannot be built has, after its first failure and any number n of failed
-- retries, one armed timer, with the delay 1000 · 2 ^ n ms, or 30000 ms where that is more.
pub failing-delay :
    (n : ℕ)
    → (run initial (failing n)).timers ≡ record { id = n; delay = min (1000 * (2 ^ n)) 30000 } ∷ []
failing-delay n = (failing-Failed n).0
