-- ===== src/Ws/Invariant.antt =====
-- web/src/lib/ws/ws-provider.tsx: the states that the connection reaches, and its backoff.
use tidyboard.Prelude.{
  ℕ, ◌≤◌, ◌≡◌, refl, ◌⊎◌, inl, inr, Bool, true, false, not, List, [], ◌∷◌, Option, none, some,
  if◌then◌else◌, ◌==◌, ==_iff, any, keep, Bool-cases, arith,
}
use tidyboard.Ws.Invalidation.{WsEvent}
use tidyboard.Ws.Connection.{
  Connection, Timer, Event, initial, schedule_retry, start, connect, cleanup, effect, rerun,
  on_close, without_socket, without_timer, with_backoff, step, run, deps_changed, reconnect,
  unmount, opened, errored, is_live, is_armed, received, socket_closed, message, timer_fired,
}

-- One socket is live, the one that the provider refers to, and no timer is armed.
abbrev Connected : Connection → Type 0
Connected c = (i : ℕ) × (c.live ≡ i ∷ []) × (c.socket_ref ≡ some i) × (c.timers ≡ [])

-- No socket is live, and one timer is armed, the one that the provider refers to, with a delay from one
-- second to thirty.
abbrev Waiting : Connection → Type 0
Waiting c =
    (t : Timer) × (c.live ≡ [])
    × (c.timers ≡ t ∷ [])
    × (c.retry_timer_ref ≡ some t.id)
    × (1000 ≤ t.delay)
    × (t.delay ≤ 30000)

abbrev Stopped : Connection → Type 0
Stopped c = (c.running ≡ false) × (c.live ≡ []) × (c.timers ≡ [])

abbrev Running : Connection → Type 0
Running c = (c.running ≡ true) × (c.intentional_close ≡ false) × (Connected c ⊎ Waiting c)

-- The connection is stopped, with no live socket and no armed timer, or it runs and has exactly one of
-- the two; and the next delay is from one second to thirty.
abbrev pub Exclusive : Connection → Type 0
Exclusive c = (Stopped c ⊎ Running c) × (1000 ≤ c.backoff) × (c.backoff ≤ 30000)

eq_self : (n : ℕ) → (n == n) ≡ true
eq_self n = (==_iff n n).1 refl

schedule_retry-Running :
    (c : Connection)
    → c.running ≡ true
    → c.intentional_close ≡ false
    → c.live ≡ []
    → c.timers ≡ []
    → (1000 ≤ c.backoff) × (c.backoff ≤ 30000)
    → Exclusive (schedule_retry c)
schedule_retry-Running c r i l t (low, high) = rw i (
  inr (r, refl, inr (record { id = c.fresh; delay = c.backoff }, l, rw t refl, refl, low, high)),
  omega arith,
  omega arith,
)

connect-Running :
    (ok : Bool) (c : Connection)
    → c.running ≡ true
    → c.intentional_close ≡ false
    → c.live ≡ []
    → c.timers ≡ []
    → (1000 ≤ c.backoff) × (c.backoff ≤ 30000)
    → Exclusive (connect ok c)
connect-Running true c r i l t (low, high) =
    rw i (inr (r, refl, inl (c.fresh, rw l refl, refl, t)), low, high)
connect-Running false c r i l t (low, high) = rw i (
  inr (r, refl, inr (record { id = c.fresh; delay = c.backoff }, l, rw t refl, refl, low, high)),
  omega arith,
  omega arith,
)

cleanup-Stopped : (c : Connection) → Running c → Stopped (cleanup c)
cleanup-Stopped c (_, _, inl (i, l, r, t)) = (refl, rw (l, r, eq_self i) refl, rw t refl)
cleanup-Stopped c (_, _, inr (t, l, ts, r, _, _)) = (refl, rw l refl, rw (ts, r, eq_self t.id) refl)

-- Whatever ran before, the cleanup that is due leaves nothing.
ended-Stopped : (c : Connection) → Exclusive c → Stopped (if c.running then cleanup c else c)
ended-Stopped c (inl (off, l, t), _, _) = rw off (refl, l, t)
ended-Stopped c (inr h, _, _) = rw h.0 (cleanup-Stopped c h)

-- A stopped connection: the effect starts it, or leaves it idle.
effect-Exclusive :
    (ready ok : Bool) (c : Connection)
    → Stopped c
    → (1000 ≤ c.backoff) × (c.backoff ≤ 30000)
    → Exclusive (effect ready ok c)
effect-Exclusive true ok c (_, l, t) b = connect-Running ok (start c) refl refl l t b
effect-Exclusive false ok c h (low, high) = (inl h, low, high)

ended-backoff : (c : Connection) → (if c.running then cleanup c else c).backoff ≡ c.backoff
ended-backoff c = elim (Bool-cases c.running) [ inl e ↦ rw e refl | inr e ↦ rw e refl ]

rerun-Exclusive : (ready ok : Bool) (c : Connection) → Exclusive c → Exclusive (rerun ready ok c)
rerun-Exclusive ready ok c w =
    effect-Exclusive ready ok (if c.running then cleanup c else c) (ended-Stopped c w)
      (rw (ended-backoff c) (w.1, w.2))

unlive : (i : ℕ) (c : Connection) → c.live ≡ [] → is_live i c ≡ true → ⊥
unlive i c l h = let no = rw l at h in ground arith

unarmed : (i : ℕ) (c : Connection) → c.timers ≡ [] → is_armed i c ≡ true → ⊥
unarmed i c t h = let no = rw t at h in ground arith

-- Only the one live socket can close.
last_live :
    (i j : ℕ) (live : List ℕ)
    → live ≡ j ∷ []
    → any (λ k. k == i) live ≡ true
    → keep (λ k. not (k == i)) live ≡ []
last_live i j live l h = let same = rw l at h in rw l (ground arith)

last_armed :
    (i : ℕ) (u : Timer) (timers : List Timer)
    → timers ≡ u ∷ []
    → any (λ t. t.id == i) timers ≡ true
    → keep (λ t. not (t.id == i)) timers ≡ []
last_armed i u timers l h = let same = rw l at h in rw l (ground arith)

socket_closed-Exclusive :
    (i : ℕ) (c : Connection)
    → Exclusive c
    → is_live i c ≡ true
    → Exclusive (on_close (without_socket i c))
socket_closed-Exclusive i c (inl (_, l, _), _, _) h = absurd (unlive i c l h)
socket_closed-Exclusive i c (inr (_, _, inr (_, l, _, _, _, _)), _, _) h = absurd (unlive i c l h)
socket_closed-Exclusive i c (inr (r, n, inl (j, l, _, t)), low, high) h = rw n (
  inr (
    r,
    refl,
    inr (
      record { id = c.fresh; delay = c.backoff },
      last_live i j c.live l h,
      rw t refl,
      refl,
      low,
      high,
    ),
  ),
  omega arith,
  omega arith,
)

timer_fired-Exclusive :
    (i : ℕ) (ok : Bool) (c : Connection)
    → Exclusive c
    → is_armed i c ≡ true
    → Exclusive (connect ok (without_timer i c))
timer_fired-Exclusive i ok c (inl (_, _, t), _, _) h = absurd (unarmed i c t h)
timer_fired-Exclusive i ok c (inr (_, _, inl (_, _, _, t)), _, _) h = absurd (unarmed i c t h)
timer_fired-Exclusive i ok c (inr (r, n, inr (u, l, t, _, _, _)), low, high) h =
    connect-Running ok (without_timer i c) r n l (last_armed i u c.timers t h) (low, high)

if-Exclusive :
    (b : Bool) (x y : Connection)
    → (b ≡ true → Exclusive x)
    → Exclusive y
    → Exclusive (if b then x else y)
if-Exclusive true x y p q = p refl
if-Exclusive false x y p q = q

with_backoff-Exclusive : (c : Connection) → Exclusive c → Exclusive (with_backoff 1000 false c)
with_backoff-Exclusive c (inl h, _, _) = (inl h, omega arith, omega arith)
with_backoff-Exclusive c (inr (r, _, x), _, _) = (inr (r, refl, x), omega arith, omega arith)

unmount-Exclusive : (c : Connection) → Exclusive c → Exclusive (if c.running then cleanup c else c)
unmount-Exclusive c w =
    (inl (ended-Stopped c w), rw (ended-backoff c) w.1, rw (ended-backoff c) w.2)

received-Exclusive : (f : Option WsEvent) (c : Connection) → Exclusive c → Exclusive (received f c)
received-Exclusive none c w = w
received-Exclusive (some e) c w = w

step-Exclusive : (c : Connection) (e : Event) → Exclusive c → Exclusive (step c e)
step-Exclusive c (deps_changed ready ok) w = rerun-Exclusive ready ok c w
step-Exclusive c (reconnect ready ok) w =
    rerun-Exclusive ready ok (with_backoff 1000 false c) (with_backoff-Exclusive c w)
step-Exclusive c unmount w = unmount-Exclusive c w
step-Exclusive c (opened i) w =
    if-Exclusive (is_live i c) _ c (λ _. (w.0, omega arith, omega arith)) w
step-Exclusive c (errored i) w = if-Exclusive (is_live i c) _ c (λ _. w) w
step-Exclusive c (socket_closed i) w =
    if-Exclusive (is_live i c) (on_close (without_socket i c)) c (socket_closed-Exclusive i c w) w
step-Exclusive c (message i f) w =
    if-Exclusive (is_live i c) (received f c) c (λ _. received-Exclusive f c w) w
step-Exclusive c (timer_fired i ok) w =
    if-Exclusive (is_armed i c) (connect ok (without_timer i c)) c (timer_fired-Exclusive i ok c w)
      w

from-Exclusive : (c : Connection) (es : List Event) → Exclusive c → Exclusive (run c es)
from-Exclusive c [] w = w
from-Exclusive c (e ∷ es) w = from-Exclusive (step c e) es (step-Exclusive c e w)

-- After every sequence of events the connection is stopped, with no live socket and no armed timer, or it
-- runs and has exactly one of the two: the live socket that the provider refers to, or an armed retry
-- timer that it refers to, whose delay is from one second to thirty. The next delay is in that range too.
pub run-Exclusive : (es : List Event) → Exclusive (run initial es)
run-Exclusive es = from-Exclusive initial es (inl (refl, refl, refl), omega arith, omega arith)
