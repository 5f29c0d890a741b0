-- ===== src/Ws/Connection.antt =====
-- web/src/lib/ws/ws-provider.tsx, `WSProvider`: its state, the functions of its effect, and the browser's
-- calls of its handlers. `live` are the sockets that still have handlers and have not closed, and `timers`
-- the armed timers with their delays: what the browser holds for the provider. A socket that has closed
-- calls nothing more, and a timer fires once. A change of the effect's dependencies runs the cleanup of
-- the effect before, if it had one, then the effect.
use tidyboard.Prelude.{
  ℕ, suc, ◌*◌, min, Bool, true, false, not, List, [], ◌∷◌, ◌++◌, Option, none, some, if◌then◌else◌,
  ◌==◌, any, keep,
}
use tidyboard.Api.Keys.{Filter}
use tidyboard.Ws.Invalidation.{WsEvent, handle_invalidation}

pub data WsStatus : Type 0 where
  connecting connected closed error idle : WsStatus

pub record Timer : Type 0 where
  pub id : ℕ
  pub delay : ℕ

pub record Connection : Type 0 where
  pub status : WsStatus
  pub last_event : Option WsEvent
  pub socket_ref : Option ℕ
  pub retry_timer_ref : Option ℕ
  pub backoff : ℕ
  pub intentional_close : Bool
  -- the effect has run to its end, and its cleanup is due
  pub running : Bool
  pub live : List ℕ
  pub timers : List Timer
  -- the next socket or timer
  pub fresh : ℕ
  -- the filters invalidated so far
  pub invalidated : List Filter

abbrev pub backoff_initial_ms : ℕ
backoff_initial_ms = 1000

abbrev pub backoff_max_ms : ℕ
backoff_max_ms = 30000

abbrev pub initial : Connection
initial = record {
  status = idle;
  last_event = none;
  socket_ref = none;
  retry_timer_ref = none;
  backoff = backoff_initial_ms;
  intentional_close = false;
  running = false;
  live = [];
  timers = [];
  fresh = 0;
  invalidated = [];
}

abbrev pub with_status : WsStatus → Connection → Connection
with_status st c = record {
  status = st;
  last_event = c.last_event;
  socket_ref = c.socket_ref;
  retry_timer_ref = c.retry_timer_ref;
  backoff = c.backoff;
  intentional_close = c.intentional_close;
  running = c.running;
  live = c.live;
  timers = c.timers;
  fresh = c.fresh;
  invalidated = c.invalidated;
}

-- `scheduleRetry`
abbrev pub schedule_retry : Connection → Connection
schedule_retry c = if c.intentional_close then c else record {
  status = c.status;
  last_event = c.last_event;
  socket_ref = c.socket_ref;
  retry_timer_ref = some c.fresh;
  backoff = min (c.backoff * 2) backoff_max_ms;
  intentional_close = c.intentional_close;
  running = c.running;
  live = c.live;
  timers = record { id = c.fresh; delay = c.backoff } ∷ c.timers;
  fresh = suc c.fresh;
  invalidated = c.invalidated;
}

-- `connect`; the flag is whether the browser's constructor of the socket succeeds.
abbrev pub connect : Bool → Connection → Connection
connect constructed c =
    if c.intentional_close
    then c
    else if constructed
    then record {
      status = connecting;
      last_event = c.last_event;
      socket_ref = some c.fresh;
      retry_timer_ref = c.retry_timer_ref;
      backoff = c.backoff;
      intentional_close = c.intentional_close;
      running = c.running;
      live = c.fresh ∷ c.live;
      timers = c.timers;
      fresh = suc c.fresh;
      invalidated = c.invalidated;
    }
    else schedule_retry (with_status error c)

abbrev is_ref : Option ℕ → ℕ → Bool
is_ref none i = false
is_ref (some j) i = i == j

-- The function that the effect returns.
abbrev pub cleanup : Connection → Connection
cleanup c = record {
  status = c.status;
  last_event = c.last_event;
  socket_ref = none;
  retry_timer_ref = none;
  backoff = c.backoff;
  intentional_close = true;
  running = false;
  live = keep (λ i. not (is_ref c.socket_ref i)) c.live;
  timers = keep (λ t. not (is_ref c.retry_timer_ref t.id)) c.timers;
  fresh = c.fresh;
  invalidated = c.invalidated;
}

abbrev pub start : Connection → Connection
start c = record {
  status = c.status;
  last_event = c.last_event;
  socket_ref = c.socket_ref;
  retry_timer_ref = c.retry_timer_ref;
  backoff = c.backoff;
  intentional_close = false;
  running = true;
  live = c.live;
  timers = c.timers;
  fresh = c.fresh;
  invalidated = c.invalidated;
}

-- The effect; ready means an authenticated session with a token and a household, and a socket URL.
abbrev pub effect : Bool → Bool → Connection → Connection
effect ready constructed c = if ready then connect constructed (start c) else with_status idle c

abbrev pub rerun : Bool → Bool → Connection → Connection
rerun ready constructed c = effect ready constructed (if c.running then cleanup c else c)

abbrev pub with_backoff : ℕ → Bool → Connection → Connection
with_backoff ms intentional c = record {
  status = c.status;
  last_event = c.last_event;
  socket_ref = c.socket_ref;
  retry_timer_ref = c.retry_timer_ref;
  backoff = ms;
  intentional_close = intentional;
  running = c.running;
  live = c.live;
  timers = c.timers;
  fresh = c.fresh;
  invalidated = c.invalidated;
}

-- `ws.onmessage`, for a frame that parses.
abbrev pub on_message : WsEvent → Connection → Connection
on_message e c = record {
  status = c.status;
  last_event = some e;
  socket_ref = c.socket_ref;
  retry_timer_ref = c.retry_timer_ref;
  backoff = c.backoff;
  intentional_close = c.intentional_close;
  running = c.running;
  live = c.live;
  timers = c.timers;
  fresh = c.fresh;
  invalidated = c.invalidated ++ handle_invalidation e;
}

-- `ws.onclose`
abbrev pub on_close : Connection → Connection
on_close c =
    if not c.intentional_close then schedule_retry (with_status closed c) else with_status idle c

-- The browser drops a socket that has closed, or a timer that fires.
abbrev pub without_socket : ℕ → Connection → Connection
without_socket i c = record {
  status = c.status;
  last_event = c.last_event;
  socket_ref = c.socket_ref;
  retry_timer_ref = c.retry_timer_ref;
  backoff = c.backoff;
  intentional_close = c.intentional_close;
  running = c.running;
  live = keep (λ j. not (j == i)) c.live;
  timers = c.timers;
  fresh = c.fresh;
  invalidated = c.invalidated;
}

abbrev pub without_timer : ℕ → Connection → Connection
without_timer i c = record {
  status = c.status;
  last_event = c.last_event;
  socket_ref = c.socket_ref;
  retry_timer_ref = c.retry_timer_ref;
  backoff = c.backoff;
  intentional_close = c.intentional_close;
  running = c.running;
  live = c.live;
  timers = keep (λ t. not (t.id == i)) c.timers;
  fresh = c.fresh;
  invalidated = c.invalidated;
}

-- `reconnect` changes a dependency, so the effect runs again after it. A frame that does not parse is
-- ignored. The browser calls a handler only of a live socket, and fires only an armed timer.
pub data Event : Type 0 where
  deps_changed reconnect : Bool → Bool → Event
  unmount : Event
  opened errored socket_closed : ℕ → Event
  message : ℕ → Option WsEvent → Event
  timer_fired : ℕ → Bool → Event

abbrev pub is_live : ℕ → Connection → Bool
is_live i c = any (λ j. j == i) c.live

abbrev pub is_armed : ℕ → Connection → Bool
is_armed i c = any (λ t. t.id == i) c.timers

abbrev pub received : Option WsEvent → Connection → Connection
received none c = c
received (some e) c = on_message e c

abbrev pub step : Connection → Event → Connection
step c (deps_changed ready constructed) = rerun ready constructed c
step c (reconnect ready constructed) =
    rerun ready constructed (with_backoff backoff_initial_ms false c)
step c unmount = if c.running then cleanup c else c
step c (opened i) =
    if is_live i c
    then with_status connected (with_backoff backoff_initial_ms c.intentional_close c)
    else c
step c (errored i) = if is_live i c then with_status error c else c
step c (socket_closed i) = if is_live i c then on_close (without_socket i c) else c
step c (message i frame) = if is_live i c then received frame c else c
step c (timer_fired i constructed) =
    if is_armed i c then connect constructed (without_timer i c) else c

abbrev pub run : Connection → List Event → Connection
run c [] = c
run c (e ∷ es) = run (step c e) es
