-- ===== src/Auth/Provider.antt =====
-- web/src/lib/auth/auth-store.tsx: the operations of the provider. One that awaits the server runs in
-- parts: what comes before its `await`, then, when the answer arrives, the rest; other operations may
-- run between. What waits is a list, and an answer says which entry it is for.
use tidyboard.Prelude.{
  ℕ, zero, suc, Bool, List, [], ◌∷◌, ◌++◌, Option, none, some, String, if◌then◌else◌, or_else,
}
use tidyboard.Api.Query.{given}
use tidyboard.Auth.Session.{
  AuthMember, Role, AuthStatus, MeResponse, PinResponse, Reply, answer, failure, AuthHousehold,
  Storage, Session, read_token, persist_token, clear_token, clear_session_state, set_token,
  set_members, hydrate,
}

-- The operation that continues when the answer arrives.
pub data Waiting : Type 0 where
  mounting accepting refreshing pin_asking : Waiting
  pin_hydrating : Option String → Waiting

pub record World : Type 0 where
  pub session : Session
  pub waiting : List Waiting

pub data Event : Type 0 where
  mount : Event
  accept_token : String → Event
  refresh : Event
  pin_login : Event
  set_active_member : Option AuthMember → Event
  lock_kiosk : Event
  logout : Event
  pin_answered : ℕ → Reply PinResponse → Event
  me_answered : ℕ → Reply MeResponse → Reply (List AuthHousehold) → Event

abbrev pub initial : Storage → World
initial storage = record {
  session = record {
    status = AuthStatus.loading;
    account = none;
    household = none;
    member = none;
    token = none;
    active_member = none;
    available_households = [];
    storage = storage;
  };
  waiting = [];
}

-- The entry at a position, and the others.
abbrev pub pick : ℕ → List Waiting → Option (Waiting × List Waiting)
pick n [] = none
pick zero (w ∷ ws) = some (w, ws)
pick (suc n) (w ∷ ws) = let rest = pick n ws in behind w rest
  where
    behind : Waiting → Option (Waiting × List Waiting) → Option (Waiting × List Waiting)
    behind w none = none
    behind w (some (v, ws)) = some (v, w ∷ ws)

-- What follows `hydrate` in the mounting effect and in `acceptToken`.
abbrev pub unless_hydrated : Bool × Session → Session
unless_hydrated (ok, s) = if ok then s else clear_session_state (clear_token s)

abbrev pub renamed : String → Option AuthMember → AuthMember
renamed id none = record { id = id; name = ""; role = Role.child }
renamed id (some prev) = record { id = id; name = prev.name; role = prev.role }

-- The end of `pinLogin`.
abbrev pub claim_member : Option String → Session → Session
claim_member member_id s =
    if given member_id
    then (let id = or_else member_id "" in
        set_members (some (renamed id s.member))
          (some (record { id = id; name = ""; role = Role.child })) s)
    else s

abbrev pub pin_hydrated : Option String → Bool × Session → Session
pin_hydrated member_id (ok, s) =
    if ok then claim_member member_id s else clear_session_state (clear_token s)

abbrev pub mount_effect : World → World
mount_effect w =
    let stored = read_token w.session.storage in
    if given stored
    then record {
      session = set_token (or_else stored "") w.session;
      waiting = w.waiting ++ mounting ∷ [];
    }
    else record { session = clear_session_state w.session; waiting = w.waiting }

-- `pinLogin` after its first `await`.
abbrev pub pin_continue : Reply PinResponse → List Waiting → Session → World
pin_continue (answer res) ws s = record {
  session = set_token res.token (persist_token res.token s);
  waiting = ws ++ pin_hydrating res.member_id ∷ [];
}
pin_continue failure ws s = record { session = s; waiting = ws }

abbrev pub me_continue : Reply MeResponse → Reply (List AuthHousehold) → Waiting → Session → Session
me_continue me hs mounting s = unless_hydrated (hydrate me hs s)
me_continue me hs accepting s = unless_hydrated (hydrate me hs s)
me_continue me hs refreshing s = (hydrate me hs s).1
me_continue me hs pin_asking s = s
me_continue me hs (pin_hydrating member_id) s = pin_hydrated member_id (hydrate me hs s)

abbrev pub pin_resume : World → Reply PinResponse → Option (Waiting × List Waiting) → World
pin_resume w res none = w
pin_resume w res (some (pin_asking, ws)) = pin_continue res ws w.session
pin_resume w res (some _) = w

abbrev pub me_resume :
    World → Reply MeResponse → Reply (List AuthHousehold) → Option (Waiting × List Waiting) → World
me_resume w me hs none = w
me_resume w me hs (some (pin_asking, ws)) = w
me_resume w me hs (some (v, ws)) = record { session = me_continue me hs v w.session; waiting = ws }

-- One operation, or one answer. An answer for a position where nothing waits for it changes nothing.
abbrev pub step : World → Event → World
step w mount = mount_effect w
step w (accept_token id_token) = record {
  session = set_token id_token (persist_token id_token w.session);
  waiting = w.waiting ++ accepting ∷ [];
}
step w refresh = record { session = w.session; waiting = w.waiting ++ refreshing ∷ [] }
step w pin_login = record { session = w.session; waiting = w.waiting ++ pin_asking ∷ [] }
step w (set_active_member m) = record {
  session = set_members w.session.member m w.session;
  waiting = w.waiting;
}
step w lock_kiosk = record {
  session = set_members w.session.member none w.session;
  waiting = w.waiting;
}
step w logout = record {
  session = clear_session_state (clear_token w.session);
  waiting = w.waiting;
}
step w (pin_answered n res) = pin_resume w res (pick n w.waiting)
step w (me_answered n me households) = me_resume w me households (pick n w.waiting)

abbrev pub run : World → List Event → World
run w [] = w
run w (e ∷ es) = run (step w e) es

-- `activeMember ?? member`, what the context gives.
abbrev pub exposed_active : Session → Option AuthMember
exposed_active s = give s.active_member
  where
    give : Option AuthMember → Option AuthMember
    give none = s.member
    give (some m) = some m
