-- ===== src/Auth/Session.antt =====
-- web/src/lib/auth/auth-store.tsx: the provider's state, the stored token, and what an answer of
-- /v1/auth/me does to them. Where the browser refuses the storage, reading gives no token and writing
-- does nothing.
use tidyboard.Prelude.{
  Bool, true, false, List, [], ◌∷◌, Option, none, some, String, truthy, if◌then◌else◌, or_else,
  str_eq, keep, find,
}
use tidyboard.Api.Query.{given, is_uuid}

pub record AuthAccount : Type 0 where
  pub id : String
  pub email : String

pub record AuthHousehold : Type 0 where
  pub id : String
  pub name : String

pub data Role : Type 0 where
  adult child : Role

pub record AuthMember : Type 0 where
  pub id : String
  pub name : String
  pub role : Role

pub data AuthStatus : Type 0 where
  loading unauthenticated authenticated : AuthStatus

-- The answer to GET /v1/auth/me; none is null or a missing field.
pub record MeResponse : Type 0 where
  pub account_id : String
  pub household_id : Option String
  pub member_id : Option String
  pub role : String

pub record PinResponse : Type 0 where
  pub token : String
  pub member_id : Option String

-- What an awaited request gives: its JSON, or a throw.
pub data Reply (A : Type 0) : Type 0 where
  answer : A → Reply A
  failure : Reply A

pub record Storage : Type 0 where
  pub works : Bool
  pub token : Option String

pub record Session : Type 0 where
  pub status : AuthStatus
  pub account : Option AuthAccount
  pub household : Option AuthHousehold
  pub member : Option AuthMember
  pub token : Option String
  pub active_member : Option AuthMember
  pub available_households : List AuthHousehold
  pub storage : Storage

abbrev pub read_token : Storage → Option String
read_token st = if st.works then st.token else none

abbrev write_token : Option String → Storage → Storage
write_token t st = if st.works then record { works = st.works; token = t } else st

abbrev with_storage : Storage → Session → Session
with_storage st s = record {
  status = s.status;
  account = s.account;
  household = s.household;
  member = s.member;
  token = s.token;
  active_member = s.active_member;
  available_households = s.available_households;
  storage = st;
}

abbrev pub persist_token : String → Session → Session
persist_token t s = with_storage (write_token (some t) s.storage) s

abbrev pub clear_token : Session → Session
clear_token s = with_storage (write_token none s.storage) s

abbrev pub clear_session_state : Session → Session
clear_session_state s = record {
  status = AuthStatus.unauthenticated;
  account = none;
  household = none;
  member = none;
  token = none;
  active_member = none;
  available_households = [];
  storage = s.storage;
}

abbrev pub set_token : String → Session → Session
set_token t s = record {
  status = s.status;
  account = s.account;
  household = s.household;
  member = s.member;
  token = some t;
  active_member = s.active_member;
  available_households = s.available_households;
  storage = s.storage;
}

abbrev pub set_members : Option AuthMember → Option AuthMember → Session → Session
set_members m active s = record {
  status = s.status;
  account = s.account;
  household = s.household;
  member = m;
  token = s.token;
  active_member = active;
  available_households = s.available_households;
  storage = s.storage;
}

abbrev pub has_uuid : AuthHousehold → Bool
has_uuid h = is_uuid (some h.id)

abbrev pub households_of : Reply (List AuthHousehold) → List AuthHousehold
households_of (answer summaries) = keep has_uuid summaries
households_of failure = []

abbrev pub name_of : Option AuthHousehold → String
name_of none = ""
name_of (some h) = h.name

abbrev pub first : List AuthHousehold → Option AuthHousehold
first [] = none
first (h ∷ _) = some h

abbrev pub household_of : Option String → List AuthHousehold → Option AuthHousehold
household_of none households = first households
household_of (some id) households =
    if is_uuid (some id)
    then some (record { id = id; name = name_of (find (λ h. str_eq h.id id) households) })
    else first households

abbrev pub member_of : MeResponse → Option AuthMember
member_of me =
    if given me.member_id
    then some (record {
      id = or_else me.member_id "";
      name = "";
      role = if str_eq me.role "child" then Role.child else Role.adult;
    })
    else none

abbrev pub hydrated : MeResponse → List AuthHousehold → Session → Session
hydrated me households s = record {
  status = AuthStatus.authenticated;
  account = some (record { id = me.account_id; email = "" });
  household = household_of me.household_id households;
  member = member_of me;
  token = s.token;
  active_member = member_of me;
  available_households = households;
  storage = s.storage;
}

-- `hydrate`, from its answers on: whether it succeeded, and the state after its setters.
abbrev pub hydrate : Reply MeResponse → Reply (List AuthHousehold) → Session → Bool × Session
hydrate failure _ s = (false, s)
hydrate (answer me) households s =
    if truthy me.account_id then (true, hydrated me (households_of households) s) else (false, s)
