-- ===== src/Kiosk.antt =====
-- web/src/app/kiosk/page.tsx: the lock screen, the choice of a member and the PIN pad, with the answers of
-- `pinLogin`. A tap is on a button that is shown and not disabled; other taps change nothing.
pub mod Pages
mod Tests
use text.Mathlib.Text.{starts_with}
use tidyboard.Prelude.{
  ℕ, suc, ◌+◌, Bool, true, false, not, ◌&&◌, ◌||◌, List, [], ◌∷◌, ◌++◌, Option, none, some, String,
  truthy, str_eq, if◌then◌else◌, leb, ltb, ◌==◌, length, find, any, is_some,
}
use tidyboard.Api.Query.{given}

-- The fields of a member that the page reads.
pub record Member : Type 0 where
  pub id : String
  pub role : String

pub data LockState : Type 0 where
  lock members pin : LockState

-- The page's state, the state of the PIN pad that is mounted (the text as its digits) with its number,
-- the numbers of the pads whose login is under way, and a record of what the page did: the logins it asked
-- for and where it went, the latest first.
pub record Kiosk : Type 0 where
  pub state : LockState
  pub selected : Option Member
  pub pin : List String
  pub error : Bool
  pub loading : Bool
  pub pad : ℕ
  pub pending : List ℕ
  pub logins : List (String × List String)
  pub pushed : List String

pub data KioskEvent : Type 0 where
  lock_click back backspace submit : KioskEvent
  members_loaded : List Member → KioskEvent
  select : Member → KioskEvent
  digit : String → KioskEvent
  answered : ℕ → Bool → KioskEvent

-- `requestedReturnTo?.startsWith("/") && !requestedReturnTo.startsWith("//")`
abbrev pub return_to : Option String → String
return_to none = "/"
return_to (some r) = if starts_with r "/" && not (starts_with r "//") then r else "/"

abbrev pub opened : Kiosk
opened = record {
  state = lock;
  selected = none;
  pin = [];
  error = false;
  loading = false;
  pad = 0;
  pending = [];
  logins = [];
  pushed = [];
}

-- A change of the page that mounts a new pad, or none.
abbrev pub to_state : LockState → Option Member → Kiosk → Kiosk
to_state st m k = record {
  state = st;
  selected = m;
  pin = [];
  error = false;
  loading = false;
  pad = suc k.pad;
  pending = k.pending;
  logins = k.logins;
  pushed = k.pushed;
}

abbrev pub is_person : Member → Bool
is_person m = not (str_eq m.role "pet")

-- The pad's three setters.
abbrev pub set_pad : List String → Bool → Bool → Kiosk → Kiosk
set_pad digits error loading k = record {
  state = k.state;
  selected = k.selected;
  pin = digits;
  error = error;
  loading = loading;
  pad = k.pad;
  pending = k.pending;
  logins = k.logins;
  pushed = k.pushed;
}

-- `slice(0, -1)`
abbrev pub drop_last : List String → List String
drop_last [] = []
drop_last (d ∷ []) = []
drop_last (d ∷ e ∷ ds) = d ∷ drop_last (e ∷ ds)

abbrev pub is_lock : LockState → Bool
is_lock lock = true
is_lock members = false
is_lock pin = false

abbrev pub is_members : LockState → Bool
is_members lock = false
is_members members = true
is_members pin = false

abbrev is_pin : LockState → Bool
is_pin lock = false
is_pin members = false
is_pin pin = true

-- `{state === "pin" && selectedMember && <PinModal …/>}`
abbrev pub shows_pad : Kiosk → Bool
shows_pad k = is_pin k.state && is_some k.selected

-- `handleSubmit` to its `await`; the button needs four digits.
abbrev pub ask_login : Option Member → Kiosk → Kiosk
ask_login none k = k
ask_login (some m) k = record {
  state = k.state;
  selected = k.selected;
  pin = k.pin;
  error = false;
  loading = true;
  pad = k.pad;
  pending = k.pad ∷ k.pending;
  logins = (m.id, k.pin) ∷ k.logins;
  pushed = k.pushed;
}

abbrev pub handle_submit : Kiosk → Kiosk
handle_submit k =
    if shows_pad k && not (ltb (length k.pin) 4 || k.loading) then ask_login k.selected k else k

abbrev pub handle_digit : String → Kiosk → Kiosk
handle_digit d k =
    if shows_pad k && not k.loading && ltb (length k.pin) 6
    then set_pad (k.pin ++ d ∷ []) k.error k.loading k
    else k

abbrev pub handle_backspace : Kiosk → Kiosk
handle_backspace k =
    if shows_pad k && not k.loading then set_pad (drop_last k.pin) k.error k.loading k else k

abbrev pub without : ℕ → List ℕ → List ℕ
without n [] = []
without n (m ∷ ms) = if m == n then ms else m ∷ without n ms

abbrev pub settled : List ℕ → List String → Kiosk → Kiosk
settled pending pushed k = record {
  state = k.state;
  selected = k.selected;
  pin = k.pin;
  error = k.error;
  loading = k.loading;
  pad = k.pad;
  pending = pending;
  logins = k.logins;
  pushed = pushed;
}

-- The rest of `handleSubmit` of a pad (the active member that it sets is in Auth/Provider): its setters do nothing when the pad is no longer mounted, but the
-- page goes on to `returnTo` also then.
abbrev pub after_login : Option String → ℕ → Bool → Kiosk → Kiosk
after_login requested n ok k =
    let k2 =
      settled (without n k.pending) (if ok then return_to requested ∷ k.pushed else k.pushed) k in
    if not (shows_pad k && (k.pad == n))
    then k2
    else if ok
    then set_pad k2.pin k2.error false k2
    else set_pad [] true false k2

abbrev pub login_answered : Option String → ℕ → Bool → Kiosk → Kiosk
login_answered requested n ok k =
    if not (any (λ m. m == n) k.pending) then k else after_login requested n ok k

-- The effect on `?member=`, which runs again when the members are loaded again; a pad stays mounted.
abbrev pub on_pad : Member → Kiosk → Kiosk
on_pad m k = record {
  state = pin;
  selected = some m;
  pin = k.pin;
  error = k.error;
  loading = k.loading;
  pad = k.pad;
  pending = k.pending;
  logins = k.logins;
  pushed = k.pushed;
}

abbrev pub show_pad_of : Option Member → Kiosk → Kiosk
show_pad_of none k = k
show_pad_of (some m) k = if shows_pad k then on_pad m k else to_state pin (some m) k

abbrev pub preselect : Option String → List Member → Kiosk → Kiosk
preselect none ms k = k
preselect (some id) ms k =
    if truthy id then show_pad_of (find (λ m. str_eq m.id id && is_person m) ms) k else k

-- The page with its two query parameters, `member` and `returnTo`.
abbrev pub kiosk_step : Option String → Option String → Kiosk → KioskEvent → Kiosk
kiosk_step member requested k lock_click =
    if is_lock k.state then to_state members k.selected k else k
kiosk_step member requested k back = if shows_pad k then to_state members none k else k
kiosk_step member requested k backspace = handle_backspace k
kiosk_step member requested k submit = handle_submit k
kiosk_step member requested k (members_loaded ms) = preselect member ms k
kiosk_step member requested k (select m) =
    if is_members k.state && is_person m then to_state pin (some m) k else k
kiosk_step member requested k (digit d) = handle_digit d k
kiosk_step member requested k (answered n ok) = login_answered requested n ok k

abbrev pub kiosk_run : Option String → Option String → Kiosk → List KioskEvent → Kiosk
kiosk_run member requested k [] = k
kiosk_run member requested k (e ∷ es) =
    kiosk_run member requested (kiosk_step member requested k e) es
