-- ===== src/PinPads.antt =====
-- web/src/app/pin-login/page.tsx, `PinEntry`, the pad that logs in with the fourth digit, and
-- web/src/components/kiosk/KioskLock.tsx, the form that unlocks a kiosk: their states over taps, edits and the
-- answers of `pinLogin`, while they are mounted. A tap is on a button that is not disabled.
mod Entry
mod Lock
mod Tests
use Prim.Native.Char.{Char, code}
use Prim.Native.String.{[] as nil, ◌∷◌ as chars}
use tidyboard.Prelude.{
  ℕ, suc, Bool, true, false, not, ◌&&◌, ◌||◌, List, [], ◌∷◌, ◌++◌, String, if◌then◌else◌, leb, ltb,
  ◌==◌, length,
}
use tidyboard.Api.Query.{utf16_length}
use tidyboard.Kiosk.{drop_last}

-- `PIN_LENGTH`
abbrev pub pin_length : ℕ
pin_length = 4

-- The pad's state, with whether its error is shown, the PINs it asked to log in with, the latest first, and
-- how often it called `onSuccess`.
pub record PinEntry : Type 0 where
  pub digits : List String
  pub error : Bool
  pub loading : Bool
  pub logins : List (List String)
  pub successes : ℕ

pub data PadEvent : Type 0 where
  digit : String → PadEvent
  delete : PadEvent
  answered : Bool → PadEvent

abbrev pub shown : PinEntry
shown = record { digits = []; error = false; loading = false; logins = []; successes = 0 }

abbrev pub with_digits : List String → PinEntry → PinEntry
with_digits digits p = record {
  digits = digits;
  error = false;
  loading = p.loading;
  logins = p.logins;
  successes = p.successes;
}

abbrev pub asks : List String → PinEntry → PinEntry
asks digits p = record {
  digits = digits;
  error = false;
  loading = true;
  logins = digits ∷ p.logins;
  successes = p.successes;
}

-- `handleDigit` to its `await`.
abbrev pub handle_digit : String → PinEntry → PinEntry
handle_digit d p =
    let next = p.digits ++ d ∷ [] in
    if p.loading then p else if length next == pin_length then asks next p else with_digits next p

-- `handleDelete`, which the pad does not keep from being tapped while it logs in.
abbrev pub handle_delete : PinEntry → PinEntry
handle_delete p = with_digits (drop_last p.digits) p

-- The rest of `handleDigit`.
abbrev pub pad_answered : Bool → PinEntry → PinEntry
pad_answered ok p = if not p.loading then p else record {
  digits = if ok then p.digits else [];
  error = if ok then p.error else true;
  loading = false;
  logins = p.logins;
  successes = if ok then suc p.successes else p.successes;
}

abbrev pub pad_step : PinEntry → PadEvent → PinEntry
pad_step p (digit d) = handle_digit d p
pad_step p delete = handle_delete p
pad_step p (answered ok) = pad_answered ok p

abbrev pub pad_run : PinEntry → List PadEvent → PinEntry
pad_run p [] = p
pad_run p (e ∷ es) = pad_run (pad_step p e) es

-- The characters that `\D` leaves.
abbrev pub is_digit : Char → Bool
is_digit c = leb 48 (code c) && leb (code c) 57

-- `value.replace(/\D/g, "")`
abbrev pub only_digits : String → String
only_digits nil = nil
only_digits (chars c s) = if is_digit c then chars c (only_digits s) else only_digits s

-- The form's state, the PINs it asked to verify, the latest first, and how often it called `onUnlock`.
pub record KioskLock : Type 0 where
  pub pin : String
  pub error : Bool
  pub loading : Bool
  pub verified : List String
  pub unlocks : ℕ

pub data LockEvent : Type 0 where
  -- the input's text after an edit, which the browser keeps to the `maxLength`
  change : String → LockEvent
  submit : LockEvent
  answered : Bool → LockEvent

abbrev pub locked : KioskLock
locked = record { pin = ""; error = false; loading = false; verified = []; unlocks = 0 }

abbrev max_length : ℕ
max_length = 6

-- The input is disabled while the form loads.
abbrev pub handle_change : String → KioskLock → KioskLock
handle_change value k = if k.loading || ltb max_length (utf16_length value) then k else record {
  pin = only_digits value;
  error = k.error;
  loading = k.loading;
  verified = k.verified;
  unlocks = k.unlocks;
}

-- `handleSubmit` to its `await`; a form whose submit button is disabled does not submit.
abbrev pub handle_submit : KioskLock → KioskLock
handle_submit k = if ltb (utf16_length k.pin) 4 || k.loading then k else record {
  pin = k.pin;
  error = false;
  loading = true;
  verified = k.pin ∷ k.verified;
  unlocks = k.unlocks;
}

abbrev pub lock_answered : Bool → KioskLock → KioskLock
lock_answered ok k = if not k.loading then k else record {
  pin = if ok then k.pin else "";
  error = if ok then k.error else true;
  loading = false;
  verified = k.verified;
  unlocks = if ok then suc k.unlocks else k.unlocks;
}

abbrev pub lock_step : KioskLock → LockEvent → KioskLock
lock_step k (change value) = handle_change value k
lock_step k submit = handle_submit k
lock_step k (answered ok) = lock_answered ok k

abbrev pub lock_run : KioskLock → List LockEvent → KioskLock
lock_run k [] = k
lock_run k (e ∷ es) = lock_run (lock_step k e) es
