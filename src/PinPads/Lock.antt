-- ===== src/PinPads/Lock.antt =====
-- web/src/components/kiosk/KioskLock.tsx: what the form sends.
use Prim.Native.String.{[] as nil, ◌∷◌ as chars}
use tidyboard.Prelude.{
  ◌≡◌, refl, ℕ, suc, ◌+◌, ◌≤◌, Bool, true, false, not, ◌&&◌, ◌||◌, List, [], ◌∷◌, String,
  if◌then◌else◌, ltb, length, All, Bool-cases, inl, inr, arith,
}
use tidyboard.Api.Query.{utf16_length}
use tidyboard.PinPads.{
  is_digit, only_digits, KioskLock, LockEvent, change, submit, answered, locked, handle_change,
  handle_submit, lock_answered, lock_run,
}
use tidyboard.PinPads.Entry.{waits}

-- Every character is a digit.
abbrev pub numeric : String → Bool
numeric nil = true
numeric (chars c s) = is_digit c && numeric s

-- Four to six digits.
abbrev pub Pin : String → Type 0
Pin s = (numeric s ≡ true) × ((4 ≤ utf16_length s) × (utf16_length s ≤ 6))

only_digits-numeric : (s : String) → numeric (only_digits s) ≡ true
only_digits-numeric nil = refl
only_digits-numeric (chars c s) = elim (Bool-cases (is_digit c)) [
  | inl e ↦ rw (e, e) (only_digits-numeric s)
  | inr e ↦ rw e (only_digits-numeric s)
]

length-only_digits : (s : String) → utf16_length (only_digits s) ≤ utf16_length s
length-only_digits nil = omega arith
length-only_digits (chars c s) = elim (Bool-cases (is_digit c)) [
  | inl e ↦ rw e (omega (arith, length-only_digits s))
  | inr e ↦ rw e (omega (arith, length-only_digits s))
]

-- What the form has sent and done, and what its input holds.
abbrev Good : KioskLock → Type 0
Good k =
    (All Pin k.verified × (k.unlocks + waits k.loading ≤ length k.verified))
    × ((numeric k.pin ≡ true) × (utf16_length k.pin ≤ 6))

if-Good :
    (b : Bool) (x y : KioskLock)
    → (b ≡ true → Good x)
    → (b ≡ false → Good y)
    → Good (if b then x else y)
if-Good true x y h k = h refl
if-Good false x y h k = k refl

short : (a : Bool) (n : ℕ) → (a || ltb 6 n) ≡ false → n ≤ 6
short a n h = ground arith

handle_change-Good : (value : String) (k : KioskLock) → Good k → Good (handle_change value k)
handle_change-Good value k g =
    if-Good (k.loading || ltb 6 (utf16_length value)) k _ (λ _. g)
      (λ e. (
        g.0,
        (
          only_digits-numeric value,
          omega (arith, length-only_digits value, short k.loading (utf16_length value) e),
        ),
      ))

ready : (n : ℕ) (loading : Bool) → (ltb n 4 || loading) ≡ false → (4 ≤ n) × (loading ≡ false)
ready n loading h = (ground arith, ground arith)

handle_submit-Good : (k : KioskLock) → Good k → Good (handle_submit k)
handle_submit-Good k g =
    let ((all, count), (digits, size)) = g in
    if-Good (ltb (utf16_length k.pin) 4 || k.loading) k _ (λ _. g)
      (λ e.
        let (enough, idle) = ready (utf16_length k.pin) k.loading e in
        ((((digits, (enough, size)), all), omega (arith, (rw idle at count))), (digits, size)))

lock_answered-Good : (ok : Bool) (k : KioskLock) → Good k → Good (lock_answered ok k)
lock_answered-Good ok k g =
    let ((all, count), held) = g in
    if-Good (not k.loading) k _ (λ _. g) (λ l. done ok (one_more k.loading l count))
  where
    one_more :
        (loading : Bool)
        → not loading ≡ false
        → k.unlocks + waits loading ≤ length k.verified
        → suc k.unlocks ≤ length k.verified
    one_more true h c = omega arith
    one_more false h c = ground arith

    done :
        (ok : Bool)
        → suc k.unlocks ≤ length k.verified
        → Good (record {
          pin = if ok then k.pin else "";
          error = if ok then k.error else true;
          loading = false;
          verified = k.verified;
          unlocks = if ok then suc k.unlocks else k.unlocks;
        })
    done true h = ((g.0.0, omega arith), g.1)
    done false h = ((g.0.0, omega arith), (refl, omega arith))

lock_run-Good : (k : KioskLock) (es : List LockEvent) → Good k → Good (lock_run k es)
lock_run-Good k [] g = g
lock_run-Good k (change value ∷ es) g =
    lock_run-Good (handle_change value k) es (handle_change-Good value k g)
lock_run-Good k (submit ∷ es) g = lock_run-Good (handle_submit k) es (handle_submit-Good k g)
lock_run-Good k (answered ok ∷ es) g =
    lock_run-Good (lock_answered ok k) es (lock_answered-Good ok k g)

-- After any edits, submissions and answers: each PIN that the kiosk's lock sent is four to six digits, and it
-- has unlocked no more often than PINs have been answered.
pub lock_run-pins :
    (es : List LockEvent)
    → (let k = lock_run locked es in
        All Pin k.verified × (k.unlocks + waits k.loading ≤ length k.verified))
lock_run-pins es = (lock_run-Good locked es ((tt, omega arith), (refl, omega arith))).0
