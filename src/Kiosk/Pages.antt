-- ===== src/Kiosk/Pages.antt =====
-- web/src/app/kiosk/page.tsx: what the page asks for and where it goes.
use text.Mathlib.Text.{starts_with}
use tidyboard.Prelude.{
  ◌≡◌, refl, ℕ, suc, ◌+◌, ◌≤◌, Bool, true, false, not, ◌&&◌, ◌||◌, List, [], ◌∷◌, Option, none,
  some, String, if◌then◌else◌, ltb, ◌==◌, length, length-append, any, find, str_eq, truthy, All,
  Bool-cases, inl, inr, arith,
}
use tidyboard.Kiosk.{
  Member, LockState, Kiosk, KioskEvent, lock_click, back, backspace, submit, members_loaded, select,
  digit, answered, return_to, opened, to_state, set_pad, drop_last, shows_pad, ask_login,
  handle_submit, handle_digit, handle_backspace, without, settled, login_answered, show_pad_of,
  on_pad, is_lock, is_members, after_login, preselect, kiosk_step, kiosk_run, is_person,
}

-- A path of this site.
abbrev pub Local : String → Type 0
Local path = (starts_with path "/" ≡ true) × (starts_with path "//" ≡ false)

abbrev pub PinLength : String × List String → Type 0
PinLength (_, digits) = (4 ≤ length digits) × (length digits ≤ 6)

-- Everything that the page asked for and did.
abbrev pub Safe : Kiosk → Type 0
Safe k =
    All PinLength k.logins
    × All Local k.pushed
    × (length k.pushed + length k.pending ≤ length k.logins)

abbrev Good : Kiosk → Type 0
Good k = Safe k × (length k.pin ≤ 6)

return_to-Local : (requested : Option String) → Local (return_to requested)
return_to-Local none = (refl, refl)
return_to-Local (some r) = elim (Bool-cases (starts_with r "/")) [
  | inr e ↦ rw e (refl, refl)
  | inl e ↦ elim (Bool-cases (starts_with r "//")) [
    | inl d ↦ rw (e, d) (refl, refl)
    | inr d ↦ rw (e, d) (e, d)
  ]
]

if-Good : (b : Bool) (x y : Kiosk) → (b ≡ true → Good x) → Good y → Good (if b then x else y)
if-Good true x y h k = h refl
if-Good false x y h k = k

if_not-Good :
    (b : Bool) (x y : Kiosk) → Good x → (b ≡ true → Good y) → Good (if not b then x else y)
if_not-Good true x y h k = k refl
if_not-Good false x y h k = h

to_state-Good : (st : LockState) (m : Option Member) (k : Kiosk) → Good k → Good (to_state st m k)
to_state-Good st m k (s, _) = (s, omega arith)

pub length-drop_last : (ds : List String) → length (drop_last ds) ≤ length ds
length-drop_last [] = omega arith
length-drop_last (d ∷ []) = omega arith
length-drop_last (d ∷ e ∷ ds) = omega (arith, length-drop_last (e ∷ ds))

ask_login-Good : (m : Option Member) (k : Kiosk) → 4 ≤ length k.pin → Good k → Good (ask_login m k)
ask_login-Good none k h g = g
ask_login-Good (some m) k h ((logins, pushed, count), n) =
    ((((h, n), logins), pushed, omega arith), n)

enough : (a loading : Bool) (n : ℕ) → (a && not (ltb n 4 || loading)) ≡ true → 4 ≤ n
enough a loading n h = ground arith

room : (a b : Bool) (n : ℕ) → (a && b && ltb n 6) ≡ true → n ≤ 5
room a b n h = ground arith

handle_submit-Good : (k : Kiosk) → Good k → Good (handle_submit k)
handle_submit-Good k g =
    if-Good _ _ k
      (λ e. ask_login-Good k.selected k (enough (shows_pad k) k.loading (length k.pin) e) g) g

handle_digit-Good : (d : String) (k : Kiosk) → Good k → Good (handle_digit d k)
handle_digit-Good d k g =
    if-Good _ _ k
      (λ e. (
        g.0,
        omega (
          arith,
          length-append k.pin (d ∷ []),
          room (shows_pad k) (not k.loading) (length k.pin) e,
        ),
      ))
      g

handle_backspace-Good : (k : Kiosk) → Good k → Good (handle_backspace k)
handle_backspace-Good k g = if-Good _ _ k (λ _. (g.0, omega (arith, length-drop_last k.pin, g.1))) g

length-without :
    (n : ℕ) (ms : List ℕ) → any (λ m. m == n) ms ≡ true → suc (length (without n ms)) ≡ length ms
length-without n [] h = ground arith
length-without n (m ∷ ms) h = elim (Bool-cases (m == n)) [
  | inl e ↦ rw e refl
  | inr e ↦ rw e (omega (arith, length-without n ms (rw e at h)))
]

settled-Good :
    (requested : Option String) (n : ℕ) (ok : Bool) (k : Kiosk)
    → any (λ m. m == n) k.pending ≡ true
    → Good k
    → Good
        (settled (without n k.pending) (if ok then return_to requested ∷ k.pushed else k.pushed) k)
settled-Good requested n true k h ((logins, pushed, count), l) =
    ((logins, (return_to-Local requested, pushed), omega (arith, length-without n k.pending h)), l)
settled-Good requested n false k h ((logins, pushed, count), l) =
    ((logins, pushed, omega (arith, length-without n k.pending h)), l)

login_answered-Good :
    (requested : Option String) (n : ℕ) (ok : Bool) (k : Kiosk)
    → Good k
    → Good (login_answered requested n ok k)
login_answered-Good requested n ok k g =
    if_not-Good (any (λ m. m == n) k.pending) k (after_login requested n ok k) g (λ h.
      let done = settled-Good requested n ok k h g in
      let k2 =
        settled (without n k.pending) (if ok then return_to requested ∷ k.pushed else k.pushed) k in
      if_not-Good (shows_pad k && (k.pad == n)) k2
        (if ok then set_pad k2.pin k2.error false k2 else set_pad [] true false k2) done
        (λ _.
          if-Good ok (set_pad k2.pin k2.error false k2) (set_pad [] true false k2) (λ _. done)
            (done.0, omega arith)))

show_pad_of-Good : (m : Option Member) (k : Kiosk) → Good k → Good (show_pad_of m k)
show_pad_of-Good none k g = g
show_pad_of-Good (some m) k g =
    if-Good (shows_pad k) (on_pad m k) (to_state LockState.pin (some m) k) (λ _. g)
      (to_state-Good LockState.pin (some m) k g)

preselect-Good :
    (member : Option String) (ms : List Member) (k : Kiosk) → Good k → Good (preselect member ms k)
preselect-Good none ms k g = g
preselect-Good (some id) ms k g =
    let found = find (λ m. str_eq m.id id && is_person m) ms in
    if-Good (truthy id) (show_pad_of found k) k (λ _. show_pad_of-Good found k g) g

kiosk_step-Good :
    (member requested : Option String) (k : Kiosk) (e : KioskEvent)
    → Good k
    → Good (kiosk_step member requested k e)
kiosk_step-Good member requested k lock_click g =
    if-Good (is_lock k.state) (to_state LockState.members k.selected k) k
      (λ _. to_state-Good LockState.members k.selected k g) g
kiosk_step-Good member requested k back g =
    if-Good (shows_pad k) (to_state LockState.members none k) k
      (λ _. to_state-Good LockState.members none k g) g
kiosk_step-Good member requested k backspace g = handle_backspace-Good k g
kiosk_step-Good member requested k submit g = handle_submit-Good k g
kiosk_step-Good member requested k (members_loaded ms) g = preselect-Good member ms k g
kiosk_step-Good member requested k (select m) g =
    if-Good (is_members k.state && is_person m) (to_state LockState.pin (some m) k) k
      (λ _. to_state-Good LockState.pin (some m) k g) g
kiosk_step-Good member requested k (digit d) g = handle_digit-Good d k g
kiosk_step-Good member requested k (answered n ok) g = login_answered-Good requested n ok k g

kiosk_run-Good :
    (member requested : Option String) (k : Kiosk) (es : List KioskEvent)
    → Good k
    → Good (kiosk_run member requested k es)
kiosk_run-Good member requested k [] g = g
kiosk_run-Good member requested k (e ∷ es) g =
    kiosk_run-Good member requested (kiosk_step member requested k e) es
      (kiosk_step-Good member requested k e g)

-- For any query of the kiosk page and after any sequence of taps, loads of the members and answers: every
-- login that it asked for has a PIN of 4 to 6 digits; it went only to paths of this site (they start with
-- "/" and not with "//"); and it went nowhere more often than there are logins that have been answered.
pub kiosk_run-Safe :
    (member requested : Option String) (es : List KioskEvent)
    → Safe (kiosk_run member requested opened es)
kiosk_run-Safe member requested es =
    (kiosk_run-Good member requested opened es ((tt, tt, omega arith), omega arith)).0
