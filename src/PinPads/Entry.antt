-- ===== src/PinPads/Entry.antt =====
-- web/src/app/pin-login/page.tsx, `PinEntry`: what the pad sends, and what a guess costs.
use tidyboard.Prelude.{
  ◌≡◌, refl, subst, ℕ, suc, ◌+◌, ◌*◌, ◌≤◌, Bool, true, false, not, List, [], ◌∷◌, ◌++◌, String,
  if◌then◌else◌, ◌==◌, length, length-append, All, arith,
}
use tidyboard.Kiosk.Pages.{length-drop_last}
use tidyboard.PinPads.{
  PinEntry, PadEvent, digit, delete, answered, shown, with_digits, asks, handle_digit,
  handle_delete, pad_answered, pad_step, pad_run,
}

abbrev pub digit_taps : List PadEvent → ℕ
digit_taps [] = 0
digit_taps (digit d ∷ es) = suc (digit_taps es)
digit_taps (delete ∷ es) = digit_taps es
digit_taps (answered ok ∷ es) = digit_taps es

abbrev pub waits : Bool → ℕ
waits true = 1
waits false = 0

-- After n taps of digits: the digits on the pad, with the logins so far.
abbrev Paid : ℕ → Bool → ℕ → ℕ → ℕ → Type 0
Paid n true digits logins successes = (4 * logins ≤ n + 4 * successes) × (digits ≤ 4)
Paid n false digits logins successes = digits + 4 * logins ≤ n + 4 * successes

abbrev Good : ℕ → PinEntry → Type 0
Good n p =
    All (λ ds. length ds ≡ 4) p.logins
    × ((p.successes + waits p.loading ≤ length p.logins)
        × Paid n p.loading (length p.digits) (length p.logins) p.successes)

asks-Good :
    (n : ℕ) (digits : List String) (p : PinEntry)
    → p.loading ≡ false
    → length digits ≡ 4
    → length digits ≡ suc (length p.digits)
    → Good n p
    → Good (suc n) (asks digits p)
asks-Good n digits p l h k g =
    let (all, (count, paid)) = g in
    (
      (h, all),
      (omega (arith, (rw l at count), h), (omega (arith, (rw l at paid), h, k), omega (arith, h))),
    )

Paid-fewer :
    (n : ℕ) (loading : Bool) (m d l s : ℕ) → m ≤ d → Paid n loading d l s → Paid n loading m l s
Paid-fewer n true m d l s h (a, b) = (a, omega arith)
Paid-fewer n false m d l s h a = omega arith

if-Good :
    (n : ℕ) (b : Bool) (x y : PinEntry)
    → (b ≡ true → Good n x)
    → (b ≡ false → Good n y)
    → Good n (if b then x else y)
if-Good n true x y h k = h refl
if-Good n false x y h k = k refl

Paid-suc : (n : ℕ) (loading : Bool) (d l s : ℕ) → Paid n loading d l s → Paid (suc n) loading d l s
Paid-suc n true d l s (a, b) = (omega arith, b)
Paid-suc n false d l s a = omega arith

Paid-one :
    (n : ℕ) (loading : Bool) (d e l s : ℕ)
    → loading ≡ false
    → e ≡ suc d
    → Paid n loading d l s
    → Paid (suc n) loading e l s
Paid-one n true d e l s h k a = ground arith
Paid-one n false d e l s h k a = omega arith

handle_digit-Good : (n : ℕ) (d : String) (p : PinEntry) → Good n p → Good (suc n) (handle_digit d p)
handle_digit-Good n d p g =
    let next = p.digits ++ d ∷ [] in
    let (all, (count, paid)) = g in
    let longer : length next ≡ suc (length p.digits) =
      omega (arith, length-append p.digits (d ∷ [])) in
    if-Good (suc n) p.loading p (if length next == 4 then asks next p else with_digits next p)
      (λ _. (all, (count, Paid-suc n p.loading _ _ _ paid)))
      (λ l.
        if-Good (suc n) (length next == 4) (asks next p) (with_digits next p)
          (λ four. asks-Good n next p l (ground arith) longer g)
          (λ _. (all, (count, Paid-one n p.loading (length p.digits) _ _ _ l longer paid))))

handle_delete-Good : (n : ℕ) (p : PinEntry) → Good n p → Good n (handle_delete p)
handle_delete-Good n p (all, (count, paid)) =
    (all, (count, Paid-fewer n p.loading _ (length p.digits) _ _ (length-drop_last p.digits) paid))

waited :
    (n : ℕ) (loading : Bool) (d l s : ℕ)
    → not loading ≡ false
    → s + waits loading ≤ l
    → Paid n loading d l s
    → (suc s ≤ l) × ((4 * l ≤ n + 4 * s) × (d + 4 * l ≤ n + 4 * suc s))
waited n true d l s h c (a, b) = (omega arith, (a, omega arith))
waited n false d l s h c a = ground arith

pad_answered-Good : (n : ℕ) (ok : Bool) (p : PinEntry) → Good n p → Good n (pad_answered ok p)
pad_answered-Good n ok p g =
    let (all, (count, paid)) = g in
    if-Good n (not p.loading) p _ (λ _. g) (λ l. done ok (waited n p.loading _ _ _ l count paid))
  where
    done :
        (ok : Bool)
        → (suc p.successes ≤ length p.logins)
          × ((4 * length p.logins ≤ n + 4 * p.successes)
              × (length p.digits + 4 * length p.logins ≤ n + 4 * suc p.successes))
        → Good n (record {
          digits = if ok then p.digits else [];
          error = if ok then p.error else true;
          loading = false;
          logins = p.logins;
          successes = if ok then suc p.successes else p.successes;
        })
    done true (a, (b, c)) = (g.0, (omega arith, c))
    done false (a, (b, c)) = (g.0, (omega arith, omega arith))

pad_step-Good :
    (n : ℕ) (p : PinEntry) (e : PadEvent) → Good n p → Good (digit_taps (e ∷ []) + n) (pad_step p e)
pad_step-Good n p (digit d) g =
    subst (λ m. Good m (handle_digit d p)) (omega arith) (handle_digit-Good n d p g)
pad_step-Good n p delete g =
    subst (λ m. Good m (handle_delete p)) (omega arith) (handle_delete-Good n p g)
pad_step-Good n p (answered ok) g =
    subst (λ m. Good m (pad_answered ok p)) (omega arith) (pad_answered-Good n ok p g)

digit_taps-cons :
    (e : PadEvent) (es : List PadEvent) (n : ℕ)
    → digit_taps es + (digit_taps (e ∷ []) + n) ≡ digit_taps (e ∷ es) + n
digit_taps-cons (digit d) es n = omega arith
digit_taps-cons delete es n = omega arith
digit_taps-cons (answered ok) es n = omega arith

pad_run-Good :
    (n : ℕ) (p : PinEntry) (es : List PadEvent) → Good n p → Good (digit_taps es + n) (pad_run p es)
pad_run-Good n p [] g = subst (λ m. Good m p) (omega arith) g
pad_run-Good n p (e ∷ es) g =
    subst (λ m. Good m (pad_run (pad_step p e) es)) (digit_taps-cons e es n)
      (pad_run-Good (digit_taps (e ∷ []) + n) (pad_step p e) es (pad_step-Good n p e g))

Paid-logins : (n : ℕ) (loading : Bool) (d l s : ℕ) → Paid (n + 0) loading d l s → 4 * l ≤ n + 4 * s
Paid-logins n true d l s (a, b) = omega arith
Paid-logins n false d l s a = omega arith

-- After any taps on the pad and answers: each login that it asked for has exactly four digits; it has
-- succeeded no more often than logins have been answered; and each login that has not succeeded cost four taps
-- of a digit.
pub pad_run-guesses :
    (es : List PadEvent)
    → (let p = pad_run shown es in
        All (λ ds. length ds ≡ 4) p.logins
        × ((p.successes + waits p.loading ≤ length p.logins)
            × (4 * length p.logins ≤ digit_taps es + 4 * p.successes)))
pad_run-guesses es =
    let p = pad_run shown es in
    let (all, (count, paid)) = pad_run-Good 0 shown es (tt, (omega arith, omega arith)) in
    (all, (count, Paid-logins (digit_taps es) p.loading _ _ _ paid))
