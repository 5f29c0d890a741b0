-- ===== src/Routine/Taps.antt =====
-- web/src/components/screens/routine.tsx, `RoutineKid`: what taps do to the checks and to the marks posted.
use tidyboard.Prelude.{
  ◌≡◌, refl, sym, ap, ap₂, subst, ◌∙◌, ℕ, suc, ◌+◌, ◌/◌, ◌%◌, Bool, true, false, not, ◌&&◌, ◌||◌,
  List, [], ◌∷◌, ◌++◌, some, String, truthy, str_eq, if◌then◌else◌, any, keep, ◌==◌, Bool-cases,
  inl, inr, arith, eq_iff, map,
}
use tidyboard.Types.{ApiRoutine, ApiRoutineStep}
use tidyboard.Routine.{
  Mark, Kid, tap, shown, has, toggled, active_member_id, handle_tap_step, tapped, kid_step, kid_run,
  minutes, minutes_left,
}

str_eq_refl : (s : String) → str_eq s s ≡ true
str_eq_refl s = (eq_iff s s).1 refl

has-append : (s t : String) (xs : List String) → has s (xs ++ t ∷ []) ≡ (has s xs || str_eq s t)
has-append s t [] = ground arith
has-append s t (x ∷ xs) = ground (arith, has-append s t xs)

or_and_not : (b a : Bool) → (a && not b) ≡ ((b || a) && not b)
or_and_not b a = ground arith

has-keep :
    (s t : String) (xs : List String)
    → has s (keep (λ x. not (str_eq x t)) xs) ≡ (has s xs && not (str_eq s t))
has-keep s t [] = refl
has-keep s t (x ∷ xs) = elim (Bool-cases (str_eq x t)) [
  | inl e ↦ rw (e, has-keep s t xs, (eq_iff x t).0 e) (or_and_not (str_eq s t) (has s xs))
  | inr e ↦ elim (Bool-cases (str_eq s x)) [
    | inl f ↦ rw (e, f, (eq_iff s x).0 f, e) refl
    | inr f ↦ rw (e, f) (has-keep s t xs)
  ]
]

has-toggled :
    (s t : String) (xs : List String)
    → has s (toggled t xs) ≡ (if str_eq s t then not (has s xs) else has s xs)
has-toggled s t xs = elim (Bool-cases (has t xs)) [
  | inl e ↦ rw (e, has-keep s t xs) (picks s t xs e)
  | inr e ↦ rw (e, has-append s t xs) (leaves s t xs e)
]
  where
    picks :
        (s t : String) (xs : List String)
        → has t xs ≡ true
        → (has s xs && not (str_eq s t)) ≡ (if str_eq s t then not (has s xs) else has s xs)
    picks s t xs e = elim (Bool-cases (str_eq s t)) [
      | inl f ↦ rw (f, (eq_iff s t).0 f, e) refl
      | inr f ↦ rw f (ground arith)
    ]

    leaves :
        (s t : String) (xs : List String)
        → has t xs ≡ false
        → (has s xs || str_eq s t) ≡ (if str_eq s t then not (has s xs) else has s xs)
    leaves s t xs e = elim (Bool-cases (str_eq s t)) [
      | inl f ↦ rw (f, (eq_iff s t).0 f, e) refl
      | inr f ↦ rw f (ground arith)
    ]

-- How often a step is among those tapped, and among the marks posted.
abbrev pub count : String → List String → ℕ
count s [] = 0
count s (t ∷ ts) = let n = count s ts in if str_eq s t then suc n else n

abbrev pub marks_of : String → List Mark → ℕ
marks_of s ms = count s (map (λ m. m.step_id) ms)

abbrev pub bit : Bool → ℕ
bit b = if b then 1 else 0

-- The state after n taps of a step, from its check and its marks before.
abbrev Tapped : Bool → ℕ → ℕ → Bool → ℕ → Type 0
Tapped b p n c q = (c ≡ ((bit b + n) % 2 == 1)) × (q ≡ p + (n + bit (not b)) / 2)

one_more :
    (b : Bool) (p n : ℕ) (c : Bool) (q : ℕ)
    → Tapped (not b) (p + bit (not b)) n c q
    → Tapped b p (suc n) c q
one_more b p n c q (h, k) = (ground arith, ground arith)

-- A tap on another step, and on the step itself.
other_tap :
    (r : ApiRoutine) (k : Kid) (s t : String)
    → str_eq s t ≡ false
    → (has s (handle_tap_step r t k).done_steps ≡ has s k.done_steps)
      × (marks_of s (handle_tap_step r t k).marks ≡ marks_of s k.marks)
other_tap r k s t e = (
  rw (has-toggled s t k.done_steps, e) refl,
  elim (Bool-cases (not (has t k.done_steps) && truthy (active_member_id r))) [
    | inl f ↦ rw (f, e) (omega arith)
    | inr f ↦ rw f refl
  ],
)

own_tap :
    (r : ApiRoutine) (k : Kid) (s t : String)
    → str_eq s t ≡ true
    → truthy (active_member_id r) ≡ true
    → (has s (handle_tap_step r t k).done_steps ≡ not (has s k.done_steps))
      × (marks_of s (handle_tap_step r t k).marks
          ≡ marks_of s k.marks + bit (not (has s k.done_steps)))
own_tap r k s t e a = (
  rw (has-toggled s t k.done_steps, e) refl,
  elim (Bool-cases (has s k.done_steps)) [
    | inl f ↦ rw (← (eq_iff s t).0 e, f) (omega arith)
    | inr f ↦ rw (← (eq_iff s t).0 e, f, a, str_eq_refl s) (omega arith)
  ],
)

abbrev pub can_tap : ApiRoutine → String → Bool
can_tap r t = any (λ s. str_eq t s.id) r.steps

not_tapped :
    (r : ApiRoutine) (s t : String) → can_tap r s ≡ true → can_tap r t ≡ false → str_eq s t ≡ false
not_tapped r s t h e = elim (Bool-cases (str_eq s t)) [
  | inl f ↦ let k = rw ((eq_iff s t).0 f) at h in ground arith
  | inr f ↦ f
]

-- What n taps of a step make of one state, when they lead to another.
abbrev After : String → ℕ → Kid → Kid → Type 0
After s n k k2 =
    Tapped (has s k.done_steps) (marks_of s k.marks) n (has s k2.done_steps) (marks_of s k2.marks)

tap-can :
    (r : ApiRoutine) (k : Kid) (t : String)
    → shown k.api_routine k.members ≡ some r
    → (b : Bool) → can_tap r t ≡ b
    → kid_step k (tap t) ≡ (if b then handle_tap_step r t k else k)
tap-can r k t h b e = ap (λ o. tapped o t k) h ∙ ap (λ c. if c then handle_tap_step r t k else k) e

After-other :
    (r : ApiRoutine) (k k2 : Kid) (s t : String) (n : ℕ)
    → str_eq s t ≡ false
    → After s n (handle_tap_step r t k) k2
    → After s (if str_eq s t then suc n else n) k k2
After-other r k k2 s t n f (c, q) =
    let (d, m) = other_tap r k s t f in
    rw f (c ∙ ap (λ b. (bit b + n) % 2 == 1) d, q ∙ ap₂ (λ b p. p + (n + bit (not b)) / 2) d m)

After-own :
    (r : ApiRoutine) (k k2 : Kid) (s t : String) (n : ℕ)
    → str_eq s t ≡ true
    → truthy (active_member_id r) ≡ true
    → After s n (handle_tap_step r t k) k2
    → After s (if str_eq s t then suc n else n) k k2
After-own r k k2 s t n f a (c, q) =
    let (d, m) = own_tap r k s t f a in
    rw f (
      one_more (has s k.done_steps) (marks_of s k.marks) n (has s k2.done_steps)
        (marks_of s k2.marks)
        (c ∙ ap (λ b. (bit b + n) % 2 == 1) d, q ∙ ap₂ (λ b p. p + (n + bit (not b)) / 2) d m))

-- While a routine with a member is shown: after any taps, of which n are on one of its steps, that step is
-- done exactly when n is odd, counting one more when it was done before; and n / 2 marks of it have been
-- posted, rounded up when it was not done before: taking a check back posts nothing, and giving it again
-- posts it again.
pub taps-marks :
    (r : ApiRoutine) (k : Kid) (s : String) (ts : List String)
    → shown k.api_routine k.members ≡ some r
    → can_tap r s ≡ true
    → truthy (active_member_id r) ≡ true
    → (let k2 = kid_run k (map tap ts) in
        let b = has s k.done_steps in
        (has s k2.done_steps ≡ ((bit b + count s ts) % 2 == 1))
        × (marks_of s k2.marks ≡ marks_of s k.marks + (count s ts + bit (not b)) / 2))
taps-marks r k s [] h c a = (ground arith, ground arith)
taps-marks r k s (t ∷ ts) h c a = elim (Bool-cases (can_tap r t)) [
  | inl e ↦
      let k2 = handle_tap_step r t k in
      let ih = taps-marks r k2 s ts h c a in
      subst (λ x. After s (count s (t ∷ ts)) k (kid_run x (map tap ts)))
        (sym (tap-can r k t h true e))
        (elim (Bool-cases (str_eq s t)) [
          | inl f ↦ After-own r k (kid_run k2 (map tap ts)) s t (count s ts) f a ih
          | inr f ↦ After-other r k (kid_run k2 (map tap ts)) s t (count s ts) f ih
        ])
  | inr e ↦
      subst (λ x. After s (count s (t ∷ ts)) k (kid_run x (map tap ts)))
        (sym (tap-can r k t h false e))
        (subst
          (λ b. After s (if b then suc (count s ts) else count s ts) k (kid_run k (map tap ts)))
          (sym (not_tapped r s t c e)) (taps-marks r k s ts h c a))
]

-- The minutes shown as left are those of the steps that are not done; with those of the done steps they make
-- up the routine's.
pub minutes_left-sum :
    (done : List String) (steps : List ApiRoutineStep)
    → minutes_left done steps + minutes (keep (λ s. has s.id done) steps) ≡ minutes steps
minutes_left-sum done [] = omega arith
minutes_left-sum done (s ∷ ss) = elim (Bool-cases (has s.id done)) [
  | inl e ↦ rw e (omega (arith, minutes_left-sum done ss))
  | inr e ↦ rw e (omega (arith, minutes_left-sum done ss))
]
