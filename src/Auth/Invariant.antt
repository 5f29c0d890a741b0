-- ===== src/Auth/Invariant.antt =====
-- web/src/lib/auth/auth-store.tsx: what holds of the provider's state after every sequence of operations
-- and answers, in whatever order they come.
use tidyboard.Prelude.{
  ◌≡◌, refl, ◌⊎◌, inl, inr, Bool, true, false, List, [], ◌∷◌, Option, none, some, String, is_some,
  truthy, All, keep, Bool-cases, arith,
}
use tidyboard.Api.Query.{is_uuid, given}
use tidyboard.Auth.Session.{
  AuthHousehold, AuthStatus, Reply, answer, failure, MeResponse, PinResponse, Storage, Session,
  has_uuid, first, households_of, household_of, hydrate, clear_session_state, clear_token,
  read_token,
}
use tidyboard.Auth.Provider.{
  World, Waiting, Event, initial, step, run, pick, pin_resume, me_resume, unless_hydrated,
  pin_hydrated, claim_member, me_continue, mount_effect, mounting, accepting, refreshing,
  pin_asking, pin_hydrating, mount, accept_token, refresh, pin_login, set_active_member, lock_kiosk,
  logout, pin_answered, me_answered,
}

abbrev pub SignedOut : Session → Type 0
SignedOut s =
    (s.account ≡ none) × (s.household ≡ none) × (s.member ≡ none) × (s.available_households ≡ [])

abbrev IsUuidHousehold : Option AuthHousehold → Type 0
IsUuidHousehold none = Unit
IsUuidHousehold (some h) = has_uuid h ≡ true

-- Signed in with an account, or with no account, household, member or list of households; and every
-- household that the session names has a UUID.
abbrev pub WellFormed : Session → Type 0
WellFormed s =
    (((s.status ≡ AuthStatus.authenticated) × (is_some s.account ≡ true)) ⊎ SignedOut s)
    × IsUuidHousehold s.household
    × All (λ h. has_uuid h ≡ true) s.available_households

All-kept : {A : Type 0} (p : A → Bool) (xs : List A) → All (λ x. p x ≡ true) (keep p xs)
All-kept p [] = tt
All-kept p (x ∷ xs) = elim (Bool-cases (p x)) [
  | inl e ↦ rw e (e, All-kept p xs)
  | inr e ↦ rw e (All-kept p xs)
]

households_of-All :
    (r : Reply (List AuthHousehold)) → All (λ h. has_uuid h ≡ true) (households_of r)
households_of-All (answer hs) = All-kept has_uuid hs
households_of-All failure = tt

first-IsUuid :
    (hs : List AuthHousehold) → All (λ h. has_uuid h ≡ true) hs → IsUuidHousehold (first hs)
first-IsUuid [] _ = tt
first-IsUuid (h ∷ _) (e, _) = e

household_of-IsUuid :
    (id : Option String) (hs : List AuthHousehold)
    → All (λ h. has_uuid h ≡ true) hs
    → IsUuidHousehold (household_of id hs)
household_of-IsUuid none hs a = first-IsUuid hs a
household_of-IsUuid (some id) hs a = elim (Bool-cases (is_uuid (some id))) [
  | inl e ↦ rw e e
  | inr e ↦ rw e (first-IsUuid hs a)
]

cleared-WellFormed : (s : Session) → WellFormed (clear_session_state s)
cleared-WellFormed s = (inr (refl, refl, refl, refl), tt, tt)

hydrate-WellFormed :
    (me : Reply MeResponse) (hs : Reply (List AuthHousehold)) (s : Session)
    → WellFormed s
    → WellFormed (hydrate me hs s).1
hydrate-WellFormed failure hs s w = w
hydrate-WellFormed (answer me) hs s w = elim (Bool-cases (truthy me.account_id)) [
  | inl e ↦ rw e (
    inl (refl, refl),
    household_of-IsUuid me.household_id (households_of hs) (households_of-All hs),
    households_of-All hs,
  )
  | inr e ↦ rw e w
]

abbrev SignedIn : Session → Type 0
SignedIn s = (s.status ≡ AuthStatus.authenticated) × (is_some s.account ≡ true)

hydrate-SignedIn :
    (me : Reply MeResponse) (hs : Reply (List AuthHousehold)) (s : Session)
    → (hydrate me hs s).0 ≡ true
    → SignedIn (hydrate me hs s).1
hydrate-SignedIn failure hs s = λ h. ground arith
hydrate-SignedIn (answer me) hs s =
    elim (Bool-cases (truthy me.account_id))
      as (λ _. (hydrate (answer me) hs s).0 ≡ true → SignedIn (hydrate (answer me) hs s).1) [
        | inl e ↦ rw e (λ _. (refl, refl))
        | inr e ↦ rw e (λ h. ground arith)
      ]

unless_hydrated-WellFormed : (r : Bool × Session) → WellFormed r.1 → WellFormed (unless_hydrated r)
unless_hydrated-WellFormed (true, s) w = w
unless_hydrated-WellFormed (false, s) w = cleared-WellFormed (clear_token s)

claim_member-WellFormed :
    (m : Option String) (s : Session) → SignedIn s → WellFormed s → WellFormed (claim_member m s)
claim_member-WellFormed m s i (_, h, a) = elim (Bool-cases (given m)) [
  | inl e ↦ rw e (inl i, h, a)
  | inr e ↦ rw e (inl i, h, a)
]

pin_hydrated-WellFormed :
    (m : Option String) (r : Bool × Session)
    → (r.0 ≡ true → SignedIn r.1)
    → WellFormed r.1
    → WellFormed (pin_hydrated m r)
pin_hydrated-WellFormed m (true, s) i w = claim_member-WellFormed m s (i refl) w
pin_hydrated-WellFormed m (false, s) i w = cleared-WellFormed (clear_token s)

me_continue-WellFormed :
    (me : Reply MeResponse) (hs : Reply (List AuthHousehold)) (v : Waiting) (s : Session)
    → WellFormed s
    → WellFormed (me_continue me hs v s)
me_continue-WellFormed me hs mounting s w =
    unless_hydrated-WellFormed (hydrate me hs s) (hydrate-WellFormed me hs s w)
me_continue-WellFormed me hs accepting s w =
    unless_hydrated-WellFormed (hydrate me hs s) (hydrate-WellFormed me hs s w)
me_continue-WellFormed me hs refreshing s w = hydrate-WellFormed me hs s w
me_continue-WellFormed me hs pin_asking s w = w
me_continue-WellFormed me hs (pin_hydrating m) s w =
    pin_hydrated-WellFormed m (hydrate me hs s) (hydrate-SignedIn me hs s)
      (hydrate-WellFormed me hs s w)

mount_effect-WellFormed : (w : World) → WellFormed w.session → WellFormed (mount_effect w).session
mount_effect-WellFormed w h = elim (Bool-cases (given (read_token w.session.storage))) [
  | inl e ↦ rw e h
  | inr e ↦ rw e (cleared-WellFormed w.session)
]

pin_resume-WellFormed :
    (w : World) (res : Reply PinResponse) (p : Option (Waiting × List Waiting))
    → WellFormed w.session
    → WellFormed (pin_resume w res p).session
pin_resume-WellFormed w res none h = h
pin_resume-WellFormed w (answer _) (some (pin_asking, _)) h = h
pin_resume-WellFormed w failure (some (pin_asking, _)) h = h
pin_resume-WellFormed w res (some (mounting, _)) h = h
pin_resume-WellFormed w res (some (accepting, _)) h = h
pin_resume-WellFormed w res (some (refreshing, _)) h = h
pin_resume-WellFormed w res (some (pin_hydrating _, _)) h = h

me_resume-WellFormed :
    (w : World) (me : Reply MeResponse) (hs : Reply (List AuthHousehold))
    (p : Option (Waiting × List Waiting))
    → WellFormed w.session
    → WellFormed (me_resume w me hs p).session
me_resume-WellFormed w me hs none h = h
me_resume-WellFormed w me hs (some (pin_asking, _)) h = h
me_resume-WellFormed w me hs (some (mounting, _)) h =
    me_continue-WellFormed me hs mounting w.session h
me_resume-WellFormed w me hs (some (accepting, _)) h =
    me_continue-WellFormed me hs accepting w.session h
me_resume-WellFormed w me hs (some (refreshing, _)) h =
    me_continue-WellFormed me hs refreshing w.session h
me_resume-WellFormed w me hs (some (pin_hydrating m, _)) h =
    me_continue-WellFormed me hs (pin_hydrating m) w.session h

step-WellFormed : (w : World) (e : Event) → WellFormed w.session → WellFormed (step w e).session
step-WellFormed w mount h = mount_effect-WellFormed w h
step-WellFormed w (accept_token t) h = h
step-WellFormed w refresh h = h
step-WellFormed w pin_login h = h
step-WellFormed w (set_active_member m) h = h
step-WellFormed w lock_kiosk h = h
step-WellFormed w logout h = cleared-WellFormed (clear_token w.session)
step-WellFormed w (pin_answered n res) h = pin_resume-WellFormed w res (pick n w.waiting) h
step-WellFormed w (me_answered n me hs) h = me_resume-WellFormed w me hs (pick n w.waiting) h

-- After every sequence of operations and answers, on every browser storage, the session is well-formed:
-- it is authenticated and has an account, or it has no account, household, member or list of
-- households; and the household it names and all those it lists have UUIDs.
pub run-WellFormed :
    (storage : Storage) (es : List Event) → WellFormed (run (initial storage) es).session
run-WellFormed storage es = from (initial storage) es (inr (refl, refl, refl, refl), tt, tt)
  where
    from : (w : World) (es : List Event) → WellFormed w.session → WellFormed (run w es).session
    from w [] h = h
    from w (e ∷ es) h = from (step w e) es (step-WellFormed w e h)
