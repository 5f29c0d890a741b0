-- ===== src/Auth/Gates.antt =====
-- web/src/components/auth-gate.tsx and admin-gate.tsx, and the kiosk gate of web/src/app/page.tsx: what
-- each shows of its children, and where it navigates.
use tidyboard.Prelude.{
  ◌≡◌, ◌↔◌, refl, Bool, true, false, not, ◌&&◌, ◌||◌, Option, none, some, String, is_some, or_else,
  truthy, ◌+++◌, str_eq, if◌then◌else◌, arith,
}
use tidyboard.Api.Request.{Platform}
use tidyboard.Auth.Session.{AuthMember, Role, AuthStatus, Session}
use tidyboard.Auth.Provider.{exposed_active}

pub data View : Type 0 where
  children skeleton nothing refusal : View

pub record Gate : Type 0 where
  pub view : View
  -- the argument of `router.push`
  pub push : Option String

abbrev pub has_completed_onboarding : Bool → Session → Bool
has_completed_onboarding require_member_profile s =
    is_some s.account && (is_some s.household && (not require_member_profile || is_some s.member))

-- `pathname && pathname !== "/" ? "?returnTo=…" : ""`
abbrev return_to : Platform → String → String
return_to p pathname =
    if truthy pathname && not (str_eq pathname "/")
    then "?returnTo=" +++ p.encode_uri_component pathname
    else ""

abbrev pub gate_for : Platform → String → Bool → Bool → AuthStatus → Gate
gate_for p pathname require_onboarding completed AuthStatus.loading = record {
  view = skeleton;
  push = none;
}
gate_for p pathname require_onboarding completed AuthStatus.unauthenticated = record {
  view = nothing;
  push = some ("/login" +++ return_to p pathname);
}
gate_for p pathname require_onboarding completed AuthStatus.authenticated =
    if require_onboarding && not completed
    then record { view = nothing; push = some "/onboarding" }
    else record { view = children; push = none }

-- `AuthGate` at a path, with its two options.
abbrev pub auth_gate : Platform → String → Bool → Bool → Session → Gate
auth_gate p pathname require_onboarding require_member_profile s =
    gate_for p pathname require_onboarding (has_completed_onboarding require_member_profile s)
      s.status

abbrev is_adult : Option AuthMember → Bool
is_adult none = false
is_adult (some m) = adult_role m.role
  where
    adult_role : Role → Bool
    adult_role Role.adult = true
    adult_role Role.child = false

abbrev admin_view : AuthStatus → Bool → View
admin_view AuthStatus.loading _ = nothing
admin_view _ is_admin = if is_admin then children else refusal

abbrev pub admin_gate : Session → View
admin_gate s = admin_view s.status (is_adult s.member)

-- `hasActiveMember`, of the context's active member and member.
abbrev pub has_active_member : Option AuthMember → Option AuthMember → Bool
has_active_member none _ = false
has_active_member (some a) none = true
has_active_member (some a) (some m) = not (str_eq a.id m.id)

-- `KioskGate`, for the household's `kiosk_mode_enabled`, which may be undefined.
abbrev pub kiosk_gate : Option Bool → Session → Gate
kiosk_gate kiosk_mode_enabled s =
    if or_else kiosk_mode_enabled false && not (has_active_member (exposed_active s) s.member)
    then record { view = nothing; push = some "/kiosk" }
    else record { view = children; push = none }

-- `AuthGate` that requires onboarding shows its children exactly to a session that is authenticated and
-- has an account and a household, and a member if the profile is required.
pub auth_gate-children_iff :
    (p : Platform) (pathname : String) (require_member_profile : Bool) (s : Session)
    → ((auth_gate p pathname true require_member_profile s).view ≡ children) ↔ (
        (s.status ≡ AuthStatus.authenticated)
        × (has_completed_onboarding require_member_profile s ≡ true))
auth_gate-children_iff p pathname require_member_profile s =
    decide s.status (has_completed_onboarding require_member_profile s)
  where
    decide :
        (status : AuthStatus) (completed : Bool)
        → ((gate_for p pathname true completed status).view ≡ children)
          ↔ ((status ≡ AuthStatus.authenticated) × (completed ≡ true))
    decide AuthStatus.loading c = (λ e. ground arith, λ h. absurd (no h.0))
      where
        no : ¬ (AuthStatus.loading ≡ AuthStatus.authenticated)
        no e = ground arith
    decide AuthStatus.unauthenticated c = (λ e. ground arith, λ h. absurd (no h.0))
      where
        no : ¬ (AuthStatus.unauthenticated ≡ AuthStatus.authenticated)
        no e = ground arith
    decide AuthStatus.authenticated true = (λ e. (refl, refl), λ h. refl)
    decide AuthStatus.authenticated false = (λ e. ground arith, λ h. ground arith)

-- Whatever its options, `AuthGate` that shows nothing navigates away, and one that navigates shows nothing.
pub auth_gate-nothing_iff :
    (p : Platform) (pathname : String) (require_onboarding require_member_profile : Bool)
    (s : Session)
    → ((auth_gate p pathname require_onboarding require_member_profile s).view ≡ nothing)
      ↔ (is_some (auth_gate p pathname require_onboarding require_member_profile s).push ≡ true)
auth_gate-nothing_iff p pathname require_onboarding require_member_profile s =
    decide require_onboarding (has_completed_onboarding require_member_profile s) s.status
  where
    decide :
        (required completed : Bool) (status : AuthStatus)
        → ((gate_for p pathname required completed status).view ≡ nothing)
          ↔ (is_some (gate_for p pathname required completed status).push ≡ true)
    decide r c AuthStatus.loading = (λ e. ground arith, λ e. ground arith)
    decide r c AuthStatus.unauthenticated = (λ _. refl, λ _. refl)
    decide false c AuthStatus.authenticated = (λ e. ground arith, λ e. ground arith)
    decide true true AuthStatus.authenticated = (λ e. ground arith, λ e. ground arith)
    decide true false AuthStatus.authenticated = (λ _. refl, λ _. refl)
