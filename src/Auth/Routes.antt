-- ===== src/Auth/Routes.antt =====
-- web/src/components/app-route-gate.tsx: which paths are shown to anyone, and what AuthGate does with the
-- others.
use Prim.Native.Char.{Char, code}
use Prim.Native.String.{[] as nil, ◌∷◌ as chars}
use text.Mathlib.Text.{starts_with}
use text.Mathlib.TextBridge.{IsPrefix}
use text.Mathlib.TextEquality.{starts_with_iff}
use tidyboard.Prelude.{
  ◌≡◌, ◌↔◌, ◌⊎◌, inl, inr, refl, Bool, true, false, not, ◌&&◌, ◌||◌, List, [], ◌∷◌, Option, none,
  some, String, truthy, ◌+++◌, str_eq, any, if◌then◌else◌, ◌==◌, Bool-cases, is_some, eq_iff, arith,
}
use tidyboard.Api.Request.{Platform}
use tidyboard.Auth.Session.{AuthStatus, Session}
use tidyboard.Auth.Gates.{children, Gate, auth_gate, gate_for, has_completed_onboarding}

abbrev public_prefixes : List String
public_prefixes =
    "/auth" ∷ "/join" ∷ "/kiosk" ∷ "/lock" ∷ "/login" ∷ "/offline" ∷ "/onboarding" ∷ "/pin-login"
    ∷ "/preview" ∷ []

-- `pathname === prefix || pathname.startsWith(prefix + "/")`
abbrev pub is_under : String → String → Bool
is_under pathname prefix = str_eq pathname prefix || starts_with pathname (prefix +++ "/")

abbrev onto : Char → List String → List String
onto c [] = chars c nil ∷ []
onto c (s ∷ ss) = chars c s ∷ ss

-- `pathname.split("/")`; the empty pieces pass neither test below.
abbrev pub segments : String → List String
segments nil = "" ∷ []
segments (chars c s) = if code c == 47 then "" ∷ segments s else onto c (segments s)

abbrev is_preview : String → Bool
is_preview segment = str_eq segment "preview" || starts_with segment "preview-"

abbrev pub is_public_or_preview_path : String → Bool
is_public_or_preview_path pathname =
    any (is_under pathname) public_prefixes || any is_preview (segments pathname)

-- `MEMBER_SELECTION_ROUTES.has(pathname)`
abbrev pub selects_member : String → Bool
selects_member pathname = str_eq pathname "/wallet" || str_eq pathname "/chores"

-- `usePathname() || "/"`
abbrev pub path_of : Option String → String
path_of none = "/"
path_of (some p) = if truthy p then p else "/"

abbrev pub app_route_gate : Platform → Option String → Session → Gate
app_route_gate p pathname s =
    let path = path_of pathname in
    if is_public_or_preview_path path
    then record { view = children; push = none }
    else if selects_member path
    then auth_gate p path true false s
    else auth_gate p path true true s

abbrev pub is_authenticated : AuthStatus → Bool
is_authenticated AuthStatus.loading = false
is_authenticated AuthStatus.unauthenticated = false
is_authenticated AuthStatus.authenticated = true

gated-children_iff :
    (p : Platform) (path : String) (profile : Bool) (s : Session)
    → ((auth_gate p path true profile s).view ≡ children)
      ↔ ((is_authenticated s.status && has_completed_onboarding profile s) ≡ true)
gated-children_iff p path profile s = decide s.status (has_completed_onboarding profile s)
  where
    decide :
        (status : AuthStatus) (completed : Bool)
        → ((gate_for p path true completed status).view ≡ children)
          ↔ ((is_authenticated status && completed) ≡ true)
    decide AuthStatus.loading c = (λ e. ground arith, λ e. ground arith)
    decide AuthStatus.unauthenticated c = (λ e. ground arith, λ e. ground arith)
    decide AuthStatus.authenticated true = (λ _. refl, λ _. refl)
    decide AuthStatus.authenticated false = (λ e. ground arith, λ e. ground arith)

view_iff :
    (p : Platform) (pathname : Option String) (s : Session)
    → (let path = path_of pathname in
        ((app_route_gate p pathname s).view ≡ children) ↔ (
          (is_public_or_preview_path path
            || (is_authenticated s.status
                && has_completed_onboarding (not (selects_member path)) s))
          ≡ true))
view_iff p pathname s =
    let path = path_of pathname in
    elim (Bool-cases (is_public_or_preview_path path)) [
      | inl e ↦ rw e (λ _. refl, λ _. refl)
      | inr e ↦ elim (Bool-cases (selects_member path)) [
        | inl d ↦ rw (e, d) (gated-children_iff p path false s)
        | inr d ↦ rw (e, d) (gated-children_iff p path true s)
      ]
    ]

-- Some entry of the list has the property.
abbrev pub AnyOf : (String → Type 0) → List String → Type 0
AnyOf P [] = ⊥
AnyOf P (x ∷ xs) = P x ⊎ AnyOf P xs

-- The path is the page or lies below it.
abbrev pub Under : String → String → Type 0
Under path page = (path ≡ page) ⊎ IsPrefix (page +++ "/") path

-- A piece of the path that is "preview" or begins with "preview-".
abbrev pub Preview : String → Type 0
Preview segment = (segment ≡ "preview") ⊎ IsPrefix "preview-" segment

-- The pages that are shown without a session.
abbrev pub Public : String → Type 0
Public path =
    AnyOf (Under path) (
      "/auth" ∷ "/join" ∷ "/kiosk" ∷ "/lock" ∷ "/login" ∷ "/offline" ∷ "/onboarding" ∷ "/pin-login"
      ∷ "/preview" ∷ [])
    ⊎ AnyOf Preview (segments path)

-- The session has what the page needs: an account, a household and, unless the member is chosen on the page,
-- a member.
abbrev pub Onboarded : String → Session → Type 0
Onboarded path s =
    (s.status ≡ AuthStatus.authenticated)
    × ((is_some s.account ≡ true)
        × ((is_some s.household ≡ true)
            × (((path ≡ "/wallet") ⊎ (path ≡ "/chores")) ⊎ (is_some s.member ≡ true))))

module _ (P Q : Type 0) (a b : Bool) (a_iff : (a ≡ true) ↔ P) (b_iff : (b ≡ true) ↔ Q) where
  or_iff : ((a || b) ≡ true) ↔ (P ⊎ Q)
  or_iff = (to, from)
    where
      to : (a || b) ≡ true → P ⊎ Q
      to h = elim (Bool-cases a) [ inl e ↦ inl (a_iff.0 e) | inr e ↦ inr (b_iff.0 (rw e at h)) ]

      from : P ⊎ Q → (a || b) ≡ true
      from (inl x) = rw (a_iff.1 x) refl
      from (inr y) = let e = b_iff.1 y in ground arith

  and_iff : ((a && b) ≡ true) ↔ (P × Q)
  and_iff = (to, from)
    where
      to : (a && b) ≡ true → P × Q
      to h = elim (Bool-cases a) [ inl e ↦ (a_iff.0 e, b_iff.0 (rw e at h)) | inr e ↦ ground arith ]

      from : P × Q → (a && b) ≡ true
      from (x, y) = rw (a_iff.1 x, b_iff.1 y) refl

any_iff :
    (P : String → Type 0) (p : String → Bool)
    → ((x : String) → (p x ≡ true) ↔ P x)
    → (xs : List String) → (any p xs ≡ true) ↔ AnyOf P xs
any_iff P p h [] = (λ e. ground arith, λ e. absurd e)
any_iff P p h (x ∷ xs) = or_iff (P x) (AnyOf P xs) (p x) (any p xs) (h x) (any_iff P p h xs)

is_public_or_preview_path-Public :
    (path : String) → (is_public_or_preview_path path ≡ true) ↔ Public path
is_public_or_preview_path-Public path =
    or_iff _ _ _ _
      (any_iff (Under path) _
        (λ page. or_iff _ _ _ _ (eq_iff path page) (starts_with_iff path (page +++ "/")))
        public_prefixes)
      (any_iff Preview _ (λ w. or_iff _ _ _ _ (eq_iff w "preview") (starts_with_iff w "preview-"))
        (segments path))

authenticated_iff :
    (st : AuthStatus) → (is_authenticated st ≡ true) ↔ (st ≡ AuthStatus.authenticated)
authenticated_iff AuthStatus.loading = (λ e. ground arith, λ e. ground arith)
authenticated_iff AuthStatus.unauthenticated = (λ e. ground arith, λ e. ground arith)
authenticated_iff AuthStatus.authenticated = (λ _. refl, λ _. refl)

not-not_iff : (b : Bool) (P : Type 0) → ((b ≡ true) ↔ P) → ((not (not b) ≡ true) ↔ P)
not-not_iff true P h = h
not-not_iff false P h = h

has_completed_onboarding-Onboarded :
    (path : String) (s : Session)
    → ((is_authenticated s.status && has_completed_onboarding (not (selects_member path)) s) ≡ true)
      ↔ Onboarded path s
has_completed_onboarding-Onboarded path s = and_iff _ _ _ _ (authenticated_iff s.status) (
    and_iff _ _ _ _ (λ e. e, λ e. e)
      (and_iff _ _ _ _ (λ e. e, λ e. e)
        (or_iff _ _ _ _
          (not-not_iff (selects_member path) _
            (or_iff _ _ _ _ (eq_iff path "/wallet") (eq_iff path "/chores")))
          (λ e. e, λ e. e))))

-- A page is shown exactly when it needs no session, or the session is authenticated and has an account, a
-- household and, unless the page is "/wallet" or "/chores", where the member is chosen, a member. The pages
-- that need no session are the nine public ones with all below them, and those with a piece of their path
-- that is "preview" or begins with "preview-". (A path that is undefined or empty is "/".)
pub app_route_gate-children_iff :
    (p : Platform) (pathname : Option String) (s : Session)
    → ((app_route_gate p pathname s).view ≡ children)
      ↔ (Public (path_of pathname) ⊎ Onboarded (path_of pathname) s)
app_route_gate-children_iff p pathname s =
    let path = path_of pathname in
    let shown = view_iff p pathname s in
    let needs =
      or_iff (Public path) (Onboarded path s) (is_public_or_preview_path path) _
        (is_public_or_preview_path-Public path) (has_completed_onboarding-Onboarded path s) in
    (λ e. needs.0 (shown.0 e), λ h. shown.1 (needs.1 h))
