-- ===== src/Oidc/Exchange.antt =====
-- web/src/lib/auth/oidc.ts: which callbacks reach the token endpoint, and how often.
use tidyboard.Prelude.{
  ℕ, suc, ◌+◌, ◌≤◌, Bool, true, false, List, [], ◌∷◌, Option, none, some, String, truthy,
  if◌then◌else◌, str_eq, eq_iff, ◌≡◌, ◌↔◌, inl, inr, arith, Bool-cases, refl,
}
use tidyboard.Api.Request.{Platform}
use tidyboard.Api.Query.{given}
use tidyboard.Oidc.{
  OidcConfig, SessionStorage, empty_storage, sign_in, TokenRequest, Begun, threw, sends,
  state_differs, begin_callback, state_mismatch,
}

-- A sign-in that leaves the page, or a callback that comes back to it.
pub data Visit : Type 0 where
  leaves : String → String → String → Visit
  comes_back : Option String → Option String → Visit

abbrev pub sent : Begun → ℕ
sent (threw _) = 0
sent (sends _) = 1

-- How many token requests a sequence of visits sends.
abbrev pub requests : Platform → OidcConfig → SessionStorage → List Visit → ℕ
requests p cfg st [] = 0
requests p cfg st (leaves verifier state return_to ∷ vs) =
    requests p cfg (sign_in p cfg verifier state "" return_to).0 vs
requests p cfg st (comes_back code in_url ∷ vs) =
    let (left, begun) = begin_callback cfg code in_url st in sent begun + requests p cfg left vs

abbrev pub sign_ins : List Visit → ℕ
sign_ins [] = 0
sign_ins (leaves _ _ _ ∷ vs) = suc (sign_ins vs)
sign_ins (comes_back _ _ ∷ vs) = sign_ins vs

-- One more request may follow where a verifier is stored.
abbrev open_sign_ins : SessionStorage → ℕ
open_sign_ins st = if given st.verifier then 1 else 0

state_differs-no :
    (stored in_url : Option String)
    → state_differs stored in_url ≡ false
    → (given stored ≡ true) × (stored ≡ in_url)
state_differs-no none in_url h = ground arith
state_differs-no (some s) none h = ground arith
state_differs-no (some s) (some t) h = elim (Bool-cases (truthy s)) [
  | inl e ↦ elim (Bool-cases (str_eq s t)) [
    | inl d ↦ (e, rw ((eq_iff s t).0 d) refl)
    | inr d ↦ let k = rw (e, d) at h in ground arith
  ]
  | inr e ↦ let k = rw e at h in ground arith
]

state_differs-same :
    (stored : Option String) → given stored ≡ true → state_differs stored stored ≡ false
state_differs-same none h = ground arith
state_differs-same (some s) h = rw (h, (eq_iff s s).1 refl) refl

differs-not :
    {stored in_url : Option String}
    → given stored ≡ true
    → stored ≡ in_url
    → state_differs stored in_url ≡ true
    → ⊥
differs-not {stored} k e d =
    let q = state_differs-same stored k in let r = rw (← e) at d in ground arith

sent-last :
    (b : Bool) (r : TokenRequest) → sent (if b then threw state_mismatch else sends r) + 0 ≤ 1
sent-last b r = ground arith

-- A callback sends a token request exactly when its address has a code, a verifier is stored, and
-- the stored state is not empty and is the state of the address.
pub begin_callback-sends_iff :
    (cfg : OidcConfig) (code in_url : Option String) (st : SessionStorage)
    → (sent (begin_callback cfg code in_url st).1 ≡ 1) ↔ (
        (given code ≡ true)
        × (given st.verifier ≡ true)
        × (given st.state ≡ true)
        × (st.state ≡ in_url))
begin_callback-sends_iff cfg code in_url st = elim (Bool-cases (given code)) [
  | inr c ↦ (λ h. let k = rw c at h in ground arith, λ h. let k = h.0 in ground arith)
  | inl c ↦ elim (Bool-cases (given st.verifier)) [
    | inr v ↦ (λ h. let k = rw (c, v) at h in ground arith, λ h. let k = h.1 in ground arith)
    | inl v ↦ elim (Bool-cases (state_differs st.state in_url)) [
      | inl d ↦ (
        λ h. let k = rw (c, v, d) at h in ground arith,
        λ (_, _, k, e). absurd (differs-not k e d),
      )
      | inr d ↦ (
        λ h. let (k, e) = state_differs-no st.state in_url d in (c, v, k, e),
        λ h. rw (c, v, d) refl,
      )
    ]
  ]
]

sent-begin_callback :
    (cfg : OidcConfig) (code in_url : Option String) (st : SessionStorage)
    → sent (begin_callback cfg code in_url st).1
        + open_sign_ins (begin_callback cfg code in_url st).0
      ≤ open_sign_ins st
sent-begin_callback cfg code in_url st = elim (Bool-cases (given code)) [
  | inr c ↦ rw c (omega arith)
  | inl c ↦ elim (Bool-cases (given st.verifier)) [
    | inr v ↦ rw (c, v) (omega arith)
    | inl v ↦ rw (c, v) (sent-last (state_differs st.state in_url) _)
  ]
]

open_sign_ins-most : (st : SessionStorage) → open_sign_ins st ≤ 1
open_sign_ins-most st = ground arith

requests_from :
    (p : Platform) (cfg : OidcConfig) (st : SessionStorage) (vs : List Visit)
    → requests p cfg st vs ≤ open_sign_ins st + sign_ins vs
requests_from p cfg st [] = omega arith
requests_from p cfg st (leaves verifier state return_to ∷ vs) =
    let left = (sign_in p cfg verifier state "" return_to).0 in
    omega (arith, requests_from p cfg left vs, open_sign_ins-most left)
requests_from p cfg st (comes_back code in_url ∷ vs) = omega (
  arith,
  sent-begin_callback cfg code in_url st,
  requests_from p cfg (begin_callback cfg code in_url st).0 vs,
)

-- Over any sequence of sign-ins and callbacks, replayed and forged ones included, a browser that
-- starts with nothing stored sends at most one token request for each sign-in.
pub requests-sign_ins :
    (p : Platform) (cfg : OidcConfig) (vs : List Visit)
    → requests p cfg empty_storage vs ≤ sign_ins vs
requests-sign_ins p cfg vs = omega (arith, requests_from p cfg empty_storage vs)
