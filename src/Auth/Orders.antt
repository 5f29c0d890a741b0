-- ===== src/Auth/Orders.antt =====
-- web/src/lib/auth/auth-store.tsx and the kiosk gate of web/src/app/page.tsx: where three orders of
-- operations lead.
use tidyboard.Prelude.{
  ◌≡◌, refl, true, List, [], ◌∷◌, Option, none, some, String, truthy, eq_iff, or_else,
}
use tidyboard.Api.Query.{given}
use tidyboard.Auth.Session.{
  AuthHousehold, AuthMember, AuthStatus, Reply, answer, MeResponse, PinResponse, Session, member_of,
}
use tidyboard.Auth.Provider.{
  World, run, exposed_active, renamed, accept_token, pin_login, lock_kiosk, logout, pin_answered,
  me_answered,
}
use tidyboard.Auth.Gates.{kiosk_gate, nothing}

abbrev pub idle : Session → World
idle s = record { session = s; waiting = [] }

-- The answer to a sign-in arrives after a logout: if it names an account, the session is authenticated,
-- with that account, although it has no token.
pub late_answer-signs_in :
    (s : Session) (id_token : String) (me : MeResponse) (hs : Reply (List AuthHousehold))
    → truthy me.account_id ≡ true
    → (let after =
          (run
            (idle s)
            (accept_token id_token ∷ logout ∷ me_answered 0 (answer me) hs ∷ [])).session in
        (after.status ≡ AuthStatus.authenticated) × (after.token ≡ none))
late_answer-signs_in s id_token me hs e = rw e (refl, refl)

renamed-id : (id : String) (m : Option AuthMember) → (renamed id m).id ≡ id
renamed-id id none = refl
renamed-id id (some m) = refl

abbrev pub after_pin : Session → PinResponse → MeResponse → Reply (List AuthHousehold) → Session
after_pin s res me hs =
    (run (idle s)
      (pin_login ∷ pin_answered 0 (answer res) ∷ me_answered 0 (answer me) hs ∷ [])).session

-- A PIN login whose answers name a member and an account leaves a session that the kiosk gate of a
-- household in kiosk mode refuses: it shows nothing and navigates back to /kiosk.
pub pin_login-kept_out :
    (s : Session) (res : PinResponse) (me : MeResponse) (hs : Reply (List AuthHousehold))
    → truthy me.account_id ≡ true
    → given res.member_id ≡ true
    → ((kiosk_gate (some true) (after_pin s res me hs)).view ≡ nothing)
      × ((kiosk_gate (some true) (after_pin s res me hs)).push ≡ some "/kiosk")
pin_login-kept_out s res me hs e g =
    rw
      (
        e,
        g,
        renamed-id (or_else res.member_id "") (member_of me),
        (eq_iff (or_else res.member_id "") (or_else res.member_id "")).1 refl,
      )
      (refl, refl)

-- After a PIN login whose answers name a member and an account, locking the kiosk leaves a session whose
-- context still gives an active member, the one who logged in.
pub lock_kiosk-keeps_member :
    (s : Session) (res : PinResponse) (me : MeResponse) (hs : Reply (List AuthHousehold))
    → truthy me.account_id ≡ true
    → given res.member_id ≡ true
    → exposed_active (run (idle (after_pin s res me hs)) (lock_kiosk ∷ [])).session
      ≡ some (renamed (or_else res.member_id "") (member_of me))
lock_kiosk-keeps_member s res me hs e g = rw (e, g) refl
