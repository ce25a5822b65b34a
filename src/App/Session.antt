-- ===== src/App/Session.antt =====
-- The session: what the first request, a refusal and a log out lead to.
use oort.Prelude.{◌≡◌, refl, inl, inr, true, some, [], ◌∷◌, arith, ◌==◌, if◌then◌else◌, Bool-cases}
use oort.Api.Request.{HttpResponse, receive}
use oort.Api.{Failure, message_of}
use oort.Api.Call.{me, logout, Reply}
use oort.Prog.{ok, err, run, Result-cases}
use oort.World.{AppState, World}
use oort.App.Laws.{Env}
use oort.App.{is_unauthorized, check_session, log_out, connect_form, screen}

-- The session after the answer to the first request: a user, or none; a notice only of an error
-- other than a missing session.
abbrev pub after_check : Reply me → AppState → AppState
after_check (ok u) a = record a { user = some u; checked = true }
after_check (err e) a =
    if is_unauthorized e
    then record a { checked = true }
    else record a { checked = true; notice = message_of e }

-- The first effect makes one call, for the user, and never rejects. The session is marked as
-- checked whatever comes back; a user is set exactly if one is returned; and a notice is set only
-- by an error other than status 401.
pub check_session_lem :
    {P : Type 0} (env : Env) (w : World P)
    → run env check_session w ≡ (record w { app = after_check (env 0 me) w.app }, ok tt, me ∷ [])
unfolding check_session
check_session_lem env w = elim (Result-cases (env 0 me)) [
  | inl (u, h) ↦ rw h
  | inr (e, h) ↦ rw h (elim (Bool-cases (is_unauthorized e)) [ inl y ↦ rw y | inr n ↦ rw n ])
]

-- After the session was checked, a log out makes one call and shows the form to connect, with the
-- notice that was last set, whether the server obeys or not.
pub log_out-screen :
    {P : Type 0} (env : Env) (w : World P)
    → w.app.checked ≡ true
    → (screen (run env log_out w).0.app ≡ connect_form w.app.notice)
      × ((run env log_out w).2 ≡ logout ∷ [])
unfolding log_out screen
log_out-screen env w c = elim (Result-cases (env 0 logout)) [
  | inl (u, h) ↦ rw (h, run) (rw c, refl)
  | inr (e, h) ↦ rw (h, run) (rw c, refl)
]

-- An error that a response is turned into counts as a lost session exactly if the status of the
-- response is 401, whatever its body is.
receive-is_unauthorized :
    (r : HttpResponse) (e : Failure) → receive r ≡ err e → is_unauthorized e ≡ (r.status == 401)
unfolding receive
receive-is_unauthorized r e h = ground arith
