-- ===== src/Apps/Laws.antt =====
-- The window in which an app opens.
use oort.Prelude.{◌≡◌, refl, inl, inr, Bool, true, false, some, List, [], ◌∷◌}
use oort.Text.{Text, lit}
use oort.Api.{Failure, message_of}
use oort.Api.Call.{Call, app_login_link}
use oort.Toast.{push, error}
use oort.Prog.{Result, ok, err, run, Result-cases}
use oort.World.{World}
use oort.App.Laws.{Env}
use oort.Apps.{AppsPage, closed, showing, open_app}

-- Where the app is shown: in the window that was opened, or, if the browser blocked that, in this one.
abbrev pub Shows : Bool → Text → AppsPage → Type 0
Shows true url p = p.popup ≡ showing url
Shows false url p = (p.popup ≡ closed) × (p.location ≡ some url)

module _ (env : Env) (allowed : Bool) (tenant slug : Text) (w : World AppsPage) where
  abbrev asked : Call
  asked = app_login_link tenant slug

  -- The end of an opening: the link came and is shown; or it was refused, which is noticed, no window
  -- is left open, and this one is where it was.
  pub data IsOpening (e : World AppsPage × Result Failure (Unit {0}) × List Call) : Type 0 where
    opened :
        (url : Text)
        → env 0 asked ≡ ok url
        → Shows allowed url e.0.page
        → e.0.toasts ≡ w.toasts
        → e.2 ≡ asked ∷ []
        → IsOpening e
    refused :
        (f : Failure)
        → env 0 asked ≡ err f
        → e.0.page ≡ record w.page { popup = closed }
        → e.0.toasts ≡ push (lit "App could not open") (message_of f) error w.toasts
        → e.2 ≡ asked ∷ []
        → IsOpening e

open_app_answered :
    (env : Env) (allowed : Bool) (tenant slug url : Text) (w : World AppsPage)
    → env 0 (app_login_link tenant slug) ≡ ok url
    → IsOpening env allowed tenant slug w (run env (open_app allowed tenant slug) w)
unfolding open_app
open_app_answered env true tenant slug url w h = rw (h, run) (opened url h refl refl refl)
open_app_answered env false tenant slug url w h = rw (h, run) (opened url h (refl, refl) refl refl)

open_app_refused :
    (env : Env) (allowed : Bool) (tenant slug : Text) (f : Failure) (w : World AppsPage)
    → env 0 (app_login_link tenant slug) ≡ err f
    → IsOpening env allowed tenant slug w (run env (open_app allowed tenant slug) w)
unfolding open_app
open_app_refused env allowed tenant slug f w h = rw (h, run) (refused f h refl refl refl)

-- The opening of an app asks for a link and calls nothing else. If the link comes, the app is shown
-- in the window that was opened, or in this one if the browser opened none, and nothing is noticed;
-- if it is refused, no window is left open, the rest of the page is as it was, and the failure is
-- noticed.
pub open_app_ends :
    (env : Env) (allowed : Bool) (tenant slug : Text) (w : World AppsPage)
    → IsOpening env allowed tenant slug w (run env (open_app allowed tenant slug) w)
open_app_ends env allowed tenant slug w = elim (Result-cases (env 0 (app_login_link tenant slug))) [
  | inl (url, h) ↦ open_app_answered env allowed tenant slug url w h
  | inr (f, h) ↦ open_app_refused env allowed tenant slug f w h
]
