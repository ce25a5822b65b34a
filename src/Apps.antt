-- ===== src/Apps.antt =====
-- internal/server/web/src/pages/Apps.tsx: opening, rolling back and deleting apps.
pub mod Laws
pub mod Marks
pub mod Rollback
pub mod View
pub mod Controls
use oort.Prelude.{
  ℕ, zero, suc, ◌+◌, ◌-◌, ◌*◌, ◌/◌, ◌%◌, ◌^◌, ◌≤◌, ◌<◌, ◌≡◌, refl, sym, ap, ◌∙◌, ◌≢◌, ◌↔◌, ◌⊎◌, inl,
  inr, Bool, true, false, not, ◌&&◌, ◌||◌, Option, none, some, List, [], ◌∷◌, ◌++◌, map,
  append_assoc, append-nil, arith, ltb, leb, ◌==◌, if◌then◌else◌, ==_iff, ltb→lt, Bool-cases,
  Option-cases, length, take, head?, find, filter, any, all, length-append, length-take, All,
  All-append,
}
use oort.Text.{Text, lit, text_eq}
use oort.Json.{show}
use oort.Api.{Failure, Dashboard, Deployment, AppInfo, message_of}
use oort.Api.Call.{Handler, app_login_link, rollback, delete_app}
use oort.Prog.{◌>>=◌, ◌>>◌, call, try_catch, finally}
use oort.Toast.{fine, error}
use oort.World.{World, toast, set_page, confirmed}
use oort.App.{load_workspace}

-- The window that `window.open` gave, by its address.
pub data Popup : Type 0 where
  closed : Popup
  showing : Text → Popup

pub record AppsPage : Type 0 where
  pub rolling_back : Text
  pub deleting : Text
  pub popup : Popup
  -- the address that this window is sent to
  pub location : Option Text

abbrev pub reload : Dashboard → Handler (World AppsPage)
reload d = load_workspace (some d.tenant.slug)

-- `openApp`; `allowed` says whether the browser opened the window.
unfoldable pub open_app : Bool → Text → Text → Handler (World AppsPage)
open_app allowed tenant slug =
    set_page (λ p. record p { popup = if allowed then showing (lit "about:blank") else closed })
    >> try_catch
        (do
          url ← call (app_login_link tenant slug)
          set_page (λ p.
              if allowed
              then record p { popup = showing url }
              else record p { location = some url }))
        (λ e.
          set_page (λ p. record p { popup = closed })
          >> toast (lit "App could not open") (message_of e) error)

unfoldable pub while_rolling_back : Text → Handler (World AppsPage) → Handler (World AppsPage)
while_rolling_back id body =
    set_page (λ p. record p { rolling_back = id })
    >> finally body (set_page (λ p. record p { rolling_back = [] }))

unfoldable pub while_deleting : Text → Handler (World AppsPage) → Handler (World AppsPage)
while_deleting slug body =
    set_page (λ p. record p { deleting = slug })
    >> finally body (set_page (λ p. record p { deleting = [] }))

abbrev pub restore_failed : Failure → Handler (World AppsPage)
restore_failed e = toast (lit "Rollback failed") (message_of e) error

abbrev pub delete_failed : Failure → Handler (World AppsPage)
delete_failed e = toast (lit "App could not be deleted") (message_of e) error

module _ (d : Dashboard) where
  -- the `try` blocks and the `catch` blocks of `rollback` and `remove`
  abbrev pub restore : Text → Text → ℕ → Handler (World AppsPage)
  restore deployment app_slug version = do
    _ ← call (rollback d.tenant.slug deployment)
    toast (lit "Release restored") (app_slug ++ (lit " now serves v" ++ (show version ++ lit ".")))
        fine
    reload d

  abbrev pub delete : Text → Handler (World AppsPage)
  delete slug = do
    _ ← call (delete_app d.tenant.slug slug)
    reload d
    toast (lit "App deleted") slug fine

module _ (d : Dashboard) (confirm : Text → Bool) where
  -- the function `rollback`
  unfoldable pub roll_back : Text → Text → ℕ → Handler (World AppsPage)
  roll_back deployment app_slug version =
      confirmed
        (confirm
          (lit "Point " ++ (app_slug ++ (lit " back to release v" ++ (show version ++ lit "?")))))
        (while_rolling_back deployment
          (try_catch (restore d deployment app_slug version) restore_failed))

  -- the function `remove`
  unfoldable pub remove : Text → Handler (World AppsPage)
  remove slug =
      confirmed (confirm (lit "Delete app " ++ (slug ++ lit " and its entire release history?")))
        (while_deleting slug (try_catch (delete d slug) delete_failed))

-- What stands in the last column of a release.
pub data ReleaseAction : Type 0 where
  current_label : ReleaseAction
  roll_back_button : Bool → ReleaseAction
  no_action : ReleaseAction

abbrev pub serves : Text → AppInfo → Bool
serves id a = elim a.current_deployment_id [ none ↦ false | some i ↦ text_eq i id ]

-- The button is disabled while its release is being restored.
unfoldable pub release_action : List AppInfo → Text → Deployment → ReleaseAction
release_action apps rolling_back x =
    if any (serves x.id) apps
    then current_label
    else if text_eq x.status (lit "succeeded")
    then roll_back_button (text_eq rolling_back x.id)
    else no_action
