-- ===== src/Connect.antt =====
-- The two forms in front of the workspace: internal/server/web/src/pages/Connect.tsx, and
-- `CreateTenant` of App.tsx.
pub mod Laws
pub mod View
pub mod Controls
use oort.Prelude.{Bool, true, false, some, ◌++◌}
use oort.Text.{Text, lit}
use oort.Text.Walk.{trim}
use oort.Api.{message_of}
use oort.Api.Call.{Handler, connect, create_tenant}
use oort.Prog.{◌>>=◌, ◌>>◌, call, try_catch}
use oort.Toast.{fine, error}
use oort.World.{World, toast, set_page, set_app}
use oort.App.{load_workspace}

pub record ConnectForm : Type 0 where
  pub problem : Text
  pub busy : Bool

-- `submit` of `Connect`, whose `onConnected` is `setUser` of `App`
unfoldable pub submit_token : Text → Handler (World ConnectForm)
submit_token token =
    set_page (λ p. record p { busy = true })
    >> try_catch (do user ← call (connect token); set_app (λ a. record a { user = some user }))
        (λ e. set_page (λ p. record p { problem = message_of e; busy = false }))

pub record CreateForm : Type 0 where
  pub busy : Bool

-- `submit` of `CreateTenant`, whose `onCreated` is `loadWorkspace`
unfoldable pub submit_tenant : Text → Handler (World CreateForm)
unfolding load_workspace
submit_tenant text =
    let slug = trim text in
    set_page (λ p. record p { busy = true })
    >> try_catch
        (do
          _ ← call (create_tenant slug)
          toast (lit "Workspace created") (slug ++ lit " is ready.") fine
          load_workspace (some slug))
        (λ e.
          toast (lit "Could not create tenant") (message_of e) error
          >> set_page (λ p. record p { busy = false }))
