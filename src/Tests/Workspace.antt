-- ===== src/Tests/Workspace.antt =====
-- The session and the workspace.
use oort.Prelude.{◌≡◌, refl, false, none, some, [], ◌∷◌}
use oort.Text.{lit, text_eq}
use oort.Api.{Dashboard}
use oort.Api.Call.{me, logout}
use oort.Prog.{ok, run}
use oort.Toast.{Store, fresh, push, fine}
use oort.Toast.Laws.{IsValid, fresh-IsValid, push-IsValid}
use oort.World.{World}
use oort.App.{load_workspace, check_session, log_out, choose, screen, shell, connect_form}
use oort.App.Loading.{IsOutcome, load_workspace-IsOutcome}
use oort.App.Session.{check_session_lem, log_out-screen, after_check}
use oort.Prog.Trace.{Trace}
use oort.App.Race.{crossed_loads, Selects, stale_dashboard_wins}
use oort.Connect.{ConnectForm, submit_token}
use oort.Connect.Laws.{at_form, expired_workspace_shown}
use oort.Tests.Data.{
  user, tenant, other_tenant, dashboard, app, world, unauthorized, serving, expired,
}

abbrev start : World (Unit {0})
start = world tt

abbrev other_dashboard : Dashboard
other_dashboard = record dashboard { tenant = other_tenant; queries = [] }

-- The page that was asked for last is `beta`, the workspace that is shown is `acme`.
stale_dashboard_wins_example :
    Trace Selects
      (record { state = start; waiting = [] })
      (crossed_loads start tenant
        (other_tenant ∷ [])
        (lit "acme")
        (lit "beta")
        dashboard
        other_dashboard)
      (record {
        state = record start {
          app = record app {
            tenants = tenant ∷ other_tenant ∷ [];
            remembered = some (lit "beta");
            dashboard = some dashboard;
          };
        };
        waiting = [];
      })
unfolding choose text_eq lit
stale_dashboard_wins_example =
    stale_dashboard_wins start tenant (other_tenant ∷ []) (lit "acme") (lit "beta") dashboard
      other_dashboard

abbrev form : ConnectForm
form = record { problem = []; busy = false }

expired_workspace_shown_example :
    let left = (run expired (load_workspace none) start).0 in
    (screen left.app ≡ connect_form (lit "Your session expired. Connect again to continue."))
    × (screen (run serving (submit_token (lit "secret")) (at_form form left)).0.app
        ≡ shell user dashboard)
expired_workspace_shown_example =
    expired_workspace_shown expired serving none start form (lit "secret") user dashboard
      unauthorized refl refl refl refl refl

check_session_lem_example :
    run expired check_session start
    ≡ (record start { app = after_check (expired 0 me) start.app }, ok tt, me ∷ [])
check_session_lem_example = check_session_lem expired start

log_out-screen_example :
    (screen (run expired log_out start).0.app ≡ connect_form [])
    × ((run expired log_out start).2 ≡ logout ∷ [])
log_out-screen_example = log_out-screen expired start refl

load_workspace-IsOutcome_example :
    IsOutcome serving
      (some (lit "beta"))
      start
      (run serving (load_workspace (some (lit "beta"))) start)
load_workspace-IsOutcome_example = load_workspace-IsOutcome serving (some (lit "beta")) start

abbrev one_notice : Store
one_notice = push (lit "Logged in") [] fine fresh

one_notice-IsValid : IsValid one_notice
one_notice-IsValid = push-IsValid (lit "Logged in") [] fine fresh fresh-IsValid
