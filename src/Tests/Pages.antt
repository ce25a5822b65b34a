-- ===== src/Tests/Pages.antt =====
-- The other pages.
use oort.Prelude.{◌≡◌, refl, Bool, true, false, none, some, [], ◌∷◌}
use mathlib.Core.List.Memᴰ
use oort.Text.{Text, lit}
use oort.Api.{Job}
use oort.Api.Call.{FileInfo}
use oort.Prog.{run, ok}
use oort.Prog.Machine.{Reach, here, next, begin, reply}
use oort.World.{World}
use oort.Jobs.{JobsPage, inspect}
use oort.Jobs.Controls.{inspects}
use oort.Prog.Trace.{Trace}
use oort.Jobs.Laws.{
  crossed_inspections, Starts, presses, Among, Page, at_rest, selected_listed, stale_logs,
}
use oort.Datasets.{DatasetsPage, slug_from_filename, submit}
use oort.Datasets.Laws.{IsSlugLike, slug_from_filename-IsSlugLike}
use oort.Datasets.Uploads.{IsUpload, submit-IsUpload}
use oort.Connectors.{ConnectorsPage, FormValues, save}
use oort.Connectors.Laws.{IsEdit, save-IsEdit}
use oort.Access.{AccessPage, load}
use oort.Access.Laws.{IsLoad, whole_or_nothing}
use oort.Apps.{AppsPage, closed, open_app, roll_back}
use oort.Apps.Rollback.{IsRollback, roll_back-IsRollback}
use oort.Apps.Laws.{IsOpening, open_app_ends}
use oort.Format.{format_bytes, Amount}
use oort.Format.Laws.{IsSize, format_bytes-IsSize}
use oort.Tests.Data.{other_tenant, dashboard, job, log_line, connector, world, serving, whole}

abbrev yes : Text → Bool
yes question = true

abbrev first_job : Job
first_job = job (lit "j1")

abbrev second_job : Job
second_job = job (lit "j2")

abbrev jobs_page : World JobsPage
jobs_page = world (record { jobs = first_job ∷ second_job ∷ []; selected = none; logs = [] })

abbrev inspected : World JobsPage
inspected = record jobs_page {
  page = record jobs_page.page { selected = some second_job; logs = log_line ∷ [] };
}

inspection : Reach (Starts (lit "acme") yes) (at_rest jobs_page) (at_rest inspected)
unfolding inspect
inspection =
    next (next here (begin _ (presses _ (inspects second_job (Memᴰ.tail (Memᴰ.head refl))))))
      (reply [] [] _ _ (ok (log_line ∷ [])) refl)

selected_listed_example : Among (some second_job) (first_job ∷ second_job ∷ [])
selected_listed_example =
    selected_listed (lit "acme") yes jobs_page (at_rest inspected) tt inspection

stale_logs_example :
    (m : Page) × Trace
      (Starts (lit "acme") yes)
      (at_rest jobs_page)
      (crossed_inspections (lit "acme") first_job second_job (log_line ∷ []) [])
      m
    × (m.state.page.selected ≡ some second_job)
    × (m.state.page.logs ≡ log_line ∷ [])
    × (m.waiting ≡ [])
stale_logs_example =
    stale_logs (lit "acme") yes jobs_page first_job second_job (log_line ∷ []) [] (Memᴰ.head refl)
      (Memᴰ.tail (Memᴰ.head refl))

slug_from_filename-IsSlugLike_example : IsSlugLike (slug_from_filename (lit "Q1 Sales (EU).csv"))
slug_from_filename-IsSlugLike_example = slug_from_filename-IsSlugLike (lit "Q1 Sales (EU).csv")

abbrev datasets_page : DatasetsPage
datasets_page = record {
  replacing = [];
  deleting = [];
  form = record { instance_id = 0; slug = lit "sales"; busy = false };
}

abbrev file : FileInfo
file = record { name = lit "sales.csv"; size = 12 }

submit-IsUpload_example :
    IsUpload serving dashboard datasets_page file
      (lit "key")
      (run serving (submit dashboard datasets_page (some file) (lit "key")) (world datasets_page)).2
submit-IsUpload_example =
    submit-IsUpload serving dashboard datasets_page file (lit "key") (world datasets_page) refl

abbrev connectors_page : World ConnectorsPage
connectors_page =
    world (record { connectors = connector ∷ []; busy = []; editing = some connector })

-- The form of another slug.
abbrev values : FormValues
values = record {
  slug = lit "renamed";
  dataset = lit "other";
  url = lit "https://shop.example.com/v2";
  records_pointer = lit "/items";
  cursor_parameter = [];
  next_cursor_pointer = [];
  refresh_minutes = lit "30";
  enabled = lit "true";
  bearer_token = [];
  clear_bearer = false;
}

save-IsEdit_example :
    IsEdit serving
      (lit "acme")
      connector
      values
      connectors_page
      (run serving (save (lit "acme") (some connector) values) connectors_page)
unfolding lit
save-IsEdit_example =
    save-IsEdit serving (lit "acme") connector values connectors_page 115 (lit "hop") refl

abbrev access_page : World AccessPage
access_page =
    world
      (record { members = []; invitations = []; tokens = []; secret = []; invitation_link = [] })

whole_or_nothing_example :
    let e = run serving (load other_tenant) access_page in
    IsLoad serving other_tenant access_page e.0.page e.2
whole_or_nothing_example = whole_or_nothing serving other_tenant access_page

abbrev apps_page : World AppsPage
apps_page = world (record { rolling_back = []; deleting = []; popup = closed; location = none })

roll_back-IsRollback_example :
    IsRollback serving dashboard
      (λ _. true)
      (lit "dep1")
      (lit "board")
      2
      apps_page
      (run serving (roll_back dashboard (λ _. true) (lit "dep1") (lit "board") 2) apps_page)
roll_back-IsRollback_example =
    roll_back-IsRollback serving dashboard (λ _. true) (lit "dep1") (lit "board") 2 apps_page

open_app_ends_example :
    IsOpening serving false
      (lit "acme")
      (lit "board")
      apps_page
      (run serving (open_app false (lit "acme") (lit "board")) apps_page)
open_app_ends_example = open_app_ends serving false (lit "acme") (lit "board") apps_page

format_bytes-IsSize_example : IsSize whole 5000000 (format_bytes whole (some 5000000))
format_bytes-IsSize_example = format_bytes-IsSize whole 5000000

abbrev two_days : Amount
two_days = record { past = true; size = 172800000 }
