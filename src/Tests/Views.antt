-- ===== src/Tests/Views.antt =====
-- Events of the user on rendered pages.
use oort.Prelude.{
  ◌≤◌, ◌≡◌, refl, ◌≢◌, ◌↔◌, Bool, true, false, not, none, some, List, [], ◌∷◌, ◌==◌, filter,
}
use mathlib.Core.List.{Memᴰ}
use mathlib.Core.Path.{sym, ◌∙◌, ap}
use oort.Text.{Text, lit}
use oort.Json.{show}
use oort.Api.{Dashboard, AppInfo, Deployment, Member, viewer}
use oort.World.{World, set_page}
use oort.View.{Submission, Turn, left, right, inside, click, change_to}
use oort.View.Parts.{Printer}
use oort.View.{unless_empty, each, when}
use oort.Text.{text_eq}
use oort.Connectors.{ConnectorsPage}
use oort.Access.{AccessPage, remove as remove_member, can_manage}
use oort.Access.View.{access_view, members_section, member_row}
use oort.Access.Controls.{access_fire, IsControl as IsAccessControl}
use oort.Connectors.{sync}
use oort.Connectors.View.{connectors_view, connector_row, is_busy}
use oort.Connectors.Alone.{Starts, presses, is_write, one_write}
use oort.Prog.Machine.{Machine, spawn, Reach, here, next, begin}
use oort.Prog.Exclusive.{pending}
use oort.Api.{Connector, Failure}
use oort.Api.Call.{Call, Answer}
use oort.Apps.{AppsPage, closed, roll_back, release_action}
use oort.Apps.View.{apps_view, release_row, release_cell}
use oort.Apps.Controls.{apps_fire, IsControl as IsAppControl}
use oort.Datasets.{DatasetsPage, with_form}
use oort.Datasets.View.{datasets_view, upload_form}
use oort.Datasets.Controls.{datasets_fire, IsControl as IsDatasetControl}
use oort.Queries.{Workbench, mount, run_draft}
use oort.Queries.View.{queries_view, editor_form}
use oort.Queries.Controls.{queries_fire, IsControl as IsQueryControl}
use oort.Toast.{fresh}
use oort.View.{mod_enter}
use oort.Prelude.{
  ◌≤◌, ◌≡◌, refl, ◌≢◌, ◌↔◌, Bool, true, false, not, none, some, List, [], ◌∷◌, ◌==◌, filter,
}
use oort.SqlEditor.{Editor, create}
use oort.SqlEditor.Laws.{Change, Pair, callbacks, replaces, types, session, InStep, session-InStep}
use oort.Queries.{Draft, blank_draft}
use oort.Toast.{Store, push, fine, error}
use oort.Toast.Laws.{fresh-IsValid, push-IsValid}
use oort.Toast.Queue.{shows, fires, shown, happen_all, queue_after_all, happen_all-queue}
use oort.Text.Slug.{is_slug}
use oort.Text.Slug.Laws.{Matches, slug_pattern, is_slug_iff}
use oort.Tests.Data.{tenant, dashboard, connector, world, whole}

abbrev yes : Text → Bool
yes question = true

abbrev printer : Printer
printer = record {
  floats = whole;
  grouped = show;
  date = λ s. s;
  from_now = λ s. record { past = true; size = 0 };
  amount_text = λ a u. show a.size;
}

abbrev typed : Submission
typed = record { field = λ n. n; checked = λ n. false; file = none; uuid = [] }

-- the way from a table's frame to its first row
abbrev first_row : List Turn → List Turn
first_row way = inside ∷ inside ∷ right ∷ inside ∷ left ∷ inside ∷ way

abbrev connectors_page : World ConnectorsPage
connectors_page = world (record { connectors = connector ∷ []; busy = []; editing = none })

-- The page after a click on the button that syncs the connector.
abbrev syncing : Machine Call Answer Failure (World ConnectorsPage) (Unit {0})
syncing = spawn (sync (lit "acme") none connector) connectors_page []

with_ids : (c : Connector) → Memᴰ c (connector ∷ []) → c.id ≢ []
unfolding lit
with_ids c (Memᴰ.head e) q = named (sym (ap (λ (x : Connector). x.id) e) ∙ q)
  where
    named : connector.id ≢ []
    named h = cc
with_ids c (Memᴰ.tail m) q = elim m [ ]

clicked :
    Reach
      (Starts printer (lit "acme") yes)
      (record { state = connectors_page; waiting = [] })
      syncing
unfolding connectors_view connector_row unless_empty each is_busy
clicked = next here (
    begin _ (
      presses
        (right
          ∷ right
          ∷ inside
          ∷ right
          ∷ first_row (right ∷ right ∷ right ∷ right ∷ right ∷ inside ∷ inside ∷ left ∷ []))
        click _ with_ids refl))

one_write_example :
    (pending is_write (λ w. w.page.busy ≢ []) syncing.waiting ≤ 1)
    × (1 ≤ pending is_write (λ w. w.page.busy ≢ []) syncing.waiting → syncing.state.page.busy ≢ [])
one_write_example = one_write printer (lit "acme") yes connectors_page syncing clicked

abbrev member : Member
member = record {
  user_id = lit "u2";
  email = lit "bob@example.com";
  display_name = none;
  role = viewer;
  created_at = [];
}

abbrev access_page : AccessPage
access_page = record {
  members = member ∷ [];
  invitations = [];
  tokens = [];
  secret = [];
  invitation_link = [];
}

-- An owner's click on the button that removes the member.
access_fire_example : IsAccessControl tenant yes access_page (remove_member tenant yes member)
unfolding access_view members_section member_row can_manage unless_empty each when lit text_eq
access_fire_example =
    access_fire printer tenant yes access_page
      (right
        ∷ right
        ∷ right
        ∷ right
        ∷ left
        ∷ inside
        ∷ right
        ∷ first_row (right ∷ right ∷ right ∷ inside ∷ []))
      click _ refl

abbrev app : AppInfo
app = record {
  id = lit "a1";
  slug = lit "board";
  current_deployment_id = some (lit "d2");
  current_version = some 2;
  current_status = some (lit "succeeded");
  url = none;
  created_at = [];
  updated_at = [];
}

-- The release before the current one.
abbrev earlier : Deployment
earlier = record {
  id = lit "d1";
  app_id = lit "a1";
  app_slug = lit "board";
  version = 1;
  status = lit "succeeded";
  byte_count = 1200;
  error = none;
  created_at = [];
  published_at = none;
}

abbrev released : Dashboard
released = record dashboard { apps = app ∷ []; deployments = earlier ∷ [] }

abbrev apps_page : AppsPage
apps_page = record { rolling_back = []; deleting = []; popup = closed; location = none }

-- A click on the button that rolls back to it.
apps_fire_example :
    IsAppControl released apps_page yes true (roll_back released yes (lit "d1") (lit "board") 1)
unfolding apps_view release_row release_cell release_action unless_empty each lit text_eq
apps_fire_example =
    apps_fire printer released apps_page yes true
      (right ∷ right ∷ inside ∷ right ∷ first_row (right ∷ right ∷ right ∷ right ∷ inside ∷ []))
      click _ refl

abbrev datasets_page : DatasetsPage
datasets_page = record {
  replacing = [];
  deleting = [];
  form = record { instance_id = 0; slug = lit "sales"; busy = false };
}

-- A name is typed.
datasets_fire_example :
    IsDatasetControl dashboard datasets_page yes
      (set_page (with_form 0 (λ f. record f { slug = lit "orders" })))
unfolding datasets_view upload_form
datasets_fire_example =
    datasets_fire printer dashboard datasets_page yes
      (right ∷ left ∷ inside ∷ right ∷ inside ∷ left ∷ inside ∷ right ∷ [])
      (change_to (lit "orders")) _ refl

abbrev workbench : Workbench
workbench = mount dashboard

-- The key of the editor.
queries_fire_example : IsQueryControl dashboard workbench yes (run_draft dashboard workbench)
unfolding queries_view editor_form
queries_fire_example =
    queries_fire printer dashboard workbench yes
      (right ∷ inside ∷ right ∷ inside ∷ right ∷ left ∷ []) mod_enter _ refl

abbrev dos : Draft
dos = record { name = []; sql = 83 ∷ 13 ∷ 10 ∷ []; parameters = [] }

abbrev created : Editor Change
created = create (filter (λ c. not (c == 13))) callbacks

-- A draft with another kind of line end is chosen, and then a text is typed.
session-InStep_example :
    (q : Pair) × (session
        (filter (λ c. not (c == 13)))
        (replaces dos ∷ types (lit "SELECT 2") ∷ [])
        (created, blank_draft [])
      ≡ some q)
    × InStep (filter (λ c. not (c == 13))) (record dos { sql = lit "SELECT 2" }) q
unfolding lit
session-InStep_example =
    session-InStep (filter (λ c. not (c == 13))) (replaces dos ∷ types (lit "SELECT 2") ∷ [])
      created (blank_draft [])

abbrev notices : Store
notices = push (lit "Query saved") [] fine fresh

happen_all-queue_example :
    shown (happen_all (shows (lit "Failed") [] error ∷ fires ∷ []) notices)
    ≡ queue_after_all (shows (lit "Failed") [] error ∷ fires ∷ []) (shown notices)
happen_all-queue_example =
    happen_all-queue (shows (lit "Failed") [] error ∷ fires ∷ []) notices
      (push-IsValid (lit "Query saved") [] fine fresh fresh-IsValid)

is_slug_iff_example :
    (is_slug (lit "active-customers") ≡ true) ↔ Matches slug_pattern (lit "active-customers")
is_slug_iff_example = is_slug_iff (lit "active-customers")
