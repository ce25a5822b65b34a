-- ===== src/Tests/Data.antt =====
-- A small workspace, and a server that answers for it.
use oort.Prelude.{ℕ, ◌/◌, true, false, none, some, [], ◌∷◌, ltb, leb}
use oort.Text.{Text, lit}
use oort.Json.{show}
use oort.Format.{Floats}
use oort.Api.{
  User, Tenant, QueryRevision, QueryResult, Dashboard, Job, app_publish, JobLog, Connector, Failure,
  other_error, api_error, Deployment,
}
use oort.Api.Call.{
  list_tenants, get_dashboard, me, connect, execute_draft_query, create_upload, put_upload,
  update_connector, list_connectors, app_login_link, save_query, delete_query, rollback,
}
use oort.Prog.{ok, err}
use oort.Toast.{fresh}
use oort.World.{AppState, World}
use oort.App.Laws.{Env}

abbrev pub user : User
user = record { id = lit "u1"; email = lit "ada@example.com" }

abbrev pub tenant : Tenant
tenant = record { id = lit "t1"; slug = lit "acme"; role = lit "owner"; created_at = [] }

abbrev pub other_tenant : Tenant
other_tenant = record { id = lit "t2"; slug = lit "beta"; role = lit "viewer"; created_at = [] }

abbrev pub query : QueryRevision
query = record {
  id = lit "r1";
  query_id = lit "q1";
  slug = lit "active-customers";
  version = 2;
  sql = lit "SELECT 1";
  parameter_types = (lit "limit", lit "int64") ∷ [];
  created_at = [];
}

abbrev pub dashboard : Dashboard
dashboard = record {
  tenant = tenant;
  datasets = [];
  queries = query ∷ [];
  apps = [];
  deployments = [];
  syncs = [];
  activity = [];
}

abbrev pub result : QueryResult
result = record { columns = []; rows = []; snapshot_id = 1; truncated = false }

abbrev pub job : Text → Job
job id = record {
  id = id;
  kind = app_publish;
  status = lit "running";
  dataset_slug = none;
  app_slug = none;
  sync_id = none;
  deployment_id = none;
  attempts = 1;
  error = none;
  cancel_requested_at = none;
  created_at = [];
  updated_at = [];
}

abbrev pub log_line : JobLog
log_line = record { sequence = 1; level = lit "info"; message = lit "started"; created_at = [] }

abbrev pub connector : Connector
connector = record {
  id = lit "c1";
  dataset_id = lit "d1";
  dataset_slug = lit "orders";
  slug = lit "shop";
  url = lit "https://shop.example.com";
  records_pointer = lit "/items";
  cursor_parameter = none;
  next_cursor_pointer = none;
  auth_configured = true;
  enabled = true;
  refresh_minutes = 60;
  next_sync_at = [];
  last_status = none;
  last_error = none;
  last_finished_at = none;
  created_at = [];
  updated_at = [];
}

abbrev pub app : AppState
app = record {
  user = some user;
  checked = true;
  notice = [];
  tenants = tenant ∷ [];
  dashboard = some dashboard;
  remembered = some (lit "acme");
  invited = none;
}

abbrev pub world : {P : Type 0} → P → World P
world page = record { page = page; app = app; toasts = fresh }

abbrev pub unauthorized : Failure
unauthorized =
    api_error (record { status = 401; message = lit "Sign in"; code = none; request_id = none })

abbrev deployment : Deployment
deployment = record {
  id = lit "dep1";
  app_id = lit "app1";
  app_slug = lit "board";
  version = 2;
  status = lit "succeeded";
  byte_count = 1024;
  error = none;
  created_at = lit "2026-01-01T00:00:00Z";
  published_at = none;
}

-- A server that knows the user and the workspace.
abbrev pub serving : Env
serving n me = ok user
serving n (connect token) = ok user
serving n list_tenants = ok (some (tenant ∷ other_tenant ∷ []))
serving n (get_dashboard t) = ok dashboard
serving n (execute_draft_query t sql parameters) = ok result
serving n (save_query t name sql parameters) = ok query
serving n (delete_query t slug) = ok tt
serving n (rollback t id) = ok deployment
serving n (create_upload t slug format size key) = ok (lit "up1")
serving n (put_upload t id file) = ok (job (lit "j1"))
serving n (update_connector t slug input) = ok connector
serving n (list_connectors t) = ok (connector ∷ [])
serving n (app_login_link t slug) = ok (lit "https://apps.example.com/login")
serving n c = err (other_error (lit "not served"))

-- A server on which the session has expired.
abbrev pub expired : Env
expired n c = err unauthorized

-- Exact thousandths of natural numbers, rounded down.
abbrev pub whole : Floats
whole = record {
  Float = ℕ;
  from_ℕ = λ n. n;
  thousandth = λ x. x / 1000;
  at_least = λ x n. leb n x;
  below = λ x n. ltb x n;
  to_fixed_1 = show;
  rounded = show;
}
