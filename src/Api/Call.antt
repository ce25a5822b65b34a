-- ===== src/Api/Call.antt =====
-- The object `api` of internal/server/web/src/api.ts: one constructor for each request that a
-- method makes, and what it resolves to; and the one other call that the pages wait for, the
-- clipboard's.
use oort.Prelude.{ℕ, Bool, Option, List}
use oort.Text.{Text}
use oort.Json.{Json, Number}
use oort.Api.{
  User, Tenant, Dashboard, QueryResult, QueryRevision, Job, JobLog, Connector, Member, Role,
  AddMemberOutcome, Invitation, RenewInvitationOutcome, ApiToken, Deployment, Failure,
}
use oort.Prog.{Prog, Result}

-- A `File` of the browser: its name, and its size in bytes; the bytes themselves are passed on
-- unread.
pub record FileInfo : Type 0 where
  pub name : Text
  pub size : ℕ

-- The input of the connector form.
pub record ConnectorInput : Type 0 where
  pub slug : Text
  pub dataset : Text
  pub url : Text
  pub records_pointer : Text
  pub cursor_parameter : Option Text
  pub next_cursor_pointer : Option Text
  pub refresh_minutes : Number
  pub enabled : Bool
  pub bearer_token : Option Text

pub data Call : Type 0 where
  me logout : Call
  connect : Text → Call
  list_tenants : Call
  create_tenant : Text → Call
  get_dashboard : Text → Call
  -- the two requests of `uploadDataset`
  create_upload : Text → Text → Text → ℕ → Text → Call
  put_upload : Text → Text → FileInfo → Call
  delete_dataset : Text → Text → Call
  execute_draft_query : Text → Text → Json → Call
  save_query : Text → Text → Text → Json → Call
  delete_query : Text → Text → Call
  list_jobs : Text → Call
  get_job cancel_job : Text → Text → Call
  job_logs : Text → Text → ℕ → Call
  list_connectors : Text → Call
  create_connector : Text → ConnectorInput → Call
  update_connector : Text → Text → ConnectorInput → Call
  sync_connector delete_connector : Text → Text → Call
  list_members : Text → Call
  add_member : Text → Text → Role → Call
  change_member_role : Text → Text → Role → Call
  remove_member : Text → Text → Call
  list_invitations : Text → Call
  renew_invitation revoke_invitation : Text → Text → Call
  list_tokens : Text → Call
  create_token : Text → Text → List Text → Number → Call
  revoke_token : Text → Text → Call
  rollback delete_app app_login_link : Text → Text → Call
  -- `navigator.clipboard.writeText`
  write_clipboard : Text → Call
  -- `Promise.all` of two and of three: the requests go out together, and the first rejection
  -- rejects it
  both_of : Call → Call → Call
  all_of : Call → Call → Call → Call

-- What the promise of a call resolves to, the envelope of the response taken off. The client does
-- not check the shape of a response: that it has the declared type is the server's promise.
abbrev pub Answer : Call → Type 0
Answer me = User
Answer logout = Unit
Answer (connect _) = User
Answer list_tenants = Option (List Tenant)
Answer (create_tenant _) = Tenant
Answer (get_dashboard _) = Dashboard
Answer (create_upload _ _ _ _ _) = Text
Answer (put_upload _ _ _) = Job
Answer (delete_dataset _ _) = Unit
Answer (execute_draft_query _ _ _) = QueryResult
Answer (save_query _ _ _ _) = QueryRevision
Answer (delete_query _ _) = Unit
Answer (list_jobs _) = List Job
Answer (get_job _ _) = Job
Answer (cancel_job _ _) = Job
Answer (job_logs _ _ _) = List JobLog
Answer (list_connectors _) = List Connector
Answer (create_connector _ _) = Connector
Answer (update_connector _ _ _) = Connector
Answer (sync_connector _ _) = Job
Answer (delete_connector _ _) = Unit
Answer (list_members _) = List Member
Answer (add_member _ _ _) = AddMemberOutcome
Answer (change_member_role _ _ _) = Member
Answer (remove_member _ _) = Unit
Answer (list_invitations _) = List Invitation
Answer (renew_invitation _ _) = RenewInvitationOutcome
Answer (revoke_invitation _ _) = Unit
Answer (list_tokens _) = List ApiToken
Answer (create_token _ _ _ _) = ApiToken × Text
Answer (revoke_token _ _) = Unit
Answer (rollback _ _) = Deployment
Answer (delete_app _ _) = Unit
Answer (app_login_link _ _) = Text
Answer (write_clipboard _) = Unit
Answer (both_of a b) = Answer a × Answer b
Answer (all_of a b c) = Answer a × Answer b × Answer c

-- An asynchronous function of the dashboard over the state `S`.
abbrev pub Async : Type 0 → Type 0 → Type 0
Async S A = Prog Call Answer Failure S A

abbrev pub Handler : Type 0 → Type 0
Handler S = Async S (Unit {0})

abbrev pub Reply : Call → Type 0
Reply c = Result Failure (Answer c)
