-- ===== src/Api.antt =====
-- internal/server/web/src/api.ts: the resources that the control plane returns. A `number` is a
-- natural number here: the API sends counts, sizes, versions and identifiers.
pub mod Call
pub mod Request
use oort.Prelude.{ℕ, Bool, List, Option}
use oort.Text.{Text}
use oort.Json.{Json}

pub record User : Type 0 where
  pub id : Text
  pub email : Text

pub record Tenant : Type 0 where
  pub id : Text
  pub slug : Text
  pub role : Text
  pub created_at : Text

pub record Column : Type 0 where
  pub name : Text
  pub type : Text

pub record Dataset : Type 0 where
  pub id : Text
  pub slug : Text
  pub current_snapshot_id : Option ℕ
  pub schema : Option (List Column)
  pub row_count : Option ℕ
  pub byte_count : Option ℕ
  pub last_sync_status : Option Text
  pub created_at : Text
  pub updated_at : Text

pub record QueryRevision : Type 0 where
  pub id : Text
  pub query_id : Text
  pub slug : Text
  pub version : ℕ
  pub sql : Text
  pub parameter_types : List (Text × Text)
  pub created_at : Text

-- the type `App`
pub record AppInfo : Type 0 where
  pub id : Text
  pub slug : Text
  pub current_deployment_id : Option Text
  pub current_version : Option ℕ
  pub current_status : Option Text
  pub url : Option Text
  pub created_at : Text
  pub updated_at : Text

pub record Deployment : Type 0 where
  pub id : Text
  pub app_id : Text
  pub app_slug : Text
  pub version : ℕ
  pub status : Text
  pub byte_count : ℕ
  pub error : Option Text
  pub created_at : Text
  pub published_at : Option Text

pub record DatasetSync : Type 0 where
  pub id : Text
  pub dataset_id : Text
  pub dataset_slug : Text
  pub status : Text
  pub format : Text
  pub snapshot_id : Option ℕ
  pub row_count : Option ℕ
  pub byte_count : ℕ
  pub error : Option Text
  pub created_at : Text
  pub started_at : Option Text
  pub finished_at : Option Text

pub data JobKind : Type 0 where
  dataset_import connector_sync app_publish : JobKind

pub record Job : Type 0 where
  pub id : Text
  pub kind : JobKind
  pub status : Text
  pub dataset_slug : Option Text
  pub app_slug : Option Text
  pub sync_id : Option Text
  pub deployment_id : Option Text
  pub attempts : ℕ
  pub error : Option Text
  pub cancel_requested_at : Option Text
  pub created_at : Text
  pub updated_at : Text

pub record JobLog : Type 0 where
  pub sequence : ℕ
  pub level : Text
  pub message : Text
  pub created_at : Text

pub record Connector : Type 0 where
  pub id : Text
  pub dataset_id : Text
  pub dataset_slug : Text
  pub slug : Text
  pub url : Text
  pub records_pointer : Text
  pub cursor_parameter : Option Text
  pub next_cursor_pointer : Option Text
  pub auth_configured : Bool
  pub enabled : Bool
  pub refresh_minutes : ℕ
  pub next_sync_at : Text
  pub last_status : Option Text
  pub last_error : Option Text
  pub last_finished_at : Option Text
  pub created_at : Text
  pub updated_at : Text

pub data Role : Type 0 where
  owner admin developer viewer : Role

pub record Member : Type 0 where
  pub user_id : Text
  pub email : Text
  pub display_name : Option Text
  pub role : Role
  pub created_at : Text

pub data InvitationStatus : Type 0 where
  pending expired : InvitationStatus

pub record Invitation : Type 0 where
  pub id : Text
  pub tenant : Text
  pub email : Text
  pub role : Role
  pub invited_by_user_id : Option Text
  pub expires_at : Text
  pub created_at : Text
  pub status : InvitationStatus

pub data AddMemberOutcome : Type 0 where
  member_added : Member → AddMemberOutcome
  invitation_created : Invitation → Text → AddMemberOutcome

pub record RenewInvitationOutcome : Type 0 where
  pub invitation : Invitation
  pub accept_url : Text

pub record ApiToken : Type 0 where
  pub id : Text
  pub name : Text
  pub user_id : Text
  pub scopes : List Text
  pub expires_at : Text
  pub created_at : Text
  pub last_used_at : Option Text
  pub revoked_at : Option Text

pub record ActivityEvent : Type 0 where
  pub id : Text
  pub action : Text
  pub resource_type : Text
  pub resource_id : Text
  pub request_id : Text
  pub created_at : Text

pub record Dashboard : Type 0 where
  pub tenant : Tenant
  pub datasets : List Dataset
  pub queries : List QueryRevision
  pub apps : List AppInfo
  pub deployments : List Deployment
  pub syncs : List DatasetSync
  pub activity : List ActivityEvent

pub record QueryResult : Type 0 where
  pub columns : List Column
  pub rows : List (List Json)
  pub snapshot_id : ℕ
  pub truncated : Bool

pub record ApiError : Type 0 where
  pub status : ℕ
  pub message : Text
  pub code : Option Json
  pub request_id : Option Json

-- What a handler's `catch` can see: an `ApiError`, or any other `Error` by its message.
pub data Failure : Type 0 where
  api_error : ApiError → Failure
  other_error : Text → Failure

abbrev pub message_of : Failure → Text
message_of (api_error e) = e.message
message_of (other_error m) = m
