-- ===== src/Api/Request/Routes.antt =====
-- The methods of `api`: the requests that each call sends.
use oort.Prelude.{Option, none, some, List, [], ◌∷◌, ◌++◌}
use mathlib.Core.Option
use oort.Text.{Text, lit}
use oort.Text.Uri.{encode_uri}
use oort.Json.{
  Json, boolean, number, string, array, object, Items, nil, cons, end, fields_of, number_json, show,
}
use oort.Api.{Role, owner, admin, developer, viewer}
use oort.Api.Call.{
  ConnectorInput, Call, me, logout, connect, list_tenants, create_tenant, get_dashboard,
  create_upload, put_upload, delete_dataset, execute_draft_query, save_query, delete_query,
  list_jobs, get_job, cancel_job, job_logs, list_connectors, create_connector, update_connector,
  sync_connector, delete_connector, list_members, add_member, change_member_role, remove_member,
  list_invitations, renew_invitation, revoke_invitation, list_tokens, create_token, revoke_token,
  rollback, delete_app, app_login_link, write_clipboard, both_of, all_of,
}
use oort.Api.Request.{
  Method, http_get, http_post, http_put, http_patch, http_delete, Body, no_body, json_body,
  blob_body, HttpRequest, request,
}

-- `tenantPath`; `none` where `encodeURIComponent` throws
unfoldable pub tenant_path : Text → Text → Option Text
tenant_path tenant rest = Option.map (λ e. lit "/v1/tenants/" ++ (e ++ rest)) (encode_uri tenant)

unfoldable pub below : Text → Text → Text → Option Text → Option Text
below tenant before after none = none
below tenant before after (some part) = tenant_path tenant (before ++ (part ++ after))

-- a path below the tenant with one encoded part, between `before` and `after`
unfoldable pub item_path : Text → Text → Text → Text → Option Text
unfolding below
item_path tenant before item after = below tenant before after (encode_uri item)

abbrev pub role_text : Role → Text
role_text owner = lit "owner"
role_text admin = lit "admin"
role_text developer = lit "developer"
role_text viewer = lit "viewer"

abbrev text_items : List Text → Items
text_items [] = nil
text_items (s ∷ r) = cons (string s) (text_items r)

abbrev empty_body : Body
empty_body = json_body (object end)

abbrev body_of : List (Text × Option Json) → Body
body_of ps = json_body (object (fields_of ps))

abbrev connector_body : ConnectorInput → Body
connector_body c = body_of (
    (lit "slug", some (string c.slug))
    ∷ (lit "dataset", some (string c.dataset))
    ∷ (lit "url", some (string c.url))
    ∷ (lit "records_pointer", some (string c.records_pointer))
    ∷ (lit "cursor_parameter", Option.map string c.cursor_parameter)
    ∷ (lit "next_cursor_pointer", Option.map string c.next_cursor_pointer)
    ∷ (lit "refresh_minutes", some (number_json c.refresh_minutes))
    ∷ (lit "enabled", some (boolean c.enabled))
    ∷ (lit "bearer_token", Option.map string c.bearer_token)
    ∷ [])

-- one request at the path, if the path can be written
unfoldable pub at : Option Text → Method → List (Text × Text) → Body → Option (List HttpRequest)
at none method headers body = none
at (some path) method headers body = some (request method path headers body ∷ [])

abbrev get : Option Text → Option (List HttpRequest)
get path = at path http_get [] no_body

abbrev delete : Option Text → Option (List HttpRequest)
delete path = at path http_delete [] no_body

abbrev send : Method → Option Text → Body → Option (List HttpRequest)
send method path body = at path method [] body

-- the requests of two calls, in order
unfoldable pub together :
    Option (List HttpRequest) → Option (List HttpRequest) → Option (List HttpRequest)
together none y = none
together (some xs) none = none
together (some xs) (some ys) = some (xs ++ ys)

-- The requests of a call, or `none` where a part of its path is no text and nothing is sent.
unfoldable pub requests_of : Call → Option (List HttpRequest)
requests_of me = get (some (lit "/v1/me"))
requests_of logout = delete (some (lit "/v1/control-session"))
requests_of (connect token) =
    at (some (lit "/v1/control-session")) http_post
      ((lit "authorization", lit "Bearer " ++ token) ∷ []) empty_body
requests_of list_tenants = get (some (lit "/v1/tenants"))
requests_of (create_tenant slug) =
    send http_post (some (lit "/v1/tenants")) (body_of ((lit "slug", some (string slug)) ∷ []))
requests_of (get_dashboard t) = get (tenant_path t (lit "/dashboard"))
requests_of (create_upload t slug format size key) =
    send http_post (tenant_path t (lit "/dataset-uploads")) (
      body_of (
        (lit "slug", some (string slug))
        ∷ (lit "format", some (string format))
        ∷ (lit "byte_count", some (number (show size)))
        ∷ (lit "idempotency_key", some (string key))
        ∷ []))
requests_of (put_upload t id file) =
    at (item_path t (lit "/dataset-uploads/") id (lit "/content")) http_put
      ((lit "content-type", lit "application/octet-stream") ∷ []) (blob_body file)
requests_of (delete_dataset t slug) = delete (item_path t (lit "/datasets/") slug [])
requests_of (execute_draft_query t sql parameters) =
    send http_post (tenant_path t (lit "/queries/execute"))
      (body_of ((lit "sql", some (string sql)) ∷ (lit "parameters", some parameters) ∷ []))
requests_of (save_query t slug sql parameters) =
    send http_put (item_path t (lit "/queries/") slug [])
      (body_of ((lit "sql", some (string sql)) ∷ (lit "parameters", some parameters) ∷ []))
requests_of (delete_query t slug) = delete (item_path t (lit "/queries/") slug [])
requests_of (list_jobs t) = get (tenant_path t (lit "/jobs"))
requests_of (get_job t id) = get (item_path t (lit "/jobs/") id [])
requests_of (job_logs t id after) =
    get (item_path t (lit "/jobs/") id (lit "/logs?after=" ++ show after))
requests_of (cancel_job t id) =
    send http_post (item_path t (lit "/jobs/") id (lit "/cancel")) empty_body
requests_of (list_connectors t) = get (tenant_path t (lit "/connectors"))
requests_of (create_connector t input) =
    send http_post (tenant_path t (lit "/connectors")) (connector_body input)
requests_of (update_connector t slug input) =
    send http_put (item_path t (lit "/connectors/") slug []) (connector_body input)
requests_of (sync_connector t slug) =
    send http_post (item_path t (lit "/connectors/") slug (lit "/sync")) empty_body
requests_of (delete_connector t slug) = delete (item_path t (lit "/connectors/") slug [])
requests_of (list_members t) = get (tenant_path t (lit "/members"))
requests_of (add_member t email role) = send http_post (tenant_path t (lit "/members")) (
    body_of
      ((lit "email", some (string email)) ∷ (lit "role", some (string (role_text role))) ∷ []))
requests_of (change_member_role t user role) =
    send http_patch (item_path t (lit "/members/") user [])
      (body_of ((lit "role", some (string (role_text role))) ∷ []))
requests_of (remove_member t user) = delete (item_path t (lit "/members/") user [])
requests_of (list_invitations t) = get (tenant_path t (lit "/members/invitations"))
requests_of (renew_invitation t invitation) =
    send http_post (item_path t (lit "/members/invitations/") invitation (lit "/renew")) empty_body
requests_of (revoke_invitation t invitation) =
    delete (item_path t (lit "/members/invitations/") invitation [])
requests_of (list_tokens t) = get (tenant_path t (lit "/tokens"))
requests_of (create_token t name scopes days) = send http_post (tenant_path t (lit "/tokens")) (
    body_of (
      (lit "name", some (string name))
      ∷ (lit "scopes", some (array (text_items scopes)))
      ∷ (lit "expires_in_days", some (number_json days))
      ∷ []))
requests_of (revoke_token t id) = delete (item_path t (lit "/tokens/") id [])
requests_of (rollback t deployment) =
    send http_post (item_path t (lit "/deployments/") deployment (lit "/rollback")) empty_body
requests_of (delete_app t app) = delete (item_path t (lit "/apps/") app [])
requests_of (app_login_link t app) =
    send http_post (item_path t (lit "/apps/") app (lit "/login-link")) empty_body
requests_of (write_clipboard s) = some []
requests_of (both_of a b) = together (requests_of a) (requests_of b)
requests_of (all_of a b c) = together (requests_of a) (together (requests_of b) (requests_of c))
