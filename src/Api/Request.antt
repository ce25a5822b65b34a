-- ===== src/Api/Request.antt =====
-- `request` and the methods of `api` in internal/server/web/src/api.ts: the HTTP requests that a
-- call sends, and what a response becomes.
pub mod Routes
pub mod Answers
pub mod Laws
pub mod Tenancy
use oort.Prelude.{
  ℕ, Bool, true, false, List, [], ◌∷◌, ◌++◌, Option, none, some, if◌then◌else◌, leb, ◌&&◌,
}
use oort.Text.{Text, lit, text_eq}
use oort.Json.{Json, Fields, member, is_truthy, to_string, show}
use oort.Json.Parse.{parse}
use oort.Api.{Failure, api_error}
use oort.Api.Call.{FileInfo}
use oort.Prog.{Result, ok, err}

pub data Method : Type 0 where
  http_get http_post http_put http_patch http_delete : Method

-- `init.body`: absent, a value that is sent as JSON, or a blob.
pub data Body : Type 0 where
  no_body : Body
  json_body : Json → Body
  blob_body : FileInfo → Body

pub record HttpRequest : Type 0 where
  pub method : Method
  pub path : Text
  pub headers : List (Text × Text)
  pub body : Body

-- `Headers.set`
unfoldable pub set_header : Text → Text → List (Text × Text) → List (Text × Text)
set_header k v [] = (k, v) ∷ []
set_header k v ((j, w) ∷ hs) = if text_eq j k then (k, v) ∷ hs else (j, w) ∷ set_header k v hs

abbrev with_content_type : Body → List (Text × Text) → List (Text × Text)
with_content_type (json_body v) hs = set_header (lit "content-type") (lit "application/json") hs
with_content_type _ hs = hs

-- The part of `request` before `fetch`: the header that the server's CSRF check wants, and the
-- type of a JSON body. Header names are in lower case, as `Headers` keeps them.
unfoldable pub request : Method → Text → List (Text × Text) → Body → HttpRequest
request method path headers body = record {
  method = method;
  path = path;
  headers = with_content_type body (set_header (lit "x-oort-request") (lit "browser") headers);
  body = body;
}

-- What `fetch` resolves to, and the text of its body.
pub record HttpResponse : Type 0 where
  pub status : ℕ
  pub text : Text

-- `text ? JSON.parse(text) : null`, where a text that is no JSON gives `null` as well.
unfoldable pub payload_of : Text → Option Json
payload_of [] = none
payload_of (c ∷ s) = parse (c ∷ s)

abbrev pub is_ok : HttpResponse → Bool
is_ok r = leb 200 r.status && leb r.status 299

abbrev pub message_or : ℕ → Option Json → Text
message_or status (some v) =
    if is_truthy v then to_string v else lit "Request failed with HTTP " ++ show status
message_or status none = lit "Request failed with HTTP " ++ show status

-- The part of `request` behind `fetch`.
unfoldable pub receive : HttpResponse → Result Failure (Option Json)
receive r =
    let payload = payload_of r.text in
    let problem = member (lit "error") payload in
    if is_ok r
    then ok payload
    else err (
        api_error (record {
          status = r.status;
          message = message_or r.status (member (lit "message") problem);
          code = member (lit "code") problem;
          request_id = member (lit "request_id") problem;
        }))
