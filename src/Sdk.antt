-- ===== src/Sdk.antt =====
-- sdk/js/index.js (and its copy examples/support-operations/dist/oort-sdk.js): the client that apps
-- use to run their queries.
pub mod Laws
use oort.Prelude.{
  ℕ, zero, suc, ◌+◌, ◌-◌, ◌*◌, ◌/◌, ◌%◌, ◌^◌, ◌≤◌, ◌<◌, ◌≡◌, refl, sym, ap, ◌∙◌, ◌≢◌, ◌↔◌, ◌⊎◌, inl,
  inr, Bool, true, false, not, ◌&&◌, ◌||◌, Option, none, some, List, [], ◌∷◌, ◌++◌, map,
  append_assoc, append-nil, arith, ltb, leb, ◌==◌, if◌then◌else◌, ==_iff, ltb→lt, Bool-cases,
  Option-cases, length, take, head?, find, filter, any, all, length-append, length-take, All,
  All-append,
}
use mathlib.Core.Option
use oort.Text.{Text, lit}
use oort.Text.Uri.{encode_uri}
use oort.Json.{Json, object, fields_of, member, is_truthy, to_string, show}
use oort.Prog.{Result, ok, err}

-- the body of the request
abbrev pub query_body : Json → Json
query_body parameters = object (fields_of ((lit "parameters", some parameters) ∷ []))

pub record QueryRequest : Type 0 where
  pub url : Text
  pub headers : List (Text × Text)
  pub body : Json

abbrev to_request : Text → Json → Text → QueryRequest
to_request base parameters name = record {
  url = base ++ (lit "/runtime/v1/queries/" ++ name);
  headers = (lit "content-type", lit "application/json") ∷ [];
  body = query_body parameters;
}

-- The request of `query(name, parameters)`; `none` where `encodeURIComponent` throws.
unfoldable pub query_request : Text → Text → Json → Option QueryRequest
query_request base name parameters = Option.map (to_request base parameters) (encode_uri name)

-- `(await response.json().catch(() => null))?.error || …`
abbrev pub error_or : ℕ → Option Json → Text
error_or status none = lit "Query failed (" ++ (show status ++ lit ")")
error_or status (some v) =
    if is_truthy v then to_string v else lit "Query failed (" ++ (show status ++ lit ")")

-- What `query` does with a response: its status, and its body if that is JSON. An error is its
-- message; `unparsed` is that of the browser where the body of a success is no JSON.
unfoldable pub query_response : Text → ℕ → Option Json → Result Text Json
query_response unparsed status body =
    if leb 200 status && leb status 299
    then elim body [ none ↦ err unparsed | some v ↦ ok v ]
    else err (error_or status (member (lit "error") body))
