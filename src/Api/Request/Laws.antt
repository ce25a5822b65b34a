-- ===== src/Api/Request/Laws.antt =====
-- What holds of every request that the client sends.
use oort.Prelude.{
  ◌≡◌, refl, Option, none, some, List, [], ◌∷◌, arith, if◌then◌else◌, All, All-append,
}
use oort.Text.{Text, lit, text_eq, text_eq_iff}
use oort.Api.Call.{Call, write_clipboard, both_of, all_of}
use oort.Api.Request.{Method, Body, no_body, json_body, blob_body, HttpRequest, set_header, request}
use oort.Api.Request.Routes.{requests_of, at, together}

-- the value of a header
pub get_header : Text → List (Text × Text) → Option Text
get_header k [] = none
get_header k ((j, v) ∷ hs) = if text_eq j k then some v else get_header k hs

get_header-set_header :
    (k j : Text) (v : Text) (hs : List (Text × Text))
    → get_header k (set_header j v hs) ≡ (if text_eq j k then some v else get_header k hs)
unfolding get_header set_header
get_header-set_header k j v [] = refl
get_header-set_header k j v ((i, w) ∷ hs) =
    ground
      (arith, text_eq_iff i j, text_eq_iff i k, text_eq_iff j k, get_header-set_header k j v hs)

-- The request carries the header that the server takes for its CSRF check.
abbrev pub HasMark : HttpRequest → Type 0
HasMark r = get_header (lit "x-oort-request") r.headers ≡ some (lit "browser")

request-HasMark :
    (method : Method) (path : Text) (headers : List (Text × Text)) (body : Body)
    → HasMark (request method path headers body)
unfolding request
request-HasMark method path headers no_body = rw get_header-set_header (unfold lit text_eq in refl)
request-HasMark method path headers (blob_body _) =
    rw get_header-set_header (unfold lit text_eq in refl)
request-HasMark method path headers (json_body _) =
    simp get_header-set_header (unfold lit text_eq in refl)

-- `P` holds of every request, if any are sent.
abbrev pub Sent : (HttpRequest → Type 0) → Option (List HttpRequest) → Type 0
Sent P none = Unit
Sent P (some rs) = All P rs

pub at-Sent :
    (P : HttpRequest → Type 0) (path : Option Text) (method : Method) (headers : List (Text × Text))
    (body : Body)
    → ((p : Text) → path ≡ some p → P (request method p headers body))
    → Sent P (at path method headers body)
unfolding at
at-Sent P none method headers body h = tt
at-Sent P (some p) method headers body h = (h p refl, tt)

at-HasMark :
    (path : Option Text) (method : Method) (headers : List (Text × Text)) (body : Body)
    → Sent HasMark (at path method headers body)
at-HasMark path method headers body =
    at-Sent HasMark path method headers body (λ p _. request-HasMark method p headers body)

together-Sent :
    (P : HttpRequest → Type 0) (x y : Option (List HttpRequest))
    → Sent P x
    → Sent P y
    → Sent P (together x y)
unfolding together
together-Sent P none y h k = tt
together-Sent P (some a) none h k = tt
together-Sent P (some a) (some b) h k = All-append P a b h k

-- Every request of every call carries the header x-oort-request with the value browser, and the
-- headers that a call sets itself do not replace it.
pub requests_of-HasMark : (c : Call) → Sent HasMark (requests_of c)
unfolding requests_of
requests_of-HasMark (both_of a b) =
    together-Sent HasMark (requests_of a) (requests_of b) (requests_of-HasMark a)
      (requests_of-HasMark b)
requests_of-HasMark (all_of a b c) =
    together-Sent HasMark (requests_of a) (together (requests_of b) (requests_of c))
      (requests_of-HasMark a)
      (together-Sent HasMark (requests_of b) (requests_of c) (requests_of-HasMark b)
        (requests_of-HasMark c))
requests_of-HasMark (write_clipboard s) = tt
requests_of-HasMark _ = at-HasMark _ _ _ _
