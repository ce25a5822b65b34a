-- ===== src/Sdk/Laws.antt =====
-- The address of a query, and what becomes of its response.
use oort.Prelude.{
  ℕ, ◌≤◌, ◌<◌, ◌≡◌, refl, ◌⊎◌, inl, inr, true, false, ◌&&◌, Option, none, some, [], ◌∷◌, ◌++◌,
  arith, leb, Bool-cases,
}
use mathlib.Core.Option
use mathlib.Core.Path.{subst}
use oort.Text.{Text, lit, CodeUnits}
use oort.Text.Uri.{encode_uri}
use oort.Text.Uri.Laws.{IsUri, Encoded, encode_uri-Encoded}
use oort.Json.{
  Json, null, boolean, number, string, array, object, member, is_truthy, is_zero, to_string, show,
}
use oort.Prog.{Result, ok, err}
use oort.Sdk.{QueryRequest, to_request, query_request, query_response, error_or}

-- The address has the encoded name as its last segment.
abbrev pub IsAddress : Text → Text → Text → Type 0
IsAddress base name url =
    (e : Text) × (encode_uri name ≡ some e)
    × IsUri e
    × (url ≡ base ++ (lit "/runtime/v1/queries/" ++ e))

map-IsAddress :
    (base name : Text) (parameters : Json) (r : QueryRequest) (o : Option Text)
    → CodeUnits name
    → encode_uri name ≡ o
    → Option.map (to_request base parameters) o ≡ some r
    → IsAddress base name r.url
map-IsAddress base name parameters r none u e h = absurd (cc)
map-IsAddress base name parameters r (some s) u e h =
    (s, e, subst Encoded e (encode_uri-Encoded name u), cc)

-- If the name of a query is a text of 16-bit code units and its request can be written, then the
-- address is the base, the fixed path and the encoded name, which holds only unreserved characters
-- and percent signs.
pub query_request-IsAddress :
    (base name : Text) (parameters : Json) (r : QueryRequest)
    → CodeUnits name
    → query_request base name parameters ≡ some r
    → IsAddress base name r.url
unfolding query_request
query_request-IsAddress base name parameters r u h =
    map-IsAddress base name parameters r (encode_uri name) u refl h

-- The values for which `||` goes on.
abbrev pub IsFalsy : Json → Type 0
IsFalsy null = Unit
IsFalsy (boolean b) = b ≡ false
IsFalsy (number n) = is_zero n ≡ true
IsFalsy (string s) = s ≡ []
IsFalsy _ = ⊥

is_truthy-IsFalsy :
    (v : Json) → ((is_truthy v ≡ true) × ¬ IsFalsy v) ⊎ ((is_truthy v ≡ false) × IsFalsy v)
unfolding is_truthy
is_truthy-IsFalsy null = inr (refl, tt)
is_truthy-IsFalsy (boolean true) = inl (refl, λ e. cc)
is_truthy-IsFalsy (boolean false) = inr (refl, refl)
is_truthy-IsFalsy (number n) = elim (Bool-cases (is_zero n)) [
  | inl y ↦ inr (rw y refl, y)
  | inr k ↦ inl (rw k refl, λ y. cc)
]
is_truthy-IsFalsy (string []) = inr (refl, refl)
is_truthy-IsFalsy (string (c ∷ s)) = inl (refl, λ e. cc)
is_truthy-IsFalsy (array xs) = inl (refl, λ x. x)
is_truthy-IsFalsy (object fs) = inl (refl, λ x. x)

-- The message of a failure: what the field `error` says, if it says anything, or else the status.
abbrev pub IsMessage : ℕ → Option Json → Text → Type 0
IsMessage status none m = m ≡ lit "Query failed (" ++ (show status ++ lit ")")
IsMessage status (some v) m =
    (¬ IsFalsy v × (m ≡ to_string v))
    ⊎ (IsFalsy v × (m ≡ lit "Query failed (" ++ (show status ++ lit ")")))

error_or-IsMessage : (status : ℕ) (e : Option Json) → IsMessage status e (error_or status e)
error_or-IsMessage status none = refl
error_or-IsMessage status (some v) = elim (is_truthy-IsFalsy v) [
  | inl (y, k) ↦ inl (k, rw y refl)
  | inr (n, f) ↦ inr (f, rw n refl)
]

-- What is made of a response.
abbrev pub Outcome : Text → ℕ → Option Json → Result Text Json → Type 0
Outcome unparsed status body (ok v) = (200 ≤ status) × (status ≤ 299) × (body ≡ some v)
Outcome unparsed status body (err m) =
    ((200 ≤ status) × (status ≤ 299) × (body ≡ none) × (m ≡ unparsed))
    ⊎ (((status < 200) ⊎ (299 < status)) × IsMessage status (member (lit "error") body) m)

-- whether the status is that of a success
success_or_not :
    (status : ℕ)
    → (((leb 200 status && leb status 299) ≡ true) × (200 ≤ status) × (status ≤ 299))
      ⊎ (((leb 200 status && leb status 299) ≡ false) × ((status < 200) ⊎ (299 < status)))
success_or_not status = elim (Bool-cases (leb 200 status)) [
  | inr n ↦ inr (rw n refl, inl (ground arith))
  | inl y ↦ elim (Bool-cases (leb status 299)) [
    | inl z ↦ inl (rw (y, z) refl, ground arith, ground arith)
    | inr n ↦ inr (rw (y, n) refl, inr (ground arith))
  ]
]

-- A response gives a value only if its status is from 200 to 299, and then it is the body; with
-- such a status it fails only if the body is no JSON, with the message of the browser. With any
-- other status it fails with what the field error of the body says, or with a message that names
-- the status if there is none, or if it is null, false, empty or zero.
pub query_response-Outcome :
    (unparsed : Text) (status : ℕ) (body : Option Json)
    → Outcome unparsed status body (query_response unparsed status body)
unfolding query_response
query_response-Outcome unparsed status none = elim (success_or_not status) [
  | inl (y, low, high) ↦ rw y (inl (low, high, refl, refl))
  | inr (n, out) ↦ rw n (inr (out, error_or-IsMessage status _))
]
query_response-Outcome unparsed status (some v) = elim (success_or_not status) [
  | inl (y, low, high) ↦ rw y (low, high, refl)
  | inr (n, out) ↦ rw n (inr (out, error_or-IsMessage status _))
]
