-- ===== src/Api/Request/Tenancy.antt =====
-- The addresses of the requests of a call on a tenant.
use oort.Prelude.{
  ℕ, ◌≡◌, refl, ap, ◌∙◌, ◌⊎◌, inl, inr, Bool, true, ◌&&◌, ◌||◌, Option, none, some, List, [], ◌∷◌,
  ◌++◌, append_assoc, leb, ◌==◌, Option-cases, all, All, All-append, ◌≤◌, arith,
}
use mathlib.Core.Bool.{and-eq-true_iff}
use oort.Json.{show}
use oort.Json.Parse.Numerals.{show-All}
use mathlib.Core.Path.{subst}
use oort.Text.{Text, lit, CodeUnits}
use oort.Text.Uri.Laws.{IsUri, Encoded, encode_uri-Encoded}
use oort.Text.Uri.{encode_uri}
use oort.Api.Call.{
  Call, get_dashboard, create_upload, put_upload, delete_dataset, execute_draft_query, save_query,
  delete_query, list_jobs, get_job, cancel_job, job_logs, list_connectors, create_connector,
  update_connector, sync_connector, delete_connector, list_members, add_member, change_member_role,
  remove_member, list_invitations, renew_invitation, revoke_invitation, list_tokens, create_token,
  revoke_token, rollback, delete_app, app_login_link, both_of, all_of,
}
use oort.Api.Request.{Method, Body, HttpRequest, request}
use oort.Api.Request.Routes.{requests_of, tenant_path, item_path, below, at}

-- A fixed part of an address: letters, digits, hyphens, slashes, and the signs of a query string.
abbrev is_plain : ℕ → Bool
is_plain c =
    (leb 97 c && leb c 122) || (leb 48 c && leb c 57) || c == 45 || c == 47 || c == 61 || c == 63

abbrev pub IsFixed : Text → Type 0
IsFixed s = All (λ c. is_plain c ≡ true) s

-- `s` is a slash and a fixed text.
abbrev pub IsRoute : Text → Type 0
IsRoute s = (more : Text) × IsFixed more × (s ≡ 47 ∷ more)

-- What may follow a segment: nothing, or a slash and a fixed text.
abbrev pub IsTail : Text → Type 0
IsTail s = (s ≡ []) ⊎ IsRoute s

-- `e` is the encoding of `s`, in which a text of code units has no slash.
abbrev pub IsSegment : Text → Text → Type 0
IsSegment s e = (encode_uri s ≡ some e) × (CodeUnits s → IsUri e)

-- `p` is the address of the tenant `t`, its slug encoded as one segment, and a fixed path behind it,
-- into which the item, if there is one, is put encoded as one segment.
abbrev pub IsAt : Text → Option Text → Text → Type 0
IsAt t none p =
    (e : Text) × IsSegment t e
    × ((rest : Text) × IsFixed rest × (p ≡ lit "/v1/tenants/" ++ (e ++ 47 ∷ rest)))
IsAt t (some item) p =
    (e : Text) × IsSegment t e
    × ((x : Text) × IsSegment item x
        × ((before : Text) × (after : Text) × IsFixed before
            × IsTail after
            × (p ≡ lit "/v1/tenants/" ++ (e ++ 47 ∷ (before ++ (47 ∷ (x ++ after)))))))

-- A part that cannot be encoded.
abbrev Unwritable : Text → Option Text → Type 0
Unwritable t none = encode_uri t ≡ none
Unwritable t (some item) = (encode_uri t ≡ none) ⊎ (encode_uri item ≡ none)

-- One request goes to the address, or nothing is sent, since a part cannot be encoded.
abbrev pub Sends : Text → Option Text → Option (List HttpRequest) → Type 0
Sends t item none = Unwritable t item
Sends t item (some []) = ⊥
Sends t item (some (r ∷ [])) = IsAt t item r.path
Sends t item (some (_ ∷ (_ ∷ _))) = ⊥

encoded-IsUri : (t e : Text) → encode_uri t ≡ some e → IsSegment t e
encoded-IsUri t e h = (h, λ u. subst Encoded h (encode_uri-Encoded t u))

tenant_path-none : (t rest : Text) → encode_uri t ≡ none → tenant_path t rest ≡ none
unfolding tenant_path
tenant_path-none t rest e = rw e refl

tenant_path-some :
    (t rest e : Text)
    → encode_uri t ≡ some e
    → tenant_path t rest ≡ some (lit "/v1/tenants/" ++ (e ++ rest))
unfolding tenant_path
tenant_path-some t rest e h = rw h refl

-- `s` is a slash, a fixed text and a slash.
abbrev IsStem : Text → Type 0
IsStem s = (more : Text) × IsFixed more × (s ≡ 47 ∷ (more ++ 47 ∷ []))

tenant_path-Sends :
    (t rest : Text) (method : Method) (headers : List (Text × Text)) (body : Body)
    → IsRoute rest
    → Sends t none (at (tenant_path t rest) method headers body)
unfolding at request
tenant_path-Sends t rest method headers body (more, plain, l) = elim (Option-cases (encode_uri t)) [
  | inl n ↦ rw (tenant_path-none t rest n) n
  | inr (e, h) ↦
      rw (tenant_path-some t rest e h)
        (e, encoded-IsUri t e h, (more, plain, ap (λ r. lit "/v1/tenants/" ++ (e ++ r)) l))
]

item_path-none :
    (t before item after : Text) → encode_uri item ≡ none → item_path t before item after ≡ none
unfolding item_path below
item_path-none t before item after n = rw n refl

item_path-some :
    (t before item after x : Text)
    → encode_uri item ≡ some x
    → item_path t before item after ≡ tenant_path t (before ++ (x ++ after))
unfolding item_path below
item_path-some t before item after x h = rw h refl

item_path-Sends :
    (t before item after : Text) (method : Method) (headers : List (Text × Text)) (body : Body)
    → IsStem before
    → IsTail after
    → Sends t (some item) (at (item_path t before item after) method headers body)
unfolding at request
item_path-Sends t before item after method headers body (more, plain, l) tail =
    elim (Option-cases (encode_uri item)) [
      | inl n ↦ rw (item_path-none t before item after n) (inr n)
      | inr (x, g) ↦ elim (Option-cases (encode_uri t)) [
        | inl n ↦
            rw
              (
                item_path-some t before item after x g,
                tenant_path-none t (before ++ (x ++ after)) n,
              )
              (inl n)
        | inr (e, h) ↦
            rw
              (
                item_path-some t before item after x g,
                tenant_path-some t (before ++ (x ++ after)) e h,
              )
              (
                e,
                encoded-IsUri t e h,
                (
                  x,
                  encoded-IsUri item x g,
                  (
                    more,
                    after,
                    plain,
                    tail,
                    ap (λ r. lit "/v1/tenants/" ++ (e ++ r))
                        (ap (λ b. b ++ (x ++ after)) l
                          ∙ ap (λ r. 47 ∷ r) (append_assoc more (47 ∷ []) (x ++ after))),
                  ),
                ),
              )
      ]
    ]

literal-IsFixed : (s : Text) → all is_plain s ≡ true → IsFixed s
literal-IsFixed [] h = tt
literal-IsFixed (c ∷ s) h = let (p, q) = (and-eq-true_iff _ _).0 h in (p, literal-IsFixed s q)

-- The tenant that a call is about.
abbrev pub tenant_of : Call → Option Text
tenant_of (get_dashboard t) = some t
tenant_of (create_upload t _ _ _ _) = some t
tenant_of (put_upload t _ _) = some t
tenant_of (delete_dataset t _) = some t
tenant_of (execute_draft_query t _ _) = some t
tenant_of (save_query t _ _ _) = some t
tenant_of (delete_query t _) = some t
tenant_of (list_jobs t) = some t
tenant_of (get_job t _) = some t
tenant_of (cancel_job t _) = some t
tenant_of (job_logs t _ _) = some t
tenant_of (list_connectors t) = some t
tenant_of (create_connector t _) = some t
tenant_of (update_connector t _ _) = some t
tenant_of (sync_connector t _) = some t
tenant_of (delete_connector t _) = some t
tenant_of (list_members t) = some t
tenant_of (add_member t _ _) = some t
tenant_of (change_member_role t _ _) = some t
tenant_of (remove_member t _) = some t
tenant_of (list_invitations t) = some t
tenant_of (renew_invitation t _) = some t
tenant_of (revoke_invitation t _) = some t
tenant_of (list_tokens t) = some t
tenant_of (create_token t _ _ _) = some t
tenant_of (revoke_token t _) = some t
tenant_of (rollback t _) = some t
tenant_of (delete_app t _) = some t
tenant_of (app_login_link t _) = some t
tenant_of _ = none

-- The item of the tenant that a call is about, if it is about one.
abbrev pub item_of : Call → Option Text
item_of (put_upload _ item _) = some item
item_of (delete_dataset _ item) = some item
item_of (save_query _ item _ _) = some item
item_of (delete_query _ item) = some item
item_of (get_job _ item) = some item
item_of (job_logs _ item _) = some item
item_of (cancel_job _ item) = some item
item_of (update_connector _ item _) = some item
item_of (sync_connector _ item) = some item
item_of (delete_connector _ item) = some item
item_of (change_member_role _ item _) = some item
item_of (remove_member _ item) = some item
item_of (renew_invitation _ item) = some item
item_of (revoke_invitation _ item) = some item
item_of (revoke_token _ item) = some item
item_of (rollback _ item) = some item
item_of (delete_app _ item) = some item
item_of (app_login_link _ item) = some item
item_of _ = none

abbrev ConfinedTo : Option Text → Option Text → Option (List HttpRequest) → Type 0
ConfinedTo none item rs = Unit
ConfinedTo (some t) item rs = Sends t item rs

-- The request of the call, or of each call in it, goes to the address of its tenant and item.
abbrev pub Confined : Call → Type 0
Confined (both_of a b) = Confined a × Confined b
Confined (all_of a b c) = Confined a × Confined b × Confined c
Confined c = ConfinedTo (tenant_of c) (item_of c) (requests_of c)

digits-IsFixed : (s : Text) → All (λ c. (48 ≤ c) × (c ≤ 57)) s → IsFixed s
digits-IsFixed [] h = tt
digits-IsFixed (c ∷ s) (h, hs) = (ground (arith, h), digits-IsFixed s hs)

logs-IsTail : (n : ℕ) → IsTail (lit "/logs?after=" ++ show n)
logs-IsTail n = inr (
  lit "logs?after=" ++ show n,
  All-append (λ c. is_plain c ≡ true) (lit "logs?after=") (show n)
      (literal-IsFixed (lit "logs?after=") (unfold lit in refl))
      (digits-IsFixed (show n) (show-All n)),
  unfold lit in refl,
)

-- Every call on a tenant sends one request, or nothing if its tenant or its item cannot be encoded.
-- The request goes to /v1/tenants/, the encoded slug of that tenant as one segment and a fixed
-- path; if the call is about an item of the tenant, the item stands in that path, encoded as one
-- segment. A fixed path consists of small letters, digits, hyphens, slashes and the signs of a
-- query string; an encoded text of 16-bit code units holds only unreserved characters and percent
-- signs. For calls that are awaited together, this holds of each.
pub requests_of-Confined : (c : Call) → Confined c
unfolding requests_of lit
requests_of-Confined (both_of a b) = (requests_of-Confined a, requests_of-Confined b)
requests_of-Confined (all_of a b c) =
    (requests_of-Confined a, requests_of-Confined b, requests_of-Confined c)
requests_of-Confined (get_dashboard _) =
    tenant_path-Sends _ _ _ _ _ (lit "dashboard", literal-IsFixed (lit "dashboard") refl, refl)
requests_of-Confined (create_upload _ _ _ _ _) =
    tenant_path-Sends _ _ _ _ _
      (lit "dataset-uploads", literal-IsFixed (lit "dataset-uploads") refl, refl)
requests_of-Confined (put_upload _ _ _) =
    item_path-Sends _ _ _ _ _ _ _
      (lit "dataset-uploads", literal-IsFixed (lit "dataset-uploads") refl, refl)
      (inr (lit "content", literal-IsFixed (lit "content") refl, refl))
requests_of-Confined (delete_dataset _ _) =
    item_path-Sends _ _ _ _ _ _ _ (lit "datasets", literal-IsFixed (lit "datasets") refl, refl)
      (inl refl)
requests_of-Confined (execute_draft_query _ _ _) =
    tenant_path-Sends _ _ _ _ _
      (lit "queries/execute", literal-IsFixed (lit "queries/execute") refl, refl)
requests_of-Confined (save_query _ _ _ _) =
    item_path-Sends _ _ _ _ _ _ _ (lit "queries", literal-IsFixed (lit "queries") refl, refl)
      (inl refl)
requests_of-Confined (delete_query _ _) =
    item_path-Sends _ _ _ _ _ _ _ (lit "queries", literal-IsFixed (lit "queries") refl, refl)
      (inl refl)
requests_of-Confined (list_jobs _) =
    tenant_path-Sends _ _ _ _ _ (lit "jobs", literal-IsFixed (lit "jobs") refl, refl)
requests_of-Confined (get_job _ _) =
    item_path-Sends _ _ _ _ _ _ _ (lit "jobs", literal-IsFixed (lit "jobs") refl, refl) (inl refl)
requests_of-Confined (job_logs _ _ after) =
    item_path-Sends _ _ _ _ _ _ _ (lit "jobs", literal-IsFixed (lit "jobs") refl, refl)
      (logs-IsTail after)
requests_of-Confined (cancel_job _ _) =
    item_path-Sends _ _ _ _ _ _ _ (lit "jobs", literal-IsFixed (lit "jobs") refl, refl)
      (inr (lit "cancel", literal-IsFixed (lit "cancel") refl, refl))
requests_of-Confined (list_connectors _) =
    tenant_path-Sends _ _ _ _ _ (lit "connectors", literal-IsFixed (lit "connectors") refl, refl)
requests_of-Confined (create_connector _ _) =
    tenant_path-Sends _ _ _ _ _ (lit "connectors", literal-IsFixed (lit "connectors") refl, refl)
requests_of-Confined (update_connector _ _ _) =
    item_path-Sends _ _ _ _ _ _ _ (lit "connectors", literal-IsFixed (lit "connectors") refl, refl)
      (inl refl)
requests_of-Confined (sync_connector _ _) =
    item_path-Sends _ _ _ _ _ _ _ (lit "connectors", literal-IsFixed (lit "connectors") refl, refl)
      (inr (lit "sync", literal-IsFixed (lit "sync") refl, refl))
requests_of-Confined (delete_connector _ _) =
    item_path-Sends _ _ _ _ _ _ _ (lit "connectors", literal-IsFixed (lit "connectors") refl, refl)
      (inl refl)
requests_of-Confined (list_members _) =
    tenant_path-Sends _ _ _ _ _ (lit "members", literal-IsFixed (lit "members") refl, refl)
requests_of-Confined (add_member _ _ _) =
    tenant_path-Sends _ _ _ _ _ (lit "members", literal-IsFixed (lit "members") refl, refl)
requests_of-Confined (change_member_role _ _ _) =
    item_path-Sends _ _ _ _ _ _ _ (lit "members", literal-IsFixed (lit "members") refl, refl)
      (inl refl)
requests_of-Confined (remove_member _ _) =
    item_path-Sends _ _ _ _ _ _ _ (lit "members", literal-IsFixed (lit "members") refl, refl)
      (inl refl)
requests_of-Confined (list_invitations _) =
    tenant_path-Sends _ _ _ _ _
      (lit "members/invitations", literal-IsFixed (lit "members/invitations") refl, refl)
requests_of-Confined (renew_invitation _ _) =
    item_path-Sends _ _ _ _ _ _ _
      (lit "members/invitations", literal-IsFixed (lit "members/invitations") refl, refl)
      (inr (lit "renew", literal-IsFixed (lit "renew") refl, refl))
requests_of-Confined (revoke_invitation _ _) =
    item_path-Sends _ _ _ _ _ _ _
      (lit "members/invitations", literal-IsFixed (lit "members/invitations") refl, refl) (inl refl)
requests_of-Confined (list_tokens _) =
    tenant_path-Sends _ _ _ _ _ (lit "tokens", literal-IsFixed (lit "tokens") refl, refl)
requests_of-Confined (create_token _ _ _ _) =
    tenant_path-Sends _ _ _ _ _ (lit "tokens", literal-IsFixed (lit "tokens") refl, refl)
requests_of-Confined (revoke_token _ _) =
    item_path-Sends _ _ _ _ _ _ _ (lit "tokens", literal-IsFixed (lit "tokens") refl, refl)
      (inl refl)
requests_of-Confined (rollback _ _) =
    item_path-Sends _ _ _ _ _ _ _
      (lit "deployments", literal-IsFixed (lit "deployments") refl, refl)
      (inr (lit "rollback", literal-IsFixed (lit "rollback") refl, refl))
requests_of-Confined (delete_app _ _) =
    item_path-Sends _ _ _ _ _ _ _ (lit "apps", literal-IsFixed (lit "apps") refl, refl) (inl refl)
requests_of-Confined (app_login_link _ _) =
    item_path-Sends _ _ _ _ _ _ _ (lit "apps", literal-IsFixed (lit "apps") refl, refl)
      (inr (lit "login-link", literal-IsFixed (lit "login-link") refl, refl))
requests_of-Confined _ = tt
