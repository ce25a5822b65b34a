-- ===== src/Overview.antt =====
-- internal/server/web/src/pages/Overview.tsx, Activity.tsx, and the status labels of ui.tsx.
pub mod Laws
pub mod View
pub mod Controls
use oort.Prelude.{
  ℕ, zero, suc, ◌+◌, ◌-◌, ◌*◌, ◌/◌, ◌%◌, ◌^◌, ◌≤◌, ◌<◌, ◌≡◌, refl, sym, ap, ◌∙◌, ◌≢◌, ◌↔◌, ◌⊎◌, inl,
  inr, Bool, true, false, not, ◌&&◌, ◌||◌, Option, none, some, List, [], ◌∷◌, ◌++◌, map,
  append_assoc, append-nil, arith, ltb, leb, ◌==◌, if◌then◌else◌, ==_iff, ltb→lt, Bool-cases,
  Option-cases, length, take, head?, find, filter, any, all, length-append, length-take, All,
  All-append,
}
use oort.Text.{Text, lit, text_eq}
use oort.Text.Walk.{replace_all}
use oort.Json.{show}
use oort.Api.{Dashboard, DatasetSync, AppInfo, ActivityEvent}
use oort.App.{nonempty, get_or}
use oort.Format.{lookup_label, short_id, action_label}

-- The stages that `nextStep` tells apart.
pub data Stage : Type 0 where
  upload_first save_query_first deploy_first : Stage
  live : AppInfo → Stage

abbrev pub is_deployed : AppInfo → Bool
is_deployed a = elim (nonempty a.current_deployment_id) [ none ↦ false | some _ ↦ true ]

unfoldable pub stage : Dashboard → Stage
stage d = elim d.datasets [
  | [] ↦ upload_first
  | _ ∷ _ ↦ elim d.queries [
    | [] ↦ save_query_first
    | _ ∷ _ ↦ elim (find is_deployed d.apps) [ none ↦ deploy_first | some a ↦ live a ]
  ]
]

pub record NextStep : Type 0 where
  pub title : Text
  pub advice : Text
  pub href : Text
  pub label : Text
  pub command : Text

-- `nextStep`; `advice` is its field `copy`
unfoldable pub step_of : Text → Stage → NextStep
step_of tenant upload_first = record {
  title = lit "Upload your first dataset";
  advice =
      lit
        "CSV and Parquet files become tenant-isolated snapshots. A failed import never replaces the last good version.";
  href = lit "#/datasets";
  label = lit "Go to datasets";
  command = lit "oort dataset upload customers.csv --tenant " ++ tenant;
}
step_of tenant save_query_first = record {
  title = lit "Save a query";
  advice =
      lit
        "Write the exact read path your app will call, bind its parameters, and inspect the real result.";
  href = lit "#/queries";
  label = lit "Open the workbench";
  command = lit "oort query run queries/customers.sql --tenant " ++ tenant;
}
step_of tenant deploy_first = record {
  title = lit "Deploy an app";
  advice =
      lit
        "Bundle the static frontend and pin the query revisions it may call. Releases are immutable; rollback moves one pointer.";
  href = lit "#/apps";
  label = lit "Review apps";
  command = lit "oort app deploy --tenant " ++ tenant;
}
step_of tenant (live a) = record {
  title = a.slug ++ lit " is live";
  advice =
      lit
        "Open the current release as a tenant member and keep the previous release one rollback away.";
  href = lit "#/apps";
  label = lit "Open apps";
  command = lit "oort app open --tenant " ++ tenant;
}

unfoldable pub next_step : Dashboard → NextStep
unfolding stage step_of
next_step d = step_of d.tenant.slug (stage d)

-- the rows of `SyncsTable`; a limit of zero is none
unfoldable pub shown_syncs : Option ℕ → List DatasetSync → List DatasetSync
shown_syncs none ss = ss
shown_syncs (some zero) ss = ss
shown_syncs (some (suc n)) ss = take (suc n) ss

abbrev pub is_failed : Text → Bool
is_failed s = text_eq s (lit "failed")

unfoldable pub failures : Dashboard → ℕ
failures d =
    length (filter (λ s. is_failed s.status) d.syncs)
    + length (filter (λ p. is_failed p.status) d.deployments)

unfoldable pub facts : Dashboard → List (Text × Text)
unfolding failures
facts d =
    (lit "Datasets", show (length d.datasets))
    ∷ (lit "Queries", show (length d.queries))
    ∷ (lit "Apps", show (length d.apps))
    ∷ (lit "Failures", if failures d == 0 then lit "none" else show (failures d))
    ∷ []

-- the table `statusTones` of ui.tsx
abbrev status_tones : List (Text × Text)
status_tones =
    (lit "succeeded", lit "ok")
    ∷ (lit "running", lit "busy")
    ∷ (lit "queued", lit "busy")
    ∷ (lit "awaiting_upload", lit "busy")
    ∷ (lit "failed", lit "bad")
    ∷ (lit "cancelled", lit "idle")
    ∷ []

abbrev status_or_unknown : Option Text → Text
status_or_unknown value = get_or (lit "unknown") (nonempty value)

-- `Status`: the tone, and the text that is shown
unfoldable pub status_tone : Option Text → Text
unfolding lookup_label
status_tone value = get_or (lit "idle") (lookup_label (status_or_unknown value) status_tones)

unfoldable pub status_text : Option Text → Text
unfolding replace_all
status_text value = replace_all 95 (lit " ") (status_or_unknown value)

-- a row of the page `Activity`: action, resource, resource's short identifier, request
unfoldable pub activity_row : ActivityEvent → Text × Text × Text × Text
unfolding action_label short_id
activity_row e =
    (action_label e.action, e.resource_type, short_id (some e.resource_id), e.request_id)
