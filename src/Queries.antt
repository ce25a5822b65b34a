-- ===== src/Queries.antt =====
-- internal/server/web/src/pages/Queries.tsx: the workbench. A handler belongs to the render that it
-- was created in: it keeps that render's `dashboard`, `draft` and `selected` while the state moves on.
pub mod Laws
pub mod Events
pub mod Effects
pub mod Removal
pub mod Saving
pub mod Notices
pub mod View
pub mod Controls
use oort.Prelude.{
  ℕ, zero, suc, ◌+◌, ◌-◌, ◌*◌, ◌/◌, ◌%◌, ◌^◌, ◌≤◌, ◌<◌, ◌≡◌, refl, sym, ap, ◌∙◌, ◌≢◌, ◌↔◌, ◌⊎◌, inl,
  inr, Bool, true, false, not, ◌&&◌, ◌||◌, Option, none, some, List, [], ◌∷◌, ◌++◌, map,
  append_assoc, append-nil, arith, ltb, leb, ◌==◌, if◌then◌else◌, ==_iff, ltb→lt, Bool-cases,
  Option-cases, length, take, head?, find, filter, any, all, length-append, length-take, All,
  All-append,
}
use oort.Text.{Text, lit, text_eq}
use oort.Text.Walk.{trim}
use oort.Text.Slug.{is_slug}
use oort.Json.{Json, boolean, number, string, object, Fields, from_entries, stringify, show}
use oort.Json.Parse.{parse}
use oort.Api.{Dashboard, QueryRevision, QueryResult, Dataset, Column, message_of}
use oort.Api.Call.{execute_draft_query, save_query, delete_query, Handler}
use oort.Prog.{ret, ◌>>=◌, ◌>>◌, call, try_catch, finally}
use oort.Toast.{fine, error}
use oort.World.{confirmed, on_some, World, toast, set_page}
use oort.App.{load_workspace, get_or, nonempty}

abbrev pub default_value : Text → Json
default_value type =
    if text_eq type (lit "boolean")
    then boolean false
    else if text_eq type (lit "string")
    then string []
    else number (lit "50")

-- `defaultParameters`
abbrev pub default_parameters : List (Text × Text) → Fields
default_parameters types = from_entries (map (λ e. (e.0, default_value e.1)) types)

pub record Draft : Type 0 where
  pub name : Text
  pub sql : Text
  pub parameters : Text

abbrev pub find_query : Option Text → List QueryRevision → Option QueryRevision
find_query none qs = none
find_query (some slug) qs = find (λ q. text_eq q.slug slug) qs

abbrev first_slug : List Dataset → Option Text
first_slug [] = none
first_slug (d ∷ ds) = some d.slug

unfoldable pub blank_draft : List Dataset → Draft
blank_draft ds = elim (nonempty (first_slug ds)) [
  | none ↦ record {
    name = [];
    sql = lit "SELECT 1 AS ready";
    parameters = stringify (object (from_entries []));
  }
  | some table ↦ record {
    name = [];
    sql = lit "SELECT *" ++ (10 ∷ (lit "FROM " ++ (table ++ (10 ∷ lit "LIMIT $limit"))));
    parameters = stringify (object (from_entries ((lit "limit", number (lit "50")) ∷ [])));
  }
]

unfoldable pub draft_of : Option QueryRevision → List Dataset → Draft
unfolding blank_draft
draft_of none datasets = blank_draft datasets
draft_of (some saved) datasets = record {
  name = saved.slug;
  sql = saved.sql;
  parameters = stringify (object (default_parameters saved.parameter_types));
}

-- `draftFor`
unfoldable pub draft_for : List QueryRevision → List Dataset → Option Text → Draft
draft_for queries datasets slug = draft_of (find_query slug queries) datasets

pub record Workbench : Type 0 where
  pub selected : Option Text
  pub draft : Draft
  pub result : Option QueryResult
  pub running : Bool

-- the state at the first render
unfoldable pub mount : Dashboard → Workbench
mount d =
    let initial : Option Text = elim (head? d.queries) [ none ↦ none | some q ↦ some q.slug ] in
    record {
      selected = initial;
      draft = draft_for d.queries d.datasets initial;
      result = none;
      running = false;
    }

-- the function `select`
unfoldable pub select : Dashboard → Option Text → Handler (World Workbench)
select d slug =
    set_page (λ p. record p {
      selected = slug;
      draft = draft_for d.queries d.datasets slug;
      result = none;
    })

abbrev pub set_running : Bool → Handler (World Workbench)
set_running b = set_page (λ p. record p { running = b })

abbrev pub reload : Dashboard → Handler (World Workbench)
reload d = load_workspace (some d.tenant.slug)

-- `JSON.parse(draft.parameters || '{}')`
unfoldable pub read_parameters : Text → Option Json
read_parameters [] = parse (lit "{}")
read_parameters (c ∷ s) = parse (c ∷ s)

-- Goes on with the parameters, or shows that they are no JSON.
unfoldable pub on_parsed :
    Option Json → (Json → Handler (World Workbench)) → Handler (World Workbench)
on_parsed none k =
    toast (lit "Parameters are not valid JSON") (lit "Use an object such as {\"limit\": 50}.") error
on_parsed (some parameters) k = k parameters

-- `setRunning(true); try { body } finally { setRunning(false); }`
unfoldable pub while_running : Handler (World Workbench) → Handler (World Workbench)
while_running body = set_running true >> finally body (set_running false)

module _ (d : Dashboard) (rendered : Workbench) where
  abbrev pub run_parameters : Json → Handler (World Workbench)
  run_parameters parameters = while_running (
      try_catch
        (do
          result ← call (execute_draft_query d.tenant.slug rendered.draft.sql parameters)
          set_page (λ p. record p { result = some result })
          toast (lit "Query completed") (show (length result.rows) ++ lit " rows returned.") fine)
        (λ e. toast (lit "Query failed") (message_of e) error))

  -- the function `run`
  unfoldable pub run_draft : Handler (World Workbench)
  run_draft = on_parsed (read_parameters rendered.draft.parameters) run_parameters

  abbrev pub save_parameters : Text → Json → Handler (World Workbench)
  save_parameters name parameters = while_running (
      try_catch
        (do
          query ← call (save_query d.tenant.slug name rendered.draft.sql parameters)
          set_page (λ p. record p { selected = some query.slug })
          toast (lit "Query saved")
              (query.slug
                ++ (lit " revision " ++ (show query.version ++ lit " is ready to deploy.")))
              fine
          reload d)
        (λ e. toast (lit "Query could not be saved") (message_of e) error))

  -- the function `save`
  unfoldable pub save : Handler (World Workbench)
  save =
      let name = trim rendered.draft.name in
      if is_slug name
      then on_parsed (read_parameters rendered.draft.parameters) (save_parameters name)
      else toast (lit "Query name is invalid")
          (lit "Use 3–63 lowercase letters, numbers, or hyphens.") error

  abbrev pub remove_selected : Text → Handler (World Workbench)
  remove_selected selected = while_running (
      try_catch
        (do
          _ ← call (delete_query d.tenant.slug selected)
          set_page (λ p. record p { selected = none })
          set_page (λ p. record p {
            draft =
                draft_for (filter (λ q. not (text_eq q.slug selected)) d.queries) d.datasets none;
          })
          set_page (λ p. record p { result = none })
          reload d
          toast (lit "Query deleted") selected fine)
        (λ e. toast (lit "Query could not be deleted") (message_of e) error))

  -- the function `remove`; `confirm` answers the browser's question
  unfoldable pub remove : (Text → Bool) → Handler (World Workbench)
  remove confirm = on_some (nonempty rendered.selected) λ selected.
      confirmed (confirm (lit "Delete query " ++ (selected ++ lit " and all of its revisions?")))
        (remove_selected selected)

-- `schema`: the tables and their columns, for the editor's completions
unfoldable pub table_columns : List Dataset → List (Text × List Text)
table_columns ds = map (λ t. (t.slug, map (λ (c : Column). c.name) (get_or [] t.schema))) ds
