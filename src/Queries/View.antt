-- ===== src/Queries/View.antt =====
-- internal/server/web/src/pages/Queries.tsx: what the workbench renders.
use oort.Prelude.{Bool, false, Option, none, some, List, [], ◌∷◌, ◌++◌, if◌then◌else◌, length}
use oort.Text.{Text, lit, text_eq}
use oort.Json.{Json, show}
use oort.Api.{Dashboard, QueryRevision, Dataset, Column, QueryResult}
use oort.Api.Call.{Handler}
use oort.World.{World, set_page}
use oort.App.{get_or}
use oort.Format.{format_cell}
use oort.Datasets.{lower_case}
use oort.View.{
  attr, disabled, submits, on_click, on_change, on_submit, on_run, Html, nothing, ◌<>◌, words, el,
  each, given, given_or, unless_empty,
}
use oort.View.Parts.{Printer, relative_time, box, say, icon, page_head}
use oort.Queries.{Workbench, Draft, find_query, select, run_draft, save, remove}

abbrev pub columns_of : Dataset → List Column
columns_of t = get_or [] t.schema

module _ {E : Type 0} (pr : Printer) where
  -- `ResultTable`
  unfoldable pub result_row : List Json → Html E
  result_row row = box "tr" (each (λ v. box "td" (words (format_cell (some v)))) row)

  unfoldable pub column_head : Column → Html E
  column_head c = box "th" (words (c.name ++ lit " ") <> box "span" (words c.type))

  unfoldable pub result_table : QueryResult → Html E
  result_table r = box "div" (
      box "div" (
        box "strong" (
          words (
            pr.grouped (length r.rows)
            ++ (lit " rows" ++ (if r.truncated then lit " · truncated" else []))))
        <> box "span" (words (lit "snapshot #" ++ show r.snapshot_id)))
      <> box "div" (
          box "table" (
            box "thead" (box "tr" (each column_head r.columns))
            <> box "tbody" (each result_row r.rows))))

  unfoldable pub column_item : Column → Html E
  column_item c = box "li" (box "code" (words c.name) <> box "span" (words (lower_case c.type)))

  unfoldable pub schema_table : Dataset → Html E
  schema_table t = box "details" (
      box "summary" (words t.slug)
      <> unless_empty (columns_of t) (box "ul" (each column_item (columns_of t)))
          (box "p" (say "No schema until the first import succeeds.")))

abbrev pub selected_query : Dashboard → Workbench → Option QueryRevision
selected_query d p = find_query p.selected d.queries

abbrev is_selected : Option Text → Text → Bool
is_selected none slug = false
is_selected (some s) slug = text_eq slug s

module _ (pr : Printer) (d : Dashboard) (p : Workbench) (confirm : Text → Bool) where
  unfoldable pub query_tab : QueryRevision → Html (Handler (World Workbench))
  query_tab q =
      el "button"
        (attr "class"
            (lit "query-tab" ++ (if is_selected p.selected q.slug then lit " active" else []))
          ∷ on_click (select d (some q.slug))
          ∷ [])
        (box "strong" (words q.slug) <> box "span" (words (lit "revision " ++ show q.version)))

  unfoldable pub side : Html (Handler (World Workbench))
  side = box "aside" (
      box "div" (
        box "div" (
          box "span" (say "Saved")
          <> el "button" (on_click (select d none) ∷ attr "aria-label" (lit "New query") ∷ []) icon)
        <> each query_tab d.queries
        <> unless_empty d.queries nothing (box "p" (say "No saved queries.")))
      <> box "div" (
          box "div" (box "span" (say "Tables"))
          <> each (schema_table pr) d.datasets
          <> unless_empty d.datasets nothing (box "p" (say "No datasets yet."))))

  -- a change of the rendered draft
  abbrev pub set_draft : Draft → Handler (World Workbench)
  set_draft next = set_page (λ q. record q { draft = next })

  -- the callback `onChange` of the editor
  abbrev pub set_sql : Text → Handler (World Workbench)
  set_sql s = set_page (λ q. record q { draft = record (q.draft) { sql = s } })

  abbrev pub revision_text : QueryRevision → Text
  revision_text q =
      lit "revision " ++ (show q.version ++ (lit " · " ++ relative_time pr q.created_at))

  abbrev pub revision_label : Text
  revision_label = elim (selected_query d p) [
    | none ↦ lit "unsaved draft"
    | some q ↦ revision_text q
  ]

  abbrev pub remove_button : QueryRevision → Html (Handler (World Workbench))
  remove_button q =
      el "button"
        (disabled p.running
          ∷ on_click (remove d p confirm)
          ∷ attr "aria-label" (lit "Delete " ++ q.slug)
          ∷ [])
        icon

  abbrev pub result_hint : Html (Handler (World Workbench))
  result_hint = box "p" (
      say "Run to inspect columns, rows, and the snapshot. Ctrl/⌘ + Enter runs; parameters use "
      <> box "code" (say "$name")
      <> say " in SQL.")

  abbrev pub toolbar : Html (Handler (World Workbench))
  toolbar = box "div" (
      el "input"
        (attr "name" (lit "name")
          ∷ attr "value" p.draft.name
          ∷ on_change (λ s. set_draft (record (p.draft) { name = s }))
          ∷ attr "placeholder" (lit "query-name")
          ∷ attr "aria-label" (lit "Query name")
          ∷ attr "minLength" (lit "3")
          ∷ attr "maxLength" (lit "63")
          ∷ attr "pattern" (lit "[a-z0-9][a-z0-9-]{1,61}[a-z0-9]")
          ∷ [])
        nothing
      <> box "span" (words revision_label))

  -- `SqlEditor`, by what the component `SqlEditor` calls
  abbrev pub sql_editor : Html (Handler (World Workbench))
  sql_editor =
      el "div" (attr "value" p.draft.sql ∷ on_change set_sql ∷ on_run (run_draft d p) ∷ []) nothing

  abbrev pub run_bar : Html (Handler (World Workbench))
  run_bar = box "div" (
      box "label" (
        say "Parameters"
        <> el "input"
            (attr "name" (lit "parameters")
              ∷ attr "value" p.draft.parameters
              ∷ on_change (λ s. set_draft (record (p.draft) { parameters = s }))
              ∷ attr "aria-label" (lit "Query parameters as JSON")
              ∷ [])
            nothing)
      <> el "button" (submits ∷ disabled p.running ∷ [])
          (icon <> say " " <> words (if p.running then lit "Running…" else lit "Run"))
      <> el "button" (disabled p.running ∷ on_click (save d p) ∷ []) (icon <> say " Save revision")
      <> given (selected_query d p) remove_button)

  unfoldable pub editor_form : Html (Handler (World Workbench))
  editor_form =
      el "form" (on_submit (λ v. run_draft d p) ∷ [])
        (toolbar <> sql_editor <> run_bar <> given_or p.result result_hint (result_table pr))

  unfoldable pub queries_view : Html (Handler (World Workbench))
  queries_view = page_head "Queries" none <> box "div" (side <> editor_form)
