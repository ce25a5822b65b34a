-- ===== src/Overview/View.antt =====
-- What internal/server/web/src/pages/Overview.tsx and Activity.tsx render.
use oort.Prelude.{ℕ, not, ◌&&◌, Option, none, some, [], ◌∷◌, ◌==◌, if◌then◌else◌}
use oort.Text.{Text, lit, text_eq}
use oort.Api.{Dashboard, DatasetSync, ActivityEvent}
use oort.Api.Call.{Handler}
use oort.World.{World}
use oort.Format.{dash}
use oort.View.{attr, Html, ◌<>◌, words, el, each, unless_empty}
use oort.View.Parts.{
  Printer, relative_time, bytes_text, box, say, icon, status, page_head, empty, table, command,
}
use oort.Overview.{NextStep, next_step, shown_syncs, failures, facts, activity_row}

abbrev pub number_or_dash : Printer → Option ℕ → Text
number_or_dash pr none = dash
number_or_dash pr (some n) = pr.grouped n

module _ {W : Type 0} (pr : Printer) where
  unfoldable pub sync_row : DatasetSync → Html (Handler (World W))
  sync_row s = box "tr" (
      box "td" (words s.dataset_slug)
      <> box "td" (status (some s.status))
      <> box "td" (words (number_or_dash pr s.row_count))
      <> box "td" (words (bytes_text pr (some s.byte_count)))
      <> el "td" (attr "title" (pr.date s.created_at) ∷ []) (words (relative_time pr s.created_at)))

  -- `SyncsTable`
  unfoldable pub syncs_table : Dashboard → Option ℕ → Html (Handler (World W))
  syncs_table d limit =
      let rows = shown_syncs limit d.syncs in
      unless_empty rows
        (table ("Dataset" ∷ "Status" ∷ "Rows" ∷ "Size" ∷ "Started" ∷ []) sync_row rows)
        (empty "No imports yet"
          (box "p" (say "Dataset uploads appear here with status, rows, and timing.")))

  -- one of the facts; the failures stand out if there are any
  unfoldable pub fact : Dashboard → Text × Text → Html (Handler (World W))
  fact d (label, value) =
      el "div"
        (attr "class" (
            if text_eq label (lit "Failures") && not (failures d == 0)
            then lit "fact fact-bad"
            else lit "fact")
          ∷ [])
        (box "dt" (words label) <> box "dd" (words value))

  unfoldable pub next_section : NextStep → Html (Handler (World W))
  next_section step = box "section" (
      box "p" (say "Next useful action")
      <> box "h2" (words step.title)
      <> box "p" (words step.advice)
      <> box "div" (
          el "a" (attr "href" step.href ∷ []) (words step.label <> say " " <> icon)
          <> command step.command))

  unfoldable pub overview_view : Dashboard → Html (Handler (World W))
  overview_view d =
      page_head "Overview" none
      <> box "dl" (each (fact d) (facts d))
      <> next_section (next_step d)
      <> box "section" (
          box "div" (
            box "h2" (say "Recent imports")
            <> el "a" (attr "href" (lit "#/activity") ∷ []) (say "All activity"))
          <> syncs_table d (some 5))

  unfoldable pub event_row : ActivityEvent → Html (Handler (World W))
  event_row e =
      let (action, resource, id, request) = activity_row e in
      box "tr" (
        box "td" (words action)
        <> box "td" (words resource <> say " " <> box "code" (words id))
        <> box "td" (box "code" (words request))
        <> el "td" (attr "title" (pr.date e.created_at) ∷ [])
            (words (relative_time pr e.created_at)))

  -- the page `Activity`
  unfoldable pub activity_view : Dashboard → Html (Handler (World W))
  activity_view d =
      page_head "Activity" none
      <> unless_empty d.activity
          (table ("Action" ∷ "Resource" ∷ "Request" ∷ "When" ∷ []) event_row d.activity)
          (empty "Nothing has changed yet"
            (box "p" (say "Create a tenant resource and its audit trail appears here.")))
