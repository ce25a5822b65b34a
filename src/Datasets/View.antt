-- ===== src/Datasets/View.antt =====
-- internal/server/web/src/pages/Datasets.tsx: what the page of datasets renders.
use oort.Prelude.{
  ℕ, Bool, true, false, Option, none, some, List, [], ◌∷◌, ◌++◌, if◌then◌else◌, length,
}
use oort.Text.{Text, lit, text_eq}
use oort.Json.{show}
use oort.Api.{Dashboard, Dataset, Column}
use oort.Api.Call.{Handler, FileInfo}
use oort.World.{World, set_page, on_some}
use oort.App.{nonempty, get_or}
use oort.Format.{short_id, dash}
use oort.View.{
  attr, disabled, read_only, submits, on_click, on_change, on_file, on_submit, Html, nothing, ◌<>◌,
  words, el, given_or, unless_empty,
}
use oort.View.Parts.{
  Printer, relative_time, bytes_text, box, say, icon, status, page_head, empty, table,
}
use oort.Overview.View.{number_or_dash, syncs_table}
use oort.Datasets.{DatasetsPage, Form, with_replacing, with_form, pick_file, submit, remove}

-- `!!text`
abbrev pub is_set : Text → Bool
is_set [] = false
is_set (_ ∷ _) = true

abbrev schema_size : Option (List Column) → Text
schema_size none = dash
schema_size (some cs) = show (length cs)

module _ (d : Dashboard) (p : DatasetsPage) where
  -- a setter of the form's state
  abbrev pub edit_form : (Form → Form) → Handler (World DatasetsPage)
  edit_form f = set_page (with_form p.form.instance_id f)

  -- the change of the file
  abbrev pub choose_file : Option FileInfo → Handler (World DatasetsPage)
  choose_file file = on_some file (λ x. edit_form (pick_file x.name))

  -- `UploadForm`
  unfoldable pub upload_form : Html (Handler (World DatasetsPage))
  upload_form = el "form" (on_submit (λ v. submit d p v.file v.uuid) ∷ []) (
      box "label" (
        say "Name"
        <> el "input"
            (attr "name" (lit "slug")
              ∷ attr "value" p.form.slug
              ∷ on_change (λ s. edit_form (λ f. record f { slug = s }))
              ∷ read_only (is_set p.replacing)
              ∷ attr "required" []
              ∷ attr "minLength" (lit "3")
              ∷ attr "maxLength" (lit "63")
              ∷ attr "pattern" (lit "[a-z0-9][a-z0-9-]{1,61}[a-z0-9]")
              ∷ [])
            nothing)
      <> box "label" (
          say "File"
          <> el "input"
              (attr "name" (lit "file")
                ∷ attr "type" (lit "file")
                ∷ attr "accept" (lit ".csv,.parquet")
                ∷ attr "required" []
                ∷ on_file choose_file
                ∷ [])
              nothing)
      <> el "button" (submits ∷ disabled p.form.busy ∷ []) (
          icon
          <> say " "
          <> words (
              if p.form.busy
              then lit "Uploading…"
              else if is_set p.replacing
              then lit "Replace"
              else lit "Upload")))

  abbrev pub leave_button : Html (Handler (World DatasetsPage))
  leave_button = el "button" (on_click (set_page (with_replacing [])) ∷ []) (say "Cancel")

  abbrev pub hint : Html (Handler (World DatasetsPage))
  hint = box "span" (say "CSV or Parquet, up to 1 GB. The name becomes the SQL table.")

  abbrev pub upload_section : Html (Handler (World DatasetsPage))
  upload_section = box "section" (
      box "div" (
        box "h2"
          (words (if is_set p.replacing then lit "Replace " ++ p.replacing else lit "Upload"))
        <> (if is_set p.replacing then leave_button else hint))
      <> upload_form)

module _ (pr : Printer) (d : Dashboard) (p : DatasetsPage) (confirm : Text → Bool) where
  abbrev pub no_snapshot : Dataset → Html (Handler (World DatasetsPage))
  no_snapshot x = status (some (get_or (lit "queued") (nonempty x.last_sync_status)))

  abbrev pub snapshot : ℕ → Html (Handler (World DatasetsPage))
  snapshot n = box "code" (words (lit "#" ++ show n))

  unfoldable pub dataset_row : Dataset → Html (Handler (World DatasetsPage))
  dataset_row x = box "tr" (
      box "td" (words x.slug <> say " " <> box "code" (words (short_id (some x.id))))
      <> box "td" (words (schema_size x.schema))
      <> box "td" (words (number_or_dash pr x.row_count))
      <> box "td" (words (bytes_text pr x.byte_count))
      <> box "td" (given_or x.current_snapshot_id (no_snapshot x) snapshot)
      <> box "td" (words (relative_time pr x.updated_at))
      <> box "td" (
          box "span" (
            el "button" (on_click (set_page (with_replacing x.slug)) ∷ []) (icon <> say " Replace")
            <> el "button"
                (disabled (text_eq p.deleting x.slug)
                  ∷ on_click (remove d p confirm x.slug)
                  ∷ attr "aria-label" (lit "Delete " ++ x.slug)
                  ∷ [])
                icon)))

  abbrev pub history : Html (Handler (World DatasetsPage))
  history = box "section" (
      box "div" (
        box "h2" (say "Import history")
        <> box "span" (words (lit "Latest " ++ (show (length d.syncs) ++ lit " syncs"))))
      <> syncs_table pr d none)

  unfoldable pub datasets_view : Html (Handler (World DatasetsPage))
  datasets_view =
      page_head "Datasets" none
      <> upload_section d p
      <> unless_empty d.datasets
          (table
            ("Dataset" ∷ "Columns" ∷ "Rows" ∷ "Stored" ∷ "Snapshot" ∷ "Updated" ∷ "Actions" ∷ [])
            dataset_row d.datasets)
          (empty "No datasets yet" (
            box "p" (
              say
                "Upload a CSV or Parquet file. Oort infers its schema and publishes one atomic snapshot.")))
      <> unless_empty d.syncs history nothing
