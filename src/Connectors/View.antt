-- ===== src/Connectors/View.antt =====
-- internal/server/web/src/pages/Connectors.tsx: what the page of connectors renders.
use Prim.Native.String.{String}
use oort.Prelude.{
  ℕ, zero, suc, Bool, true, false, Option, none, some, List, [], ◌∷◌, ◌++◌, if◌then◌else◌, length,
}
use oort.Text.{Text, lit}
use oort.Json.{show}
use oort.Api.{Connector}
use oort.Api.Call.{Handler}
use oort.World.{World, set_page}
use oort.App.{nonempty, get_or}
use oort.Format.{dash}
use oort.View.{
  Attr, attr, disabled, read_only, submits, on_click, on_submit, Submission, Html, nothing, ◌<>◌,
  words, el, given, unless_empty, when, given_or,
}
use oort.View.Parts.{
  Printer, relative_time, box, say, icon, status, page_head, empty, table, line_break,
}
use oort.Connectors.{ConnectorsPage, FormValues, save, sync, remove, if_editing}

-- `!!busy`
unfoldable pub is_busy : Text → Bool
is_busy [] = false
is_busy (_ ∷ _) = true

-- What `new FormData(form)` holds. The slug of an edited connector is there to read only, and its
-- fields start out as the connector's; what they are at the submission is the user's.
unfoldable pub form_values : Submission → FormValues
form_values v = record {
  slug = v.field (lit "slug");
  dataset = v.field (lit "dataset");
  url = v.field (lit "url");
  records_pointer = v.field (lit "records_pointer");
  cursor_parameter = v.field (lit "cursor_parameter");
  next_cursor_pointer = v.field (lit "next_cursor_pointer");
  refresh_minutes = v.field (lit "refresh_minutes");
  enabled = v.field (lit "enabled");
  bearer_token = v.field (lit "bearer_token");
  clear_bearer = v.checked (lit "clear_bearer");
}

abbrev slug_pattern : Text
slug_pattern = lit "[a-z0-9][a-z0-9-]{1,61}[a-z0-9]"

abbrev clearable : Option Connector → Bool
clearable none = false
clearable (some c) = c.auth_configured

-- `refresh_minutes || 60`
abbrev minutes_text : ℕ → Text
minutes_text zero = lit "60"
minutes_text (suc n) = show (suc n)

abbrev minutes_of : Option Connector → Text
minutes_of none = lit "60"
minutes_of (some c) = minutes_text c.refresh_minutes

abbrev enabled_of : Option Connector → Bool
enabled_of none = true
enabled_of (some c) = c.enabled

abbrev bool_text : Bool → Text
bool_text true = lit "true"
bool_text false = lit "false"

module _ {E : Type 0} where
  -- an input with its name and its first value
  abbrev input : String → Text → List (Attr E) → Html E
  input name value attrs =
      el "input" (attr "name" (lit name) ∷ attr "defaultValue" value ∷ attrs) nothing

abbrev field_of : (Connector → Text) → Option Connector → Text
field_of f none = []
field_of f (some c) = f c

module _ (tenant : Text) (p : ConnectorsPage) where
  abbrev pub save_button : Html (Handler (World ConnectorsPage))
  save_button = el "button" (submits ∷ disabled (is_busy p.busy) ∷ []) (
      icon
      <> words (
          if is_busy p.busy
          then lit "Saving…"
          else if_editing p.editing (lit "Save connector") (lit "Create connector")))

  abbrev pub leave_button : Connector → Html (Handler (World ConnectorsPage))
  leave_button c =
      el "button"
        (disabled (is_busy p.busy) ∷ on_click (set_page (λ q. record q { editing = none })) ∷ [])
        (icon <> say " Cancel")

  abbrev pub clear_box : Html (Handler (World ConnectorsPage))
  clear_box = box "label" (
      el "input" (attr "name" (lit "clear_bearer") ∷ attr "type" (lit "checkbox") ∷ []) nothing
      <> say " Remove current bearer token")

  -- the form; its key, the edited connector's identifier, makes its first values anew
  unfoldable pub connector_form : Html (Handler (World ConnectorsPage))
  connector_form =
      let fixed : Bool = if_editing p.editing true false in
      el "form" (on_submit (λ v. save tenant p.editing (form_values v)) ∷ []) (
        box "label" (
          say "Name"
          <> input "slug" (field_of (λ c. c.slug) p.editing)
              (attr "required" [] ∷ read_only fixed ∷ attr "pattern" slug_pattern ∷ []))
        <> box "label" (
            say "Dataset"
            <> input "dataset" (field_of (λ c. c.dataset_slug) p.editing)
                (read_only fixed ∷ attr "pattern" slug_pattern ∷ []))
        <> box "label" (
            say "HTTPS URL"
            <> input "url" (field_of (λ c. c.url) p.editing)
                (attr "type" (lit "url") ∷ attr "required" [] ∷ []))
        <> box "label" (
            say "Records JSON Pointer"
            <> input "records_pointer" (field_of (λ c. c.records_pointer) p.editing) [])
        <> box "label" (
            say "Refresh minutes"
            <> input "refresh_minutes" (minutes_of p.editing) (
                attr "type" (lit "number")
                ∷ attr "min" (lit "1")
                ∷ attr "max" (lit "10080")
                ∷ attr "required" []
                ∷ []))
        <> box "label" (
            say "Cursor query parameter "
            <> box "span" (say "optional")
            <> input "cursor_parameter" (field_of (λ c. get_or [] c.cursor_parameter) p.editing) [])
        <> box "label" (
            say "Next cursor JSON Pointer "
            <> box "span" (say "optional")
            <> input "next_cursor_pointer"
                (field_of (λ c. get_or [] c.next_cursor_pointer) p.editing) [])
        <> box "label" (
            say "Status"
            <> el "select"
                (attr "name" (lit "enabled")
                  ∷ attr "defaultValue" (bool_text (enabled_of p.editing))
                  ∷ [])
                (el "option" (attr "value" (lit "true") ∷ []) (say "Enabled")
                  <> el "option" (attr "value" (lit "false") ∷ []) (say "Disabled")))
        <> box "label" (
            say "Bearer token "
            <> box "span" (
                words (
                  if clearable p.editing
                  then lit "leave blank to keep current token"
                  else lit "optional"))
            <> input "bearer_token" []
                (attr "type" (lit "password") ∷ attr "autoComplete" (lit "off") ∷ []))
        <> when (clearable p.editing) clear_box
        <> box "span" (save_button <> given p.editing leave_button))

module _ (pr : Printer) (tenant : Text) (confirm : Text → Bool) (p : ConnectorsPage) where
  abbrev pub ago : Text → Html (Handler (World ConnectorsPage))
  ago t = words (relative_time pr t)

  abbrev pub last_sync : Connector → Text → Html (Handler (World ConnectorsPage))
  last_sync c s = status (some s) <> box "span" (given (nonempty c.last_finished_at) ago)

  abbrev last_status : Connector → Html (Handler (World ConnectorsPage))
  last_status c = given_or (nonempty c.last_status) (words dash) (last_sync c)

  abbrev pub connector_buttons : Connector → Html (Handler (World ConnectorsPage))
  connector_buttons c =
      let off : Attr (Handler (World ConnectorsPage)) = disabled (is_busy p.busy) in
      el "button" (off ∷ on_click (sync tenant p.editing c) ∷ []) (icon <> say " Sync")
      <> el "button"
          (off
            ∷ on_click (set_page (λ q. record q { editing = some c }))
            ∷ attr "aria-label" (lit "Edit " ++ c.slug)
            ∷ [])
          icon
      <> el "button"
          (off
            ∷ on_click (remove tenant p.editing confirm c)
            ∷ attr "aria-label" (lit "Delete " ++ c.slug)
            ∷ [])
          icon

  unfoldable pub connector_row : Connector → Html (Handler (World ConnectorsPage))
  connector_row c = box "tr" (
      box "td" (
        box "span" (words c.slug)
        <> line_break
        <> box "span" (words (if c.auth_configured then lit "bearer auth" else lit "no auth")))
      <> box "td" (words c.dataset_slug)
      <> box "td" (
          words (
            if c.enabled
            then lit "every " ++ (show c.refresh_minutes ++ lit " min")
            else lit "disabled"))
      <> box "td" (last_status c)
      <> el "td" (attr "title" (pr.date c.next_sync_at) ∷ [])
          (words (relative_time pr c.next_sync_at))
      <> box "td" (box "span" (connector_buttons c)))

  unfoldable pub connectors_view : Html (Handler (World ConnectorsPage))
  connectors_view =
      page_head "Connectors" none
      <> connector_form tenant p
      <> box "section" (
          box "div" (
            box "h2" (say "Configured connectors")
            <> box "span" (words (show (length p.connectors) ++ lit " total")))
          <> unless_empty p.connectors
              (table
                ("Connector" ∷ "Dataset" ∷ "Schedule" ∷ "Last sync" ∷ "Next sync" ∷ "Actions" ∷ [])
                connector_row p.connectors)
              (empty "No connectors yet"
                (box "p" (say "Create one above, or keep using direct CSV and Parquet uploads."))))
