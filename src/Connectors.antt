-- ===== src/Connectors.antt =====
-- internal/server/web/src/pages/Connectors.tsx: the form that creates or edits a connector, and the
-- list of connectors.
pub mod Laws
pub mod View
pub mod Controls
pub mod Alone
pub mod Marks
use oort.Prelude.{
  ℕ, zero, suc, ◌+◌, ◌-◌, ◌*◌, ◌/◌, ◌%◌, ◌^◌, ◌≤◌, ◌<◌, ◌≡◌, refl, sym, ap, ◌∙◌, ◌≢◌, ◌↔◌, ◌⊎◌, inl,
  inr, Bool, true, false, not, ◌&&◌, ◌||◌, Option, none, some, List, [], ◌∷◌, ◌++◌, map,
  append_assoc, append-nil, arith, ltb, leb, ◌==◌, if◌then◌else◌, ==_iff, ltb→lt, Bool-cases,
  Option-cases, length, take, head?, find, filter, any, all, length-append, length-take, All,
  All-append,
}
use oort.Text.{Text, lit, text_eq}
use oort.Json.{to_number}
use oort.Api.{Connector, message_of}
use oort.Api.Call.{
  ConnectorInput, Handler, list_connectors, create_connector, update_connector, sync_connector,
  delete_connector,
}
use oort.Prog.{ret, ◌>>=◌, ◌>>◌, call, try_catch, finally}
use oort.Toast.{fine, error}
use oort.World.{World, toast, set_page, confirmed}
use oort.App.{nonempty}

pub record ConnectorsPage : Type 0 where
  pub connectors : List Connector
  pub busy : Text
  pub editing : Option Connector

-- The form's values. The check box that clears the token is there only in an edit of a connector
-- that has one; elsewhere it is off.
pub record FormValues : Type 0 where
  pub slug : Text
  pub dataset : Text
  pub url : Text
  pub records_pointer : Text
  pub cursor_parameter : Text
  pub next_cursor_pointer : Text
  pub refresh_minutes : Text
  pub enabled : Text
  pub bearer_token : Text
  pub clear_bearer : Bool

abbrev pub text_or : Text → Text → Text
text_or [] d = d
text_or (c ∷ s) d = c ∷ s

-- the connector's field if one is edited and the field is not empty, or else `d`
abbrev pub edited_or : (Connector → Text) → Option Connector → Text → Text
edited_or field none d = d
edited_or field (some c) d = text_or (field c) d

abbrev pub slug_of : Option Connector → FormValues → Text
slug_of editing v = edited_or (λ c. c.slug) editing v.slug

unfoldable pub token_of : FormValues → Option Text
token_of v = elim v.bearer_token [
  | [] ↦ if v.clear_bearer then some [] else none
  | c ∷ s ↦ some (c ∷ s)
]

-- the object `input` of `save`
unfoldable pub input_of : Option Connector → FormValues → ConnectorInput
unfolding token_of
input_of editing v = record {
  slug = slug_of editing v;
  dataset = edited_or (λ c. c.dataset_slug) editing (text_or v.dataset (slug_of editing v));
  url = v.url;
  records_pointer = v.records_pointer;
  cursor_parameter = nonempty (some v.cursor_parameter);
  next_cursor_pointer = nonempty (some v.next_cursor_pointer);
  refresh_minutes = to_number v.refresh_minutes;
  enabled = text_eq v.enabled (lit "true");
  bearer_token = token_of v;
}

-- `setBusy(id); try { body } finally { setBusy(''); }`
unfoldable pub while_busy : Text → Handler (World ConnectorsPage) → Handler (World ConnectorsPage)
while_busy id body =
    set_page (λ p. record p { busy = id }) >> finally body (set_page (λ p. record p { busy = [] }))

-- the function `load`
unfoldable pub load : Text → Handler (World ConnectorsPage)
load tenant =
    try_catch
      (do
        connectors ← call (list_connectors tenant)
        set_page (λ p. record p { connectors = connectors }))
      (λ e. toast (lit "Connectors could not load") (message_of e) error)

abbrev pub write_connector : Text → Option Connector → FormValues → Handler (World ConnectorsPage)
write_connector tenant none v = call (create_connector tenant (input_of none v)) >> ret tt
write_connector tenant (some c) v =
    call (update_connector tenant (slug_of (some c) v) (input_of (some c) v)) >> ret tt

abbrev pub if_editing : {A : Type 0} → Option Connector → A → A → A
if_editing none x y = y
if_editing (some _) x y = x

module _ (tenant : Text) (editing : Option Connector) where
  -- the function `save`, with the rendered `editing`
  unfoldable pub save : FormValues → Handler (World ConnectorsPage)
  unfolding load
  save v =
      let slug = slug_of editing v in
      while_busy (edited_or (λ c. c.id) editing (lit "create")) (
        try_catch
          (do
            write_connector tenant editing v
            set_page (λ p. record p { editing = none })
            toast (if_editing editing (lit "Connector updated") (lit "Connector created"))
                (slug ++ lit " will refresh on its configured interval.") fine
            load tenant)
          (λ e.
            toast
              (lit "Connector could not be " ++ if_editing editing (lit "updated") (lit "created"))
              (message_of e) error))

  -- the function `sync`
  unfoldable pub sync : Connector → Handler (World ConnectorsPage)
  unfolding load
  sync c = while_busy c.id (
      try_catch
        (do
          _ ← call (sync_connector tenant c.slug)
          toast (lit "Sync queued") (c.slug ++ lit " will publish atomically when it succeeds.")
              fine
          load tenant)
        (λ e. toast (lit "Sync could not be queued") (message_of e) error))

  -- the function `remove`
  unfoldable pub remove : (Text → Bool) → Connector → Handler (World ConnectorsPage)
  unfolding load
  remove confirm c =
      confirmed
        (confirm (
          lit "Delete connector "
          ++ (c.slug ++ lit "? Its dataset and published snapshot remain.")))
        (while_busy c.id (
          try_catch
            (do
              _ ← call (delete_connector tenant c.slug)
              set_page (λ p. elim editing [
                | none ↦ p
                | some x ↦ if text_eq x.id c.id then record p { editing = none } else p
              ])
              load tenant
              toast (lit "Connector deleted") [] fine)
            (λ e. toast (lit "Connector could not be deleted") (message_of e) error)))
