-- ===== src/Connectors/Controls.antt =====
-- What the controls of the page of connectors start, and that they are off while a handler works.
use mathlib.Core.List.{Memᴰ}
use mathlib.Core.Option.{none-ne-some}
use oort.Prelude.{
  ◌≡◌, refl, Bool, true, false, not, ◌&&◌, ◌||◌, Option, none, some, List, [], ◌∷◌, arith,
}
use oort.Text.{Text}
use oort.Format.{dash}
use oort.Api.{Connector}
use oort.Api.Call.{Handler}
use oort.World.{World, set_page}
use oort.App.{nonempty}
use oort.View.{Turn, Action, fire, given, when, can_send, words}
use oort.View.Allows.{
  Allowed, allow, Allowed-given, Allowed-when, Allowed-unless_empty, fire-Allowed, Allowed-given_or,
}
use oort.View.Laws.{status-Allowed, page_head-Allowed, empty-Allowed, table-Allowed}
use oort.View.Parts.{Printer}
use oort.Connectors.{ConnectorsPage, FormValues, save, sync, remove}
use oort.Connectors.View.{
  is_busy, form_values, connector_form, connector_row, connectors_view, clear_box, leave_button,
  last_sync, ago,
}

-- The controls of a page without a busy mark.
pub data IsControl (tenant : Text) (confirm : Text → Bool) (p : ConnectorsPage)
    : Handler (World ConnectorsPage) → Type 0 where
  saves : (v : FormValues) → p.busy ≡ [] → IsControl tenant confirm p (save tenant p.editing v)
  leaves : p.busy ≡ [] → IsControl tenant confirm p (set_page (λ q. record q { editing = none }))
  edits :
      (c : Connector)
      → Memᴰ c p.connectors
      → p.busy ≡ []
      → IsControl tenant confirm p (set_page (λ q. record q { editing = some c }))
  syncs :
      (c : Connector)
      → Memᴰ c p.connectors
      → p.busy ≡ []
      → IsControl tenant confirm p (sync tenant p.editing c)
  removes :
      (c : Connector)
      → Memᴰ c p.connectors
      → p.busy ≡ []
      → IsControl tenant confirm p (remove tenant p.editing confirm c)

idle : (busy : Text) → (not (is_busy busy) && true) ≡ true → busy ≡ []
unfolding is_busy
idle [] h = refl
idle (c ∷ s) h = cc

in_middle : (a b c : Bool) → a ≡ false → c ≡ false → (a || ((b || false) || c)) ≡ true → b ≡ true
in_middle a true c h k e = refl
in_middle a false c h k e = ground (arith, h, k, e)

module _ (tenant : Text) (p : ConnectorsPage) where
  clear_box-sends : (b : Bool) → can_send (when b (clear_box tenant p)) ≡ false
  unfolding when
  clear_box-sends true = refl
  clear_box-sends false = refl

  leave_button-sends : (o : Option Connector) → can_send (given o (leave_button tenant p)) ≡ false
  unfolding given
  leave_button-sends none = refl
  leave_button-sends (some c) = refl

module _ (pr : Printer) (tenant : Text) (confirm : Text → Bool) (p : ConnectorsPage) where
  abbrev Ok : Handler (World ConnectorsPage) → Type 0
  Ok = IsControl tenant confirm p

  clear_box-Allowed : Allowed Ok (clear_box tenant p)
  clear_box-Allowed = record { holds = tt }

  leave_button-Allowed : (c : Connector) → Allowed Ok (leave_button tenant p c)
  leave_button-Allowed c = record { holds = ((λ e. leaves (idle p.busy e)), tt) }

  form-Allowed : Allowed Ok (connector_form tenant p)
  unfolding connector_form
  form-Allowed = record {
    holds = (
      (λ v e. saves (form_values v) (
          idle p.busy (
            in_middle _ _ _ (clear_box-sends tenant p _) (leave_button-sends tenant p p.editing)
              e))),
      allow (Allowed-when Ok _ (λ _. clear_box-Allowed))
          (allow (Allowed-given Ok p.editing (λ c _. leave_button-Allowed c)) tt),
    );
  }

  last_sync-Allowed : (c : Connector) (s : Text) → Allowed Ok (last_sync pr tenant confirm p c s)
  last_sync-Allowed c s = record {
    holds = allow (status-Allowed Ok (some s)) (
        allow
          (Allowed-given Ok (nonempty c.last_finished_at) {f = ago pr tenant confirm p}
            (λ t _. record { holds = tt }))
          tt);
  }

  row-Allowed :
      (c : Connector) → Memᴰ c p.connectors → Allowed Ok (connector_row pr tenant confirm p c)
  unfolding connector_row
  row-Allowed c m = record {
    holds =
        allow
          (Allowed-given_or Ok (nonempty c.last_status) {other = words dash}
            (λ _. record { holds = tt }) (λ s _. last_sync-Allowed c s))
          (
            (λ e. syncs c m (idle p.busy e)),
            ((λ e. edits c m (idle p.busy e)), ((λ e. removes c m (idle p.busy e)), tt)),
          );
  }

  view-Allowed : Allowed Ok (connectors_view pr tenant confirm p)
  unfolding connectors_view
  view-Allowed = record {
    holds = allow (page_head-Allowed Ok "Connectors" none (λ h e. absurd (none-ne-some h e))) (
        allow form-Allowed (
          allow
            (Allowed-unless_empty Ok p.connectors (table-Allowed Ok _ p.connectors row-Allowed)
              (empty-Allowed Ok "No connectors yet" (record { holds = tt })))
            tt));
  }

  -- Whatever the user does with the page of connectors starts something only while there is no busy
  -- mark: a save of the form, leaving the edit, or an edit, a sync or a deletion of a connector of
  -- the list.
  pub connectors_fire :
      (way : List Turn) (act : Action) (h : Handler (World ConnectorsPage))
      → fire (connectors_view pr tenant confirm p) way act ≡ some h
      → IsControl tenant confirm p h
  connectors_fire way act h e = fire-Allowed Ok _ way act h view-Allowed e
