-- ===== src/Overview/Controls.antt =====
-- What the controls of the pages Overview and Activity start.
use mathlib.Core.Option.{none-ne-some}
use oort.Prelude.{ℕ, ◌≡◌, refl, Option, none, some, List}
use oort.Api.{Dashboard, DatasetSync, ActivityEvent}
use oort.Text.{Text}
use oort.Api.Call.{Handler}
use oort.World.{World}
use oort.View.{Turn, Action, fire}
use oort.View.Allows.{Allowed, allow, Allowed-each, Allowed-unless_empty, fire-Allowed}
use oort.View.Laws.{
  status-Allowed, page_head-Allowed, empty-Allowed, table-Allowed, command-Allowed,
}
use oort.View.Parts.{Printer, copy}
use oort.Overview.{NextStep, next_step, shown_syncs, facts}
use oort.Overview.View.{
  sync_row, syncs_table, fact, next_section, overview_view, event_row, activity_view,
}

module _ {W : Type 0} (P : Handler (World W) → Type 0) (pr : Printer) where
  sync_row-Allowed : (s : DatasetSync) → Allowed P (sync_row pr s)
  unfolding sync_row
  sync_row-Allowed s = record { holds = allow (status-Allowed P (some s.status)) tt }

  pub syncs_table-Allowed : (d : Dashboard) (limit : Option ℕ) → Allowed P (syncs_table pr d limit)
  unfolding syncs_table
  syncs_table-Allowed d limit =
      Allowed-unless_empty P (shown_syncs limit d.syncs)
        (table-Allowed P _ _ (λ s _. sync_row-Allowed s))
        (empty-Allowed P "No imports yet" (record { holds = tt }))

  next_section-Allowed : (s : NextStep) → P (copy s.command) → Allowed P (next_section pr s)
  unfolding next_section
  next_section-Allowed s h = record { holds = allow (command-Allowed P s.command h) tt }

  fact-Allowed : (d : Dashboard) (f : Text × Text) → Allowed P (fact pr d f)
  unfolding fact
  fact-Allowed d f = record { holds = tt }

  event_row-Allowed : (e : ActivityEvent) → Allowed P (event_row pr e)
  unfolding event_row
  event_row-Allowed e = record { holds = tt }

  activity-Allowed : (d : Dashboard) → Allowed P (activity_view pr d)
  unfolding activity_view
  activity-Allowed d = record {
    holds = allow (page_head-Allowed P "Activity" none (λ h e. absurd (none-ne-some h e))) (
        allow
          (Allowed-unless_empty P d.activity (table-Allowed P _ _ (λ e _. event_row-Allowed e))
            (empty-Allowed P "Nothing has changed yet" (record { holds = tt })))
          tt);
  }

  overview-Allowed :
      (d : Dashboard) → P (copy (next_step d).command) → Allowed P (overview_view pr d)
  unfolding overview_view
  overview-Allowed d h = record {
    holds = allow (page_head-Allowed P "Overview" none (λ h e. absurd (none-ne-some h e))) (
        allow (Allowed-each P (facts d) (λ f _. fact-Allowed d f)) (
          allow (next_section-Allowed (next_step d) h)
            (allow (syncs_table-Allowed d (some 5)) tt)));
  }

-- Whatever the user does with the page Overview starts the copying of the command of the next step,
-- and nothing that the user does with the page Activity starts anything.
pub overview_fire :
    {W : Type 0} (pr : Printer) (d : Dashboard) (way : List Turn) (act : Action)
    (h : Handler (World W))
    → (fire (overview_view pr d) way act ≡ some h → h ≡ copy (next_step d).command)
      × (fire (activity_view pr d) way act ≡ some h → ⊥)
overview_fire pr d way act h = (
  (λ e.
      fire-Allowed (λ p. p ≡ copy (next_step d).command) _ way act h (overview-Allowed _ pr d refl)
        e),
  (λ e. fire-Allowed (λ p. ⊥) _ way act h (activity-Allowed _ pr d) e),
)
