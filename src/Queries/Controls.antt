-- ===== src/Queries/Controls.antt =====
-- What the controls of the workbench start.
use mathlib.Core.List.{Memᴰ}
use mathlib.Core.Option.{none-ne-some}
use oort.Prelude.{◌≡◌, Bool, false, none, some, List}
use oort.Text.{Text}
use oort.Json.{Json}
use oort.Api.{Dashboard, QueryRevision, Dataset, Column, QueryResult}
use oort.Api.Call.{Handler}
use oort.World.{World, set_page}
use oort.View.{Turn, Action, fire}
use oort.View.Allows.{
  Allowed, allow, Allowed-each, Allowed-given, Allowed-given_or, Allowed-unless_empty, fire-Allowed,
}
use oort.View.Laws.{page_head-Allowed, is_off}
use oort.View.Parts.{Printer}
use oort.Queries.{Workbench, select, run_draft, save, remove}
use oort.Queries.View.{
  result_row, column_head, result_table, column_item, columns_of, schema_table, selected_query,
  query_tab, side, remove_button, editor_form, queries_view,
}

-- The controls of the workbench. Only the editor's key runs a draft while a handler runs.
pub data IsControl (d : Dashboard) (p : Workbench) (confirm : Text → Bool)
    : Handler (World Workbench) → Type 0 where
  starts_new : IsControl d p confirm (select d none)
  selects : (q : QueryRevision) → Memᴰ q d.queries → IsControl d p confirm (select d (some q.slug))
  types_name :
      (s : Text)
      → IsControl d p confirm (set_page (λ w. record w { draft = record (p.draft) { name = s } }))
  types_parameters :
      (s : Text)
      → IsControl d p confirm
          (set_page (λ w. record w { draft = record (p.draft) { parameters = s } }))
  types_sql :
      (s : Text)
      → IsControl d p confirm (set_page (λ w. record w { draft = record (w.draft) { sql = s } }))
  runs : IsControl d p confirm (run_draft d p)
  saves : p.running ≡ false → IsControl d p confirm (save d p)
  removes :
      (q : QueryRevision)
      → selected_query d p ≡ some q
      → p.running ≡ false
      → IsControl d p confirm (remove d p confirm)

module _ (pr : Printer) (d : Dashboard) (p : Workbench) (confirm : Text → Bool) where
  abbrev Ok : Handler (World Workbench) → Type 0
  Ok = IsControl d p confirm

  column_item-Allowed : (c : Column) → Allowed Ok (column_item pr c)
  unfolding column_item
  column_item-Allowed c = record { holds = tt }

  schema_table-Allowed : (t : Dataset) → Allowed Ok (schema_table pr t)
  unfolding schema_table
  schema_table-Allowed t = record {
    holds =
        allow
          (Allowed-unless_empty Ok (columns_of t)
            (record {
              holds = allow (Allowed-each Ok (columns_of t) (λ c _. column_item-Allowed c)) tt;
            })
            (record { holds = tt }))
          tt;
  }

  query_tab-Allowed :
      (q : QueryRevision) → Memᴰ q d.queries → Allowed Ok (query_tab pr d p confirm q)
  unfolding query_tab
  query_tab-Allowed q m = record { holds = ((λ _. selects q m), tt) }

  side-Allowed : Allowed Ok (side pr d p confirm)
  unfolding side
  side-Allowed = record {
    holds = (
      (λ _. starts_new),
      allow (Allowed-each Ok d.queries query_tab-Allowed) (
          allow (Allowed-unless_empty Ok d.queries (record { holds = tt }) (record { holds = tt }))
            (allow (Allowed-each Ok d.datasets (λ t _. schema_table-Allowed t)) (
              allow
                (Allowed-unless_empty Ok d.datasets (record { holds = tt }) (record { holds = tt }))
                tt))),
    );
  }

  result_row-Allowed : (r : List Json) → Allowed Ok (result_row pr r)
  unfolding result_row
  result_row-Allowed r = record {
    holds = allow (Allowed-each Ok r (λ v _. record { holds = tt })) tt;
  }

  column_head-Allowed : (c : Column) → Allowed Ok (column_head pr c)
  unfolding column_head
  column_head-Allowed c = record { holds = tt }

  result_table-Allowed : (r : QueryResult) → Allowed Ok (result_table pr r)
  unfolding result_table
  result_table-Allowed r = record {
    holds =
        allow (Allowed-each Ok r.columns (λ c _. column_head-Allowed c))
          (allow (Allowed-each Ok r.rows (λ x _. result_row-Allowed x)) tt);
  }

  remove_button-Allowed :
      (q : QueryRevision)
      → selected_query d p ≡ some q
      → Allowed Ok (remove_button pr d p confirm q)
  remove_button-Allowed q e = record { holds = ((λ l. removes q e (is_off _ l)), tt) }

  editor_form-Allowed : Allowed Ok (editor_form pr d p confirm)
  unfolding editor_form
  editor_form-Allowed = record {
    holds = (
      (λ v _. runs),
      (
        (λ s _. types_name s),
        (
          (λ s _. types_sql s),
          (
            (λ _. runs),
            (
              (λ s _. types_parameters s),
              (
                (λ l. saves (is_off _ l)),
                allow (Allowed-given Ok (selected_query d p) remove_button-Allowed) (
                    allow
                      (Allowed-given_or Ok p.result (λ _. record { holds = tt })
                        (λ r _. result_table-Allowed r))
                      tt),
              ),
            ),
          ),
        ),
      ),
    );
  }

  view-Allowed : Allowed Ok (queries_view pr d p confirm)
  unfolding queries_view
  view-Allowed = record {
    holds =
        allow (page_head-Allowed Ok "Queries" none (λ h e. absurd (none-ne-some h e)))
          (allow side-Allowed (allow editor_form-Allowed tt));
  }

  -- Whatever the user does with the workbench: it selects only a query of the list or a new draft,
  -- saves and deletes only while no handler runs, and deletes only when the selected query is one of
  -- the list. A run can start at any time, by the key of the editor.
  pub queries_fire :
      (way : List Turn) (act : Action) (h : Handler (World Workbench))
      → fire (queries_view pr d p confirm) way act ≡ some h
      → IsControl d p confirm h
  queries_fire way act h e = fire-Allowed Ok _ way act h view-Allowed e
