-- ===== src/App/Race.antt =====
-- Loads of the workspace that overlap.
use oort.Prelude.{refl, Option, some, List, [], ◌∷◌}
use oort.Text.{Text}
use oort.Api.{Tenant, Dashboard, Failure}
use oort.Api.Call.{Call, Answer, Handler, list_tenants, get_dashboard}
use oort.Prog.{ok}
use oort.Prog.Machine.{Machine}
use oort.Prog.Trace.{Event, started, answered, Trace, done, starts, answers}
use oort.World.{World}
use oort.App.{choose, load_workspace}

abbrev pub AppMachine : Type 0 → Type 0
AppMachine P = Machine Call Answer Failure (World P) (Unit {0})

-- Another tenant is selected in the sidebar.
pub data Selects {P : Type 0} (w : World P) : Handler (World P) → Type 0 where
  select : (slug : Text) → Selects w (load_workspace (some slug))

module _ {P : Type 0} (w : World P) (first : Tenant) (rest : List Tenant) (a b : Text) where
  abbrev at_rest : AppMachine P
  at_rest = record { state = w; waiting = [] }

  abbrev pick : Text → Option Text → Tenant
  pick slug remembered = choose (some slug) remembered first rest

  -- The tenant `a` is selected, and `b` while the dashboard of the first is on its way; the
  -- dashboard of the second comes, and then that of the first.
  abbrev pub crossed_loads :
      Dashboard → Dashboard → List (Event Call Answer Failure (World P) (Unit {0}))
  crossed_loads da db =
      let slug_a = (pick a w.app.remembered).slug in
      started (load_workspace (some a))
      ∷ answered list_tenants (ok (some (first ∷ rest)))
      ∷ started (load_workspace (some b))
      ∷ answered list_tenants (ok (some (first ∷ rest)))
      ∷ answered (get_dashboard (pick b (some slug_a)).slug) (ok db)
      ∷ answered (get_dashboard slug_a) (ok da)
      ∷ []

  abbrev raced : Dashboard → Text → World P
  raced d slug = record w {
    app = record w.app { tenants = first ∷ rest; remembered = some slug; dashboard = some d };
  }

  -- From any state with no handler waiting: a tenant is selected; while its dashboard is on its way
  -- another one is selected; the request for the dashboard of the second is answered, and after it
  -- that for the dashboard of the first. These events, in this order, lead to a state with no
  -- handler waiting that shows the answer to the request for the first, while the remembered slug
  -- is that of the second.
  pub stale_dashboard_wins :
      (da db : Dashboard)
      → let slug_a = (pick a w.app.remembered).slug in
        Trace Selects at_rest
          (crossed_loads da db)
          (record { state = raced da (pick b (some slug_a)).slug; waiting = [] })
  unfolding load_workspace
  stale_dashboard_wins da db = starts _ (select a) (
      answers [] [] _ _ (ok (some (first ∷ rest))) refl (
        starts _ (select b) (
          answers (_ ∷ []) [] _ _ (ok (some (first ∷ rest))) refl
            (answers (_ ∷ []) [] _ _ (ok db) refl (answers [] [] _ _ (ok da) refl done)))))
