-- ===== src/App/Reload.antt =====
-- A load of the workspace behind a change: the end of `reload` in the pages of
-- internal/server/web/src/pages.
use oort.Prelude.{◌≡◌, refl, Option, List, ◌∷◌}
use oort.Text.{Text}
use oort.Api.Call.{Call, list_tenants}
use oort.Prog.{ok, run}
use oort.Prog.Settles.{run-Settles}
use oort.Prog.Frames.{run-Frames}
use oort.World.{World}
use oort.App.{load_workspace}
use oort.App.Laws.{Env, load_workspace-Settles}
use oort.App.Frames.{OnPage, load_workspace-Frames}

module _ {P : Type 0} (env : Env) (preferred : Option Text) (w : World P) where
  pub reload-page : (run env (load_workspace preferred) w).0.page ≡ w.page
  reload-page =
      run-Frames (OnPage (λ p. p ≡ w.page)) env (load_workspace preferred) w refl
        (load_workspace-Frames (λ p. p ≡ w.page) preferred)

  pub reload-ok : (run env (load_workspace preferred) w).1 ≡ ok tt
  reload-ok = (run-Settles env (load_workspace preferred) w (load_workspace-Settles P preferred)).1

  pub reload-calls :
      (rest : List Call) × ((run env (load_workspace preferred) w).2 ≡ list_tenants ∷ rest)
  unfolding load_workspace
  reload-calls = (_, refl)
