-- ===== src/App/Laws.antt =====
-- What the session and the loading of a workspace lead to.
use oort.Prelude.{ℕ, ◌≡◌, inl, inr, Option, none, some, List, [], ◌∷◌, if◌then◌else◌, Bool-cases}
use oort.Text.{Text, lit}
use oort.Api.{Tenant, Dashboard, Failure, message_of}
use oort.Api.Call.{Call, list_tenants, get_dashboard, Reply}
use oort.Prog.Settles.{Settles, Settles-try_catch}
use oort.Prog.{ok, err, run}
use oort.Toast.{push, error}
use oort.World.{AppState, World}
use oort.App.{is_unauthorized, get_or, load_failed, fetch_workspace, choose, load_workspace}

-- The `n`-th call of a handler is answered by `env n`.
abbrev pub Env : Type 0
Env = ℕ → (c : Call) → Reply c

abbrev pub with_expired : AppState → AppState
with_expired a = record a {
  user = none;
  notice = lit "Your session expired. Connect again to continue.";
}

abbrev pub with_opened : List Tenant → Text → Dashboard → AppState → AppState
with_opened ts slug d a = record a { tenants = ts; remembered = some slug; dashboard = some d }

module _ {P : Type 0} (env : Env) (preferred : Option Text) (w : World P) where
  abbrev chosen : Tenant → List Tenant → Text
  chosen first rest = (choose preferred w.app.remembered first rest).slug

  -- If the list of tenants comes and is not empty, and the dashboard of the chosen tenant comes,
  -- then a load makes these two calls and no other, and leaves the list, the remembered slug and
  -- the dashboard of that tenant in the state, and the page and the notices as they were.
  pub load_workspace_done :
      (first : Tenant) (rest : List Tenant) (d : Dashboard)
      → env 0 list_tenants ≡ ok (some (first ∷ rest))
      → env 1 (get_dashboard (chosen first rest)) ≡ ok d
      → run env (load_workspace preferred) w ≡ (
        record w { app = with_opened (first ∷ rest) (chosen first rest) d w.app },
        ok tt,
        list_tenants ∷ get_dashboard (chosen first rest) ∷ [],
      )
  unfolding load_workspace
  load_workspace_done first rest d listed loaded = rw listed (rw loaded)

  pub load_workspace_empty :
      (listed : Option (List Tenant))
      → get_or [] listed ≡ []
      → env 0 list_tenants ≡ ok listed
      → run env (load_workspace preferred) w ≡ (
        record w { app = record w.app { tenants = []; dashboard = none } },
        ok tt,
        list_tenants ∷ [],
      )
  unfolding load_workspace
  load_workspace_empty listed e h = rw h (rw e)

  -- The list is refused.
  pub load_workspace_unlisted :
      (e : Failure)
      → env 0 list_tenants ≡ err e
      → run env (load_workspace preferred) w ≡ (
        (if is_unauthorized e then record w { app = with_expired w.app } else record w {
          toasts = push (lit "Workspace could not load") (message_of e) error w.toasts;
        }),
        ok tt,
        list_tenants ∷ [],
      )
  unfolding load_workspace
  load_workspace_unlisted e h =
      rw h (elim (Bool-cases (is_unauthorized e)) [ inl y ↦ rw y | inr n ↦ rw n ])

load_failed-Settles : (P : Type 0) (e : Failure) → Settles (load_failed {P = P} e)
unfolding load_failed
load_failed-Settles P e = elim (Bool-cases (is_unauthorized e)) [
  | inl y ↦ rw (y, Settles) tt
  | inr n ↦ rw (n, Settles) tt
]

-- A load of the workspace never rejects, whatever its calls are answered.
pub load_workspace-Settles :
    (P : Type 0) (preferred : Option Text) → Settles (load_workspace {P = P} preferred)
unfolding load_workspace
load_workspace-Settles P preferred =
    Settles-try_catch (fetch_workspace preferred) load_failed (load_failed-Settles P)
