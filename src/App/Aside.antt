-- ===== src/App/Aside.antt =====
-- A load of the workspace makes no call but its two, and leaves a mark of the page alone.
use oort.Prelude.{◌≡◌, inl, inr, Bool, false, Option, List, [], ◌∷◌, Bool-cases}
use oort.Text.{Text}
use oort.Api.{Tenant, Failure}
use oort.Api.Call.{Call, list_tenants, get_dashboard}
use oort.Prog.{Result-cases}
use oort.Prog.Exclusive.{Aside, Aside-try_catch}
use oort.App.{is_unauthorized, get_or, open_workspace, load_failed, fetch_workspace, load_workspace}
use oort.App.Frames.{OnPage}

module _ {P : Type 0} (guarded : Call → Bool) (M : P → Type 0)
    (lists : guarded list_tenants ≡ false)
    (dashboards : (t : Text) → guarded (get_dashboard t) ≡ false) where
  open_workspace-Aside :
      (preferred : Option Text) (ts : List Tenant)
      → Aside guarded (OnPage M) (open_workspace preferred ts)
  unfolding open_workspace
  open_workspace-Aside preferred [] = ((λ w q. q), tt)
  open_workspace-Aside preferred (first ∷ rest) = λ w. (
    (λ w q. q),
    (
      dashboards _,
      λ r. elim (Result-cases r) [ inl (d, e) ↦ rw e ((λ w q. q), tt) | inr (f, e) ↦ rw e tt ],
    ),
  )

  fetch_workspace-Aside :
      (preferred : Option Text) → Aside guarded (OnPage M) (fetch_workspace preferred)
  unfolding fetch_workspace
  fetch_workspace-Aside preferred = (
    lists,
    λ r. elim (Result-cases r) [
      | inl (l, e) ↦ rw e ((λ w q. q), open_workspace-Aside preferred (get_or [] l))
      | inr (f, e) ↦ rw e tt
    ],
  )

  load_failed-Aside : (e : Failure) → Aside guarded (OnPage M) (load_failed e)
  unfolding load_failed
  load_failed-Aside e = elim (Bool-cases (is_unauthorized e)) [
    | inl y ↦ rw (y, Aside) ((λ w q. q), tt)
    | inr n ↦ rw (n, Aside) ((λ w q. q), tt)
  ]

  pub load_workspace-Aside :
      (preferred : Option Text) → Aside guarded (OnPage M) (load_workspace preferred)
  unfolding load_workspace
  load_workspace-Aside preferred =
      Aside-try_catch guarded (OnPage M) (fetch_workspace preferred) load_failed
        (fetch_workspace-Aside preferred) load_failed-Aside
