-- ===== src/App/Frames.antt =====
-- A load of the workspace leaves the state of the page alone.
use oort.Prelude.{inl, inr, Option, List, [], ◌∷◌, Bool-cases}
use oort.Text.{Text}
use oort.Api.{Failure, Tenant}
use oort.Prog.{Result-cases}
use oort.Prog.Frames.{Frames, Frames-try_catch}
use oort.Toast.{Kind, push}
use oort.World.{AppState, World}
use oort.App.{is_unauthorized, get_or, open_workspace, load_failed, fetch_workspace, load_workspace}

-- A property that neither a change of the session nor a notice can break.
module _ {P : Type 0} (Q : World P → Type 0)
    (apps : (f : AppState → AppState) (w : World P) → Q w → Q (record w { app = f w.app }))
    (notices : (title detail : Text) (kind : Kind) (w : World P)
      → Q w
      → Q (record w { toasts = push title detail kind w.toasts })) where
  open_workspace-Frames :
      (preferred : Option Text) (ts : List Tenant) → Frames Q (open_workspace preferred ts)
  unfolding open_workspace
  open_workspace-Frames preferred [] = (apps _, tt)
  open_workspace-Frames preferred (first ∷ rest) = λ w.
      (apps _, λ r. elim (Result-cases r) [ inl (d, e) ↦ rw e (apps _, tt) | inr (f, e) ↦ rw e tt ])

  fetch_workspace-Frames : (preferred : Option Text) → Frames Q (fetch_workspace preferred)
  unfolding fetch_workspace
  fetch_workspace-Frames preferred = λ r. elim (Result-cases r) [
    | inl (l, e) ↦ rw e (apps _, open_workspace-Frames preferred (get_or [] l))
    | inr (f, e) ↦ rw e tt
  ]

  load_failed-Frames : (e : Failure) → Frames Q (load_failed e)
  unfolding load_failed
  load_failed-Frames e = elim (Bool-cases (is_unauthorized e)) [
    | inl y ↦ rw (y, Frames) (apps _, tt)
    | inr n ↦ rw (n, Frames) (notices _ _ _, tt)
  ]

  pub loaded-Frames : (preferred : Option Text) → Frames Q (load_workspace preferred)
  unfolding load_workspace
  loaded-Frames preferred =
      Frames-try_catch Q (fetch_workspace preferred) load_failed (fetch_workspace-Frames preferred)
        load_failed-Frames

module _ {P : Type 0} (M : P → Type 0) where
  abbrev pub OnPage : World P → Type 0
  OnPage w = M w.page

  pub load_workspace-Frames : (preferred : Option Text) → Frames OnPage (load_workspace preferred)
  load_workspace-Frames = loaded-Frames OnPage (λ f w q. q) (λ t d k w q. q)
