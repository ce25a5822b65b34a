-- ===== src/Apps/Rollback.antt =====
-- What a rollback sends, and what it changes.
use oort.Prelude.{
  ℕ, suc, ◌≡◌, refl, ap, inl, inr, Bool, true, false, some, List, [], ◌∷◌, ◌++◌, Bool-cases,
}
use mathlib.Core.Path.{sym, subst}
use oort.Text.{Text, lit}
use oort.Json.{show}
use oort.Api.{Dashboard, Deployment, Failure, message_of}
use oort.Api.Call.{Call, rollback, list_tenants}
use oort.Prog.{Result, ok, err, run, Result-cases}
use oort.Prog.Settles.{after, changed, run_settled}
use oort.Toast.{push, fine, error}
use oort.World.{World, confirmed}
use oort.App.{load_workspace}
use oort.App.Laws.{Env, load_workspace-Settles}
use oort.App.Reload.{reload-page, reload-ok, reload-calls}
use oort.Apps.{AppsPage, roll_back, while_rolling_back, restore_failed}

module _ (env : Env) (d : Dashboard) (confirm : Text → Bool) (deployment slug : Text) (version : ℕ)
    (w : World AppsPage) where
  abbrev question : Text
  question = lit "Point " ++ (slug ++ (lit " back to release v" ++ (show version ++ lit "?")))

  abbrev pointing : Call
  pointing = rollback d.tenant.slug deployment

  abbrev marked : World AppsPage → World AppsPage
  marked v = record v { page = record v.page { rolling_back = deployment } }

  abbrev idle : World AppsPage → World AppsPage
  idle v = record v { page = record v.page { rolling_back = [] } }

  -- the state in which the workspace is loaded again, and the end of that load
  abbrev pointed : World AppsPage
  pointed = record (marked w) {
    toasts =
        push (lit "Release restored") (slug ++ (lit " now serves v" ++ (show version ++ lit ".")))
          fine w.toasts;
  }

  abbrev reloaded : World AppsPage × Result Failure (Unit {0}) × List Call
  reloaded = run (λ n. env (suc n)) (load_workspace (some d.tenant.slug)) pointed

  -- The user declines; the server refuses; or the release is restored.
  pub data IsRollback (e : World AppsPage × Result Failure (Unit {0}) × List Call) : Type 0 where
    declined : confirm question ≡ false → e ≡ (w, ok tt, []) → IsRollback e
    refused :
        (f : Failure)
        → confirm question ≡ true
        → env 0 pointing ≡ err f
        → e ≡ (
          idle (record w { toasts = push (lit "Rollback failed") (message_of f) error w.toasts }),
          ok tt,
          pointing ∷ [],
        )
        → IsRollback e
    restored :
        (x : Deployment) (rest : List Call)
        → confirm question ≡ true
        → env 0 pointing ≡ ok x
        → e.0.page ≡ record w.page { rolling_back = [] }
        → e.0.app ≡ reloaded.0.app
        → e.1 ≡ ok tt
        → e.2 ≡ pointing ∷ (list_tenants ∷ rest)
        → IsRollback e

  abbrev ended : World AppsPage × Result Failure (Unit {0}) × List Call
  ended = run env (roll_back d confirm deployment slug version) w

  rollback_declined : confirm question ≡ false → ended ≡ (w, ok tt, [])
  unfolding roll_back confirmed
  rollback_declined n = rw n refl

  rollback_refused :
      (f : Failure)
      → confirm question ≡ true
      → env 0 pointing ≡ err f
      → ended ≡ (
        idle (record w { toasts = push (lit "Rollback failed") (message_of f) error w.toasts }),
        ok tt,
        pointing ∷ [],
      )
  unfolding roll_back confirmed while_rolling_back
  rollback_refused f y e = rw (y, e) refl

  rollback_accepted :
      (x : Deployment)
      → confirm question ≡ true
      → env 0 pointing ≡ ok x
      → ended ≡ after pointing (changed idle reloaded)
  unfolding roll_back confirmed while_rolling_back
  rollback_accepted x y e =
      rw (y, e)
        (ap (after pointing) (
          run_settled (λ n. env (suc n)) (load_workspace (some d.tenant.slug)) restore_failed idle
            pointed (load_workspace-Settles AppsPage (some d.tenant.slug))))

  accepted-IsRollback :
      (x : Deployment)
      → confirm question ≡ true
      → env 0 pointing ≡ ok x
      → IsRollback (after pointing (changed idle reloaded))
  accepted-IsRollback x y e =
      let (rest, calls) = reload-calls (λ n. env (suc n)) (some d.tenant.slug) pointed in
      restored x rest y e
        (ap (λ (p : AppsPage). record p { rolling_back = [] })
          (reload-page (λ n. env (suc n)) (some d.tenant.slug) pointed))
        refl (reload-ok (λ n. env (suc n)) (some d.tenant.slug) pointed)
        (ap (λ cs. pointing ∷ cs) calls)

  -- A rollback to a release, uninterrupted, whatever the server answers: if the user declines, it
  -- calls and changes nothing. Otherwise its first call points the app to the release; if that is
  -- refused, it calls nothing else, adds the notice of the failure, and changes nothing else but to
  -- end the mark of a rollback; if it is accepted, the page only loses that mark, the session is
  -- that of a load of the workspace, which is called behind the rollback, and no error is thrown.
  pub roll_back-IsRollback : IsRollback ended
  roll_back-IsRollback = elim (Bool-cases (confirm question)) [
    | inr n ↦ declined n (rollback_declined n)
    | inl y ↦ elim (Result-cases (env 0 pointing)) [
      | inr (f, e) ↦ refused f y e (rollback_refused f y e)
      | inl (x, e) ↦ subst IsRollback (sym (rollback_accepted x y e)) (accepted-IsRollback x y e)
    ]
  ]
