-- ===== src/Queries/Saving.antt =====
-- What a save of the draft sends, and what it changes.
use oort.Prelude.{
  suc, ◌≡◌, refl, ap, ◌∙◌, inl, inr, true, false, none, some, List, [], ◌∷◌, ◌++◌, Bool-cases,
  Option-cases,
}
use mathlib.Core.Path.{sym, subst}
use oort.Text.Slug.{is_slug}
use oort.Text.Walk.{trim}
use oort.Text.{Text, lit}
use oort.Json.{Json, show}
use oort.Api.{Dashboard, QueryRevision, Failure, message_of}
use oort.Api.Call.{Call, save_query, list_tenants}
use oort.Prog.{ok, err, run, Result-cases}
use oort.Prog.Settles.{after, changed, run_settled}
use oort.Toast.{push, fine, error}
use oort.World.{World, toast}
use oort.App.{load_workspace}
use oort.App.Laws.{load_workspace-Settles}
use oort.App.Reload.{reload-page, reload-ok, reload-calls}
use oort.Queries.Effects.{Env, End}
use oort.Queries.{Workbench, read_parameters, on_parsed, while_running, save, save_parameters}

module _ (env : Env) (d : Dashboard) (rendered : Workbench) (w : World Workbench) where
  abbrev name : Text
  name = trim rendered.draft.name

  abbrev ended : End
  ended = run env (save d rendered) w

  abbrev saving : Json → Call
  saving parameters = save_query d.tenant.slug name rendered.draft.sql parameters

  -- the state in which the workspace is loaded again
  abbrev written : QueryRevision → World Workbench
  written q = record w {
    page = record w.page { selected = some q.slug; running = true };
    toasts =
        push (lit "Query saved")
          (q.slug ++ (lit " revision " ++ (show q.version ++ lit " is ready to deploy."))) fine
          w.toasts;
  }

  abbrev reloaded : QueryRevision → End
  reloaded q = run (λ n. env (suc n)) (load_workspace (some d.tenant.slug)) (written q)

  -- The name or the parameters are refused before any call; the server refuses the save; or the
  -- saved query is selected, and the workspace is loaded again from there.
  pub data IsOutcome (e : End) : Type 0 where
    misnamed :
        is_slug name ≡ false
        → e ≡ (
          record w {
            toasts =
                push
                  (lit "Query name is invalid")
                  (lit "Use 3–63 lowercase letters, numbers, or hyphens.")
                  error
                  w.toasts;
          },
          ok tt,
          [],
        )
        → IsOutcome e
    unparsed :
        is_slug name ≡ true
        → read_parameters rendered.draft.parameters ≡ none
        → e ≡ (
          record w {
            toasts =
                push
                  (lit "Parameters are not valid JSON")
                  (lit "Use an object such as {\"limit\": 50}.")
                  error
                  w.toasts;
          },
          ok tt,
          [],
        )
        → IsOutcome e
    refused :
        (parameters : Json) (f : Failure)
        → is_slug name ≡ true
        → read_parameters rendered.draft.parameters ≡ some parameters
        → env 0 (saving parameters) ≡ err f
        → e ≡ (
          record w {
            page = record w.page { running = false };
            toasts = push (lit "Query could not be saved") (message_of f) error w.toasts;
          },
          ok tt,
          saving parameters ∷ [],
        )
        → IsOutcome e
    saved :
        (parameters : Json) (q : QueryRevision) (rest : List Call)
        → is_slug name ≡ true
        → read_parameters rendered.draft.parameters ≡ some parameters
        → env 0 (saving parameters) ≡ ok q
        → e.0.page ≡ record w.page { selected = some q.slug; running = false }
        → e.0.app ≡ (reloaded q).0.app
        → e.1 ≡ ok tt
        → e.2 ≡ saving parameters ∷ (list_tenants ∷ rest)
        → IsOutcome e

  save_parsed :
      (parameters : Json)
      → is_slug name ≡ true
      → read_parameters rendered.draft.parameters ≡ some parameters
      → save d rendered ≡ save_parameters d rendered name parameters
  unfolding save on_parsed
  save_parsed parameters e n = rw (e, n)

  save_misnamed : is_slug name ≡ false → IsOutcome ended
  unfolding save
  save_misnamed e = misnamed e (rw e refl)

  save_unparsed :
      is_slug name ≡ true → read_parameters rendered.draft.parameters ≡ none → IsOutcome ended
  unfolding save on_parsed
  save_unparsed e n = unparsed e n (rw (e, n) refl)

  save_refused :
      (parameters : Json) (f : Failure)
      → env 0 (saving parameters) ≡ err f
      → run env (save_parameters d rendered name parameters) w ≡ (
        record w {
          page = record w.page { running = false };
          toasts = push (lit "Query could not be saved") (message_of f) error w.toasts;
        },
        ok tt,
        saving parameters ∷ [],
      )
  unfolding while_running
  save_refused parameters f e = rw e refl

  abbrev idle : World Workbench → World Workbench
  idle v = record v { page = record v.page { running = false } }

  save_accepted :
      (parameters : Json) (q : QueryRevision)
      → env 0 (saving parameters) ≡ ok q
      → run env (save_parameters d rendered name parameters) w
        ≡ after (saving parameters) (changed idle (reloaded q))
  unfolding while_running
  save_accepted parameters q e = rw e (
      ap (after (saving parameters)) (
        run_settled (λ n. env (suc n)) (load_workspace (some d.tenant.slug))
          (λ f. toast (lit "Query could not be saved") (message_of f) error) idle (written q)
          (load_workspace-Settles Workbench (some d.tenant.slug))))

  accepted-IsOutcome :
      (parameters : Json) (q : QueryRevision)
      → is_slug name ≡ true
      → read_parameters rendered.draft.parameters ≡ some parameters
      → env 0 (saving parameters) ≡ ok q
      → IsOutcome (after (saving parameters) (changed idle (reloaded q)))
  accepted-IsOutcome parameters q named parsed e =
      let (rest, calls) = reload-calls (λ n. env (suc n)) (some d.tenant.slug) (written q) in
      saved parameters q rest named parsed e
        (ap (λ (p : Workbench). record p { running = false })
          (reload-page (λ n. env (suc n)) (some d.tenant.slug) (written q)))
        refl (reload-ok (λ n. env (suc n)) (some d.tenant.slug) (written q))
        (ap (λ cs. saving parameters ∷ cs) calls)

  -- A save of the draft, uninterrupted, whatever the server answers: if the trimmed name is no
  -- slug, or else the parameters are not JSON, it calls nothing and only adds the notice that says
  -- so. Otherwise its first call saves the rendered text and these parameters under that name; if
  -- that is refused, it calls nothing else, adds the notice of the failure, and changes nothing
  -- else but to end the mark of a running query; if it is accepted, the saved query is selected,
  -- the draft and the result stay, the mark is down in the end, the session is that of a load of
  -- the workspace from there, which is called behind the save, and no error is thrown.
  pub save-IsOutcome : IsOutcome ended
  save-IsOutcome = elim (Bool-cases (is_slug name)) [
    | inr bad ↦ save_misnamed bad
    | inl named ↦ elim (Option-cases (read_parameters rendered.draft.parameters)) [
      | inl bad ↦ save_unparsed named bad
      | inr (parameters, parsed) ↦ elim (Result-cases (env 0 (saving parameters))) [
        | inr (f, e) ↦ refused parameters f named parsed e (
            ap (λ p. run env p w) (save_parsed parameters named parsed)
            ∙ save_refused parameters f e)
        | inl (q, e) ↦
            subst IsOutcome
              (sym (
                ap (λ p. run env p w) (save_parsed parameters named parsed)
                ∙ save_accepted parameters q e))
              (accepted-IsOutcome parameters q named parsed e)
      ]
    ]
  ]
