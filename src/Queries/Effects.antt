-- ===== src/Queries/Effects.antt =====
-- What one run of a draft sends, and what it changes.
use mathlib.Core.Path.{subst, sym}
use oort.Prelude.{
  ℕ, ◌+◌, ◌≡◌, refl, false, List, [], ◌∷◌, ◌++◌, none, some, length, length-append, All,
  Option-cases, inl, inr,
}
use oort.Text.{Text, lit}
use oort.Json.{Json, show}
use oort.Api.{Dashboard, QueryResult, Failure, message_of}
use oort.Api.Call.{Call, execute_draft_query, Reply}
use oort.Prog.{Result, ok, err, run, Result-cases}
use oort.Toast.{Kind, Store, push, fine, error}
use oort.World.{World}
use oort.Queries.Events.{run_draft_parsed}
use oort.Queries.{Workbench, read_parameters, on_parsed, while_running, run_draft, run_parameters}

abbrev pub Env : Type 0
Env = ℕ → (c : Call) → Reply c

-- The end of a handler that has run alone: the state, its result and the calls that it made.
abbrev pub End : Type 0
End = World Workbench × Result Failure (Unit {0}) × List Call

-- `c` executes the draft as it is rendered.
abbrev pub IsDraftCall : Dashboard → Workbench → Call → Type 0
IsDraftCall d rendered c =
    (parameters : Json) × (read_parameters rendered.draft.parameters ≡ some parameters)
    × (c ≡ execute_draft_query d.tenant.slug rendered.draft.sql parameters)

-- A run keeps the workspace, the selection and the draft, adds one notice, ends without an error,
-- and calls nothing but the execution of the draft.
pub record IsRun (d : Dashboard) (rendered : Workbench) (w : World Workbench) (e : End)
    : Type 0 where
  pub app : e.0.app ≡ w.app
  pub selected : e.0.page.selected ≡ w.page.selected
  pub draft : e.0.page.draft ≡ w.page.draft
  pub notices : length e.0.toasts.toasts ≡ length w.toasts.toasts + 1
  pub settled : e.1 ≡ ok tt
  pub calls : All (IsDraftCall d rendered) e.2

notices-push :
    (title detail : Text) (kind : Kind) (s : Store)
    → length (push title detail kind s).toasts ≡ length s.toasts + 1
unfolding push
notices-push title detail kind s = length-append s.toasts _

module _ (env : Env) (d : Dashboard) (rendered : Workbench) (w : World Workbench)
    (parameters : Json) where
  abbrev execution : Call
  execution = execute_draft_query d.tenant.slug rendered.draft.sql parameters

  -- The end after a run whose execution gave `result`, and after one that failed.
  abbrev ran : QueryResult → End
  ran r = (
    record w {
      page = record w.page { result = some r; running = false };
      toasts =
          push (lit "Query completed") (show (length r.rows) ++ lit " rows returned.") fine
            w.toasts;
    },
    ok tt,
    execution ∷ [],
  )

  abbrev failed : Failure → End
  failed f = (
    record w {
      page = record w.page { running = false };
      toasts = push (lit "Query failed") (message_of f) error w.toasts;
    },
    ok tt,
    execution ∷ [],
  )

  run_parameters_done :
      (r : QueryResult)
      → env 0 execution ≡ ok r
      → run env (run_parameters d rendered parameters) w ≡ ran r
  unfolding while_running
  run_parameters_done r e = rw e

  run_parameters_refused :
      (f : Failure)
      → env 0 execution ≡ err f
      → run env (run_parameters d rendered parameters) w ≡ failed f
  unfolding while_running
  run_parameters_refused f e = rw e

  run_parameters-IsRun :
      read_parameters rendered.draft.parameters ≡ some parameters
      → IsRun d rendered w (run env (run_parameters d rendered parameters) w)
  run_parameters-IsRun h = elim (Result-cases (env 0 execution)) [
    | inl (r, e) ↦ subst (IsRun d rendered w) (sym (run_parameters_done r e)) (record {
      app = refl;
      selected = refl;
      draft = refl;
      notices = notices-push _ _ _ w.toasts;
      settled = refl;
      calls = ((parameters, h, refl), tt);
    })
    | inr (f, e) ↦ subst (IsRun d rendered w) (sym (run_parameters_refused f e)) (record {
      app = refl;
      selected = refl;
      draft = refl;
      notices = notices-push _ _ _ w.toasts;
      settled = refl;
      calls = ((parameters, h, refl), tt);
    })
  ]

run_draft_unparsed :
    (env : Env) (d : Dashboard) (rendered : Workbench) (w : World Workbench)
    → read_parameters rendered.draft.parameters ≡ none
    → IsRun d rendered w (run env (run_draft d rendered) w)
unfolding run_draft on_parsed
run_draft_unparsed env d rendered w e = rw e (record {
  app = refl;
  selected = refl;
  draft = refl;
  notices = notices-push _ _ _ w.toasts;
  settled = refl;
  calls = tt;
})

-- A run of a draft, uninterrupted, keeps the workspace, the selection and the draft, adds exactly
-- one notice, ends without an error, and makes no call but the execution of the rendered text with
-- the rendered parameters, which are JSON; whatever the server answers and whatever stands in the
-- parameters.
pub run_draft-IsRun :
    (env : Env) (d : Dashboard) (rendered : Workbench) (w : World Workbench)
    → IsRun d rendered w (run env (run_draft d rendered) w)
run_draft-IsRun env d rendered w = elim (Option-cases (read_parameters rendered.draft.parameters)) [
  | inl e ↦ run_draft_unparsed env d rendered w e
  | inr (parameters, e) ↦
      rw (run_draft_parsed d rendered parameters e)
        (run_parameters-IsRun env d rendered w parameters e)
]
