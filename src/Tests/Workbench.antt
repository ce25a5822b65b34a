-- ===== src/Tests/Workbench.antt =====
-- The workbench.
use oort.Prelude.{◌≡◌, refl, Bool, true, false, none, some, [], ◌∷◌, arith}
use oort.Text.{Text, lit, text_eq}
use oort.Json.{show, object, end}
use oort.Json.Parse.{parse}
use oort.Prog.{run, ok}
use oort.Prog.Machine.{Reach, here, next, begin, reply}
use oort.Toast.{fine, push}
use oort.World.{World}
use oort.Queries.{
  Draft, Workbench, default_parameters, draft_for, read_parameters, run_draft, on_parsed,
  while_running, save, remove,
}
use oort.Api.Call.{execute_draft_query}
use oort.Prog.Trace.{Trace, calls_waiting}
use oort.Queries.Events.{
  double_run, late_run, Starts, runs, Bench, running_ends, overlapping_runs, late_result,
}
use oort.Toast.Laws.{IsValid, fresh-IsValid}
use oort.Queries.Notices.{Starts as NoticeStarts, event, Reach-IsValid}
use oort.Queries.Effects.{IsRun, run_draft-IsRun}
use oort.Queries.Removal.{IsRemoval, remove-IsRemoval}
use oort.Queries.Saving.{IsOutcome, save-IsOutcome}
use oort.Queries.Laws.{draft_for_saved}
use oort.Tests.Data.{query, dashboard, result, world, serving}

abbrev bench : Workbench
bench = record {
  selected = none;
  draft = record { name = lit " all-orders "; sql = lit "SELECT 1"; parameters = lit "{}" };
  result = none;
  running = false;
}

abbrev start : World Workbench
start = world bench

-- every question is answered with yes
abbrev yes : Text → Bool
yes question = true

abbrev rests : World Workbench → Bench
rests w = record { state = w; waiting = [] }

parses : read_parameters bench.draft.parameters ≡ some (object end)
unfolding read_parameters lit parse
parses = refl

abbrev after_run : World Workbench
after_run = record start {
  page = record bench { result = some result };
  toasts = push (lit "Query completed") (lit "0 rows returned.") fine start.toasts;
}

ran : Reach (Starts yes) (rests start) (rests after_run)
unfolding run_draft on_parsed while_running read_parameters lit parse show
ran = next (next here (begin _ (runs dashboard refl))) (reply [] [] _ _ (ok result) refl)

running_ends_example : after_run.page.running ≡ false
running_ends_example = running_ends yes start (rests after_run) refl ran refl

run_draft-IsRun_example :
    IsRun dashboard bench start (run serving (run_draft dashboard bench) start)
run_draft-IsRun_example = run_draft-IsRun serving dashboard bench start

save-IsOutcome_example :
    IsOutcome serving dashboard bench start (run serving (save dashboard bench) start)
save-IsOutcome_example = save-IsOutcome serving dashboard bench start

abbrev chosen : Workbench
chosen = record bench { selected = some query.slug }

remove-IsRemoval_example :
    IsRemoval serving dashboard chosen yes
      (world chosen)
      (run serving (remove dashboard chosen yes) (world chosen))
remove-IsRemoval_example = remove-IsRemoval serving dashboard chosen yes (world chosen)

overlapping_runs_example :
    (m : Bench) × Trace
      (Starts yes)
      (rests start)
      (double_run dashboard bench (object end) result)
      m
    × (m.state.page.running ≡ false)
    × (calls_waiting m ≡ execute_draft_query (lit "acme") (lit "SELECT 1") (object end) ∷ [])
overlapping_runs_example = overlapping_runs yes start dashboard (object end) result refl parses

late_result_example :
    (m : Bench) × Trace
      (Starts yes)
      (rests start)
      (late_run dashboard bench (object end) result (some (lit "active-customers")))
      m
    × (m.state.page.selected ≡ some (lit "active-customers"))
    × (m.state.page.result ≡ some result)
    × (m.waiting ≡ [])
late_result_example =
    late_result yes start dashboard (object end) result (some (lit "active-customers")) refl parses

abbrev shown : Draft
shown = draft_for (query ∷ []) [] (some (lit "active-customers"))

draft_for_saved_example :
    (shown.name ≡ query.slug)
    × (shown.sql ≡ query.sql)
    × (read_parameters shown.parameters ≡ some (object (default_parameters query.parameter_types)))
unfolding text_eq lit
draft_for_saved_example =
    draft_for_saved (query ∷ []) [] (some (lit "active-customers")) query refl
      ((omega arith, (omega arith, (omega arith, (omega arith, (omega arith, tt))))), tt, tt)

noticed : Reach (NoticeStarts yes) (rests start) (rests after_run)
unfolding run_draft on_parsed while_running read_parameters lit parse show
noticed =
    next (next here (begin _ (event _ (runs dashboard refl)))) (reply [] [] _ _ (ok result) refl)

Reach-IsValid_example : IsValid after_run.toasts
Reach-IsValid_example = Reach-IsValid yes start (rests after_run) fresh-IsValid noticed
