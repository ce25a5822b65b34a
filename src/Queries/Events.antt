-- ===== src/Queries/Events.antt =====
-- The workbench under every interleaving of its handlers.
use mathlib.Core.Path.{subst, sym}
use oort.Prelude.{
  ◌≡◌, refl, ◌⊎◌, inl, inr, Bool, true, false, Option, none, some, List, [], ◌∷◌, Bool-cases,
}
use oort.Text.{Text}
use oort.Text.Slug.{is_slug}
use oort.Text.Walk.{trim}
use oort.Json.{Json}
use oort.Api.{Dashboard, Failure, QueryResult}
use oort.Api.Call.{Call, Answer, Handler, execute_draft_query}
use oort.Prog.{ok, finally}
use oort.Prog.Machine.{Machine, Reach, spawn}
use oort.Prog.Trace.{Event, started, answered, Trace, done, starts, answers, calls_waiting}
use oort.Prog.Quiet.{Rests, Leaves-Rests, Leaves-finally}
use oort.World.Quiet.{confirmed-Rests, on_some-Rests}
use oort.Prog.Marks.{Steady, Reach-rests}
use oort.Prog.Frames.{Frames-Steady}
use oort.App.{load_workspace}
use oort.App.Frames.{load_workspace-Frames}
use oort.World.{World, set_page}
use oort.Queries.{
  Draft, Workbench, select, read_parameters, on_parsed, while_running, set_running, run_draft,
  run_parameters, save, remove,
}

-- What may start in a state: a handler of the page as it is rendered, an edit of the draft, or a load
-- of the workspace by its timer or the sidebar.
pub data Starts (confirm : Text → Bool) (w : World Workbench)
    : Handler (World Workbench) → Type 0 where
  selects :
      (d : Dashboard) (slug : Option Text)
      → w.app.dashboard ≡ some d
      → Starts confirm w (select d slug)
  edits : (f : Draft → Draft) → Starts confirm w (set_page (λ p. record p { draft = f p.draft }))
  loads : (preferred : Option Text) → Starts confirm w (load_workspace preferred)
  runs : (d : Dashboard) → w.app.dashboard ≡ some d → Starts confirm w (run_draft d w.page)
  saves : (d : Dashboard) → w.app.dashboard ≡ some d → Starts confirm w (save d w.page)
  removes : (d : Dashboard) → w.app.dashboard ≡ some d → Starts confirm w (remove d w.page confirm)

abbrev pub Idle : World Workbench → Type 0
Idle w = w.page.running ≡ false

while_running-Rests :
    (body : Handler (World Workbench)) (s : World Workbench) (q : Type 0)
    → Rests Idle (while_running body) s q
unfolding while_running
while_running-Rests body s q =
    Leaves-Rests Idle (finally body (set_running false)) _ q
      (Leaves-finally Idle body (set_running false) _ (λ t. refl))

on_parsed-Rests :
    (parsed : Option Json) (k : Json → Handler (World Workbench)) (s : World Workbench)
    → ((v : Json) → Rests Idle (k v) s (Idle s))
    → Rests Idle (on_parsed parsed k) s (Idle s)
unfolding on_parsed
on_parsed-Rests none k s h = λ q. q
on_parsed-Rests (some v) k s h = h v

starts_well :
    (confirm : Text → Bool) (w : World Workbench) (p : Handler (World Workbench))
    → Starts confirm w p
    → Rests Idle p w (Idle w) ⊎ Steady Idle p w (Idle w)
unfolding select run_draft save remove
starts_well confirm w _ (selects d slug e) = inr (λ q. q)
starts_well confirm w _ (edits f) = inr (λ q. q)
starts_well confirm w _ (loads preferred) = inr (
    Frames-Steady Idle (load_workspace preferred) w (Idle w) (λ q. q)
      (load_workspace-Frames (λ p. p.running ≡ false) preferred))
starts_well confirm w _ (runs d e) =
    inl (on_parsed-Rests _ _ w (λ v. while_running-Rests _ w (Idle w)))
starts_well confirm w _ (saves d e) = inl (elim (Bool-cases (is_slug (trim w.page.draft.name))) [
  | inl y ↦ rw y (on_parsed-Rests _ _ w (λ v. while_running-Rests _ w (Idle w)))
  | inr n ↦ rw n (λ q. q)
])
starts_well confirm w _ (removes d e) =
    inl (
      on_some-Rests Idle _ _ w (λ s. confirmed-Rests Idle _ _ w (while_running-Rests _ w (Idle w))))

abbrev pub Bench : Type 0
Bench = Machine Call Answer Failure (World Workbench) (Unit {0})

-- If the workbench starts idle with no handler waiting, then whatever selections, edits, runs,
-- saves, deletions and loads of the workspace were started, and in whatever order their calls were
-- answered: once no handler is waiting, the flag that disables the buttons is down.
pub running_ends :
    (confirm : Text → Bool) (w : World Workbench) (m : Bench)
    → w.page.running ≡ false
    → Reach (Starts confirm) (record { state = w; waiting = [] }) m
    → m.waiting ≡ []
    → m.state.page.running ≡ false
running_ends confirm w m idle r e =
    Reach-rests Idle (Starts confirm) (starts_well confirm) w m idle r e

pub run_draft_parsed :
    (d : Dashboard) (rendered : Workbench) (parameters : Json)
    → read_parameters rendered.draft.parameters ≡ some parameters
    → run_draft d rendered ≡ run_parameters d rendered parameters
unfolding run_draft on_parsed
run_draft_parsed d rendered parameters e = rw e

-- A run starts from a render whose parameters are JSON.
begin_run :
    (confirm : Text → Bool) (w : World Workbench) (d : Dashboard) (parameters : Json)
    → w.app.dashboard ≡ some d
    → read_parameters w.page.draft.parameters ≡ some parameters
    → Starts confirm w (run_parameters d w.page parameters)
begin_run confirm w d parameters e parsed =
    subst (Starts confirm w) (run_draft_parsed d w.page parameters parsed) (runs d e)

abbrev pub BenchEvent : Type 0
BenchEvent = Event Call Answer Failure (World Workbench) (Unit {0})

-- the workbench while a run is waiting
abbrev pub busy : Workbench → Workbench
busy p = record p { running = true }

-- A run of parameters that are JSON is started.
starts_run :
    (confirm : Text → Bool) {m n : Bench} {es : List BenchEvent} (d : Dashboard) (parameters : Json)
    → m.state.app.dashboard ≡ some d
    → read_parameters m.state.page.draft.parameters ≡ some parameters
    → Trace
        (Starts confirm)
        (spawn (run_parameters d m.state.page parameters) m.state m.waiting)
        es
        n
    → Trace (Starts confirm) m (started (run_draft d m.state.page) ∷ es) n
starts_run confirm {m} {n} {es} d parameters e parsed t =
    subst (λ h. Trace (Starts confirm) m (started h ∷ es) n)
      (sym (run_draft_parsed d m.state.page parameters parsed))
      (starts _ (begin_run confirm m.state d parameters e parsed) t)

-- Two runs are started, the second before the first is answered; then one is answered.
abbrev pub double_run : Dashboard → Workbench → Json → QueryResult → List BenchEvent
double_run d p parameters r =
    started (run_draft d p)
    ∷ started (run_draft d (busy p))
    ∷ answered (execute_draft_query d.tenant.slug p.draft.sql parameters) (ok r)
    ∷ []

-- If the rendered parameters are JSON: a run is started, another one before the first is answered,
-- as the key of the editor allows, and then one is answered. These events, in this order, lead to a
-- state in which the workbench is shown idle while the call of the other run is still waiting.
pub overlapping_runs :
    (confirm : Text → Bool) (w : World Workbench) (d : Dashboard) (parameters : Json)
    (r : QueryResult)
    → w.app.dashboard ≡ some d
    → read_parameters w.page.draft.parameters ≡ some parameters
    → (m : Bench) × Trace
        (Starts confirm)
        (record { state = w; waiting = [] })
        (double_run d w.page parameters r)
        m
      × (m.state.page.running ≡ false)
      × (calls_waiting m ≡ execute_draft_query d.tenant.slug w.page.draft.sql parameters ∷ [])
unfolding while_running
overlapping_runs confirm w d parameters r e parsed = (
  _,
  starts_run confirm d parameters e parsed
      (starts_run confirm d parameters e parsed (answers [] (_ ∷ []) _ _ (ok r) refl done)),
  refl,
  refl,
)

-- A run is started, another query is selected, and then the run is answered.
abbrev pub late_run : Dashboard → Workbench → Json → QueryResult → Option Text → List BenchEvent
late_run d p parameters r slug =
    started (run_draft d p)
    ∷ started (select d slug)
    ∷ answered (execute_draft_query d.tenant.slug p.draft.sql parameters) (ok r)
    ∷ []

-- If the rendered parameters are JSON: a run is started, any query is selected, and then the run is
-- answered. These events, in this order, lead to a state with no handler waiting in which that
-- query is selected and the result of the earlier run is shown.
pub late_result :
    (confirm : Text → Bool) (w : World Workbench) (d : Dashboard) (parameters : Json)
    (r : QueryResult) (slug : Option Text)
    → w.app.dashboard ≡ some d
    → read_parameters w.page.draft.parameters ≡ some parameters
    → (m : Bench) × Trace
        (Starts confirm)
        (record { state = w; waiting = [] })
        (late_run d w.page parameters r slug)
        m
      × (m.state.page.selected ≡ slug)
      × (m.state.page.result ≡ some r)
      × (m.waiting ≡ [])
unfolding while_running select
late_result confirm w d parameters r slug e parsed = (
  _,
  starts_run confirm d parameters e parsed
      (starts _ (selects d slug e) (answers [] [] _ _ (ok r) refl done)),
  refl,
  refl,
  refl,
)
