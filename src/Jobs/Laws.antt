-- ===== src/Jobs/Laws.antt =====
-- The page of jobs under every interleaving of its handlers and of its timer.
use oort.Prelude.{
  ◌≡◌, refl, inl, inr, Bool, true, false, Option, none, some, List, [], ◌∷◌, Bool-cases, find,
}
use mathlib.Core.List.{Memᴰ}
use oort.Text.{Text}
use oort.Api.{Job, JobLog, Failure}
use oort.Api.Call.{Call, Answer, Handler, job_logs}
use oort.Prog.{ok, Result-cases}
use oort.Prog.Machine.{Machine, Reach, Keeps, Reach-IsKept}
use oort.Prog.Trace.{Event, started, answered, Trace, done, starts, answers}
use oort.Prog.Frames.{Frames-Keeps}
use oort.App.{load_workspace}
use oort.App.Frames.{load_workspace-Frames}
use oort.World.{World, confirmed}
use oort.Jobs.Controls.{IsControl, inspects, cancels}
use oort.Jobs.{JobsPage, refresh, load, inspect, cancel}

-- What may start: the first load, the timer or a control of the page as it is rendered, or a load of
-- the workspace by its timer or the sidebar.
pub data Starts (tenant : Text) (confirm : Text → Bool) (w : World JobsPage)
    : Handler (World JobsPage) → Type 0 where
  loads : Starts tenant confirm w (load tenant)
  reloads : (preferred : Option Text) → Starts tenant confirm w (load_workspace preferred)
  presses :
      (p : Handler (World JobsPage)) → IsControl tenant confirm w.page p → Starts tenant confirm w p

-- The selected job is one of the list that is shown.
abbrev pub Among : Option Job → List Job → Type 0
Among none js = Unit
Among (some j) js = Memᴰ j js

abbrev pub IsListed : World JobsPage → Type 0
IsListed w = Among w.page.selected w.page.jobs

find-Among : (p : Job → Bool) (js : List Job) → Among (find p js) js
find-Among p [] = tt
find-Among p (x ∷ xs) = elim (Bool-cases (p x)) [
  | inl y ↦ rw y (Memᴰ.head refl)
  | inr n ↦ rw n (later (find p xs) (find-Among p xs))
]
  where
    later : (o : Option Job) → Among o xs → Among o (x ∷ xs)
    later none h = tt
    later (some j) h = Memᴰ.tail h

refresh-Among : (js : List Job) (o : Option Job) → Among (refresh js o) js
unfolding refresh
refresh-Among js none = tt
refresh-Among js (some c) = find-Among _ js

load-Keeps : (tenant : Text) (w : World JobsPage) → IsListed w → Keeps IsListed (load tenant) w
unfolding load
load-Keeps tenant w h = (
  h,
  λ r t q. elim (Result-cases r) [
    | inl (js, e) ↦ rw e (refresh-Among js t.page.selected)
    | inr (f, e) ↦ rw e q
  ],
)

inspect-Keeps :
    (tenant : Text) (j : Job) (w : World JobsPage)
    → Memᴰ j w.page.jobs
    → Keeps IsListed (inspect tenant j) w
unfolding inspect
inspect-Keeps tenant j w m =
    (m, λ r t q. elim (Result-cases r) [ inl (logs, e) ↦ rw e q | inr (f, e) ↦ rw e q ])

confirmed-Keeps :
    (b : Bool) (p : Handler (World JobsPage)) (w : World JobsPage)
    → IsListed w
    → Keeps IsListed p w
    → Keeps IsListed (confirmed b p) w
unfolding confirmed
confirmed-Keeps true p w h k = k
confirmed-Keeps false p w h k = h

cancel-Keeps :
    (tenant : Text) (confirm : Text → Bool) (j : Job) (w : World JobsPage)
    → IsListed w
    → Keeps IsListed (cancel confirm tenant j) w
unfolding cancel load
cancel-Keeps tenant confirm j w h = confirmed-Keeps _ _ w h (
  h,
  λ r t q. elim (Result-cases r) [
    | inl (u, e) ↦ rw e (
      q,
      λ r' t' q'. elim (Result-cases r') [
        | inl (js, e') ↦ rw e' (refresh-Among js t'.page.selected)
        | inr (f, e') ↦ rw e' q'
      ],
    )
    | inr (f, e) ↦ rw e q
  ],
)

Starts-Keeps :
    (tenant : Text) (confirm : Text → Bool) (w : World JobsPage) (p : Handler (World JobsPage))
    → IsListed w
    → Starts tenant confirm w p
    → Keeps IsListed p w
Starts-Keeps tenant confirm w _ h loads = load-Keeps tenant w h
Starts-Keeps tenant confirm w _ h (presses _ (inspects j m)) = inspect-Keeps tenant j w m
Starts-Keeps tenant confirm w _ h (reloads preferred) =
    Frames-Keeps IsListed (load_workspace preferred) w h
      (load_workspace-Frames (λ p. Among p.selected p.jobs) preferred)
Starts-Keeps tenant confirm w _ h (presses _ (cancels j m a)) = cancel-Keeps tenant confirm j w h

abbrev pub Page : Type 0
Page = Machine Call Answer Failure (World JobsPage) (Unit {0})

abbrev pub at_rest : World JobsPage → Page
at_rest w = record { state = w; waiting = [] }

-- If the selected job, if any, is one of the table at the start, then whatever was loaded,
-- inspected and cancelled from the table as it was rendered, whatever workspaces were loaded, and
-- in whatever order the answers came: the selected job, if any, is one of the jobs in the table.
pub selected_listed :
    (tenant : Text) (confirm : Text → Bool) (w : World JobsPage) (m : Page)
    → Among w.page.selected w.page.jobs
    → Reach (Starts tenant confirm) (at_rest w) m
    → Among m.state.page.selected m.state.page.jobs
selected_listed tenant confirm w m h r =
    let v =
      Reach-IsKept IsListed (Starts tenant confirm) (Starts-Keeps tenant confirm)
        (record { holds = h; ready = tt }) r in
    v.holds

-- Two jobs are inspected, and answered in the opposite order.
abbrev pub crossed_inspections :
    Text
    → Job
    → Job
    → List JobLog
    → List JobLog
    → List (Event Call Answer Failure (World JobsPage) (Unit {0}))
crossed_inspections tenant a b logs_a logs_b =
    started (inspect tenant a)
    ∷ started (inspect tenant b)
    ∷ answered (job_logs tenant b.id 0) (ok logs_b)
    ∷ answered (job_logs tenant a.id 0) (ok logs_a)
    ∷ []

-- For any two jobs of the table: the first is inspected, then the second, the request for the logs
-- of the second is answered, and after it that for the logs of the first. These events, in this
-- order, lead to a state with no handler waiting in which the second job is selected and the logs
-- of the first are shown.
pub stale_logs :
    (tenant : Text) (confirm : Text → Bool) (w : World JobsPage) (a b : Job)
    (logs_a logs_b : List JobLog)
    → Memᴰ a w.page.jobs
    → Memᴰ b w.page.jobs
    → (m : Page) × Trace
        (Starts tenant confirm)
        (at_rest w)
        (crossed_inspections tenant a b logs_a logs_b)
        m
      × (m.state.page.selected ≡ some b)
      × (m.state.page.logs ≡ logs_a)
      × (m.waiting ≡ [])
unfolding inspect
stale_logs tenant confirm w a b logs_a logs_b ma mb = (
  _,
  starts _ (presses _ (inspects a ma)) (
      starts _ (presses _ (inspects b mb))
        (answers (_ ∷ []) [] _ _ (ok logs_b) refl (answers [] [] _ _ (ok logs_a) refl done))),
  refl,
  refl,
  refl,
)
