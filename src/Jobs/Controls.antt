-- ===== src/Jobs/Controls.antt =====
-- What the controls of the page of jobs start.
use mathlib.Core.List.{Memᴰ}
use oort.Prelude.{◌≡◌, Bool, true, none, some, List}
use oort.Text.{Text}
use oort.Api.{Job, JobLog}
use oort.Api.Call.{Handler}
use oort.World.{World}
use oort.App.{nonempty}
use oort.View.{Turn, Action, fire}
use oort.View.Allows.{
  Allowed, allow, Allowed-each, Allowed-given, Allowed-when, Allowed-unless_empty, fire-Allowed,
}
use oort.View.Laws.{status-Allowed, page_head-Allowed, empty-Allowed, table-Allowed}
use mathlib.Core.Option.{none-ne-some}
use oort.View.Parts.{problem, Printer}
use oort.Jobs.{JobsPage, active, cancel, inspect}
use oort.Jobs.View.{cancel_button, job_row, log_line, job_details, jobs_view}

-- The controls of the page: inspecting a job of the list, and cancelling one that is active.
pub data IsControl (tenant : Text) (confirm : Text → Bool) (p : JobsPage)
    : Handler (World JobsPage) → Type 0 where
  inspects : (j : Job) → Memᴰ j p.jobs → IsControl tenant confirm p (inspect tenant j)
  cancels :
      (j : Job)
      → Memᴰ j p.jobs
      → active j ≡ true
      → IsControl tenant confirm p (cancel confirm tenant j)

module _ (pr : Printer) (tenant : Text) (confirm : Text → Bool) (p : JobsPage) where
  abbrev Ok : Handler (World JobsPage) → Type 0
  Ok = IsControl tenant confirm p

  cancel_button-Allowed :
      (j : Job) → Memᴰ j p.jobs → active j ≡ true → Allowed Ok (cancel_button pr tenant confirm j)
  cancel_button-Allowed j m y = record { holds = ((λ _. cancels j m y), tt) }

  row-Allowed : (j : Job) → Memᴰ j p.jobs → Allowed Ok (job_row pr tenant confirm j)
  unfolding job_row
  row-Allowed j m = record {
    holds = (
      (λ _. inspects j m),
      allow (status-Allowed Ok (some j.status))
          (allow (Allowed-when Ok (active j) (cancel_button-Allowed j m)) tt),
    );
  }

  log_line-Allowed : (l : JobLog) → Allowed Ok (log_line pr tenant confirm l)
  unfolding log_line
  log_line-Allowed l = record { holds = tt }

  details-Allowed : (j : Job) → Allowed Ok (job_details pr tenant confirm p.logs j)
  unfolding job_details
  details-Allowed j = record {
    holds = allow (status-Allowed Ok (some j.status)) (
        allow (Allowed-given Ok (nonempty j.error) {f = problem} (λ e _. record { holds = tt })) (
          allow
            (Allowed-unless_empty Ok p.logs (Allowed-each Ok p.logs (λ l _. log_line-Allowed l))
              (record { holds = tt }))
            tt));
  }

  view-Allowed : Allowed Ok (jobs_view pr tenant confirm p)
  unfolding jobs_view
  view-Allowed = record {
    holds = allow (page_head-Allowed Ok "Jobs" none (λ h e. absurd (none-ne-some h e))) (
        allow
          (Allowed-unless_empty Ok p.jobs (table-Allowed Ok _ p.jobs row-Allowed)
            (empty-Allowed Ok "No jobs yet" (record { holds = tt })))
          (allow (Allowed-given Ok p.selected (λ j _. details-Allowed j)) tt));
  }

  -- Whatever the user does with the page of jobs starts one of two things: inspecting a job of the
  -- list, or cancelling a job of the list that is waiting for its upload, queued or running.
  jobs_fire :
      (way : List Turn) (act : Action) (h : Handler (World JobsPage))
      → fire (jobs_view pr tenant confirm p) way act ≡ some h
      → IsControl tenant confirm p h
  jobs_fire way act h e = fire-Allowed Ok _ way act h view-Allowed e
