-- ===== src/Jobs/View.antt =====
-- internal/server/web/src/pages/Jobs.tsx: what the page of jobs renders.
use oort.Prelude.{Bool, none, some, List, [], ◌∷◌, ◌++◌}
use oort.Text.{Text, lit}
use oort.Json.{show}
use oort.Api.{Job, JobLog}
use oort.Api.Call.{Handler}
use oort.World.{World}
use oort.App.{nonempty, or_else, get_or}
use oort.Format.{short_id, dash}
use oort.View.{attr, on_click, Html, ◌<>◌, words, el, each, given, unless_empty, when}
use oort.View.Parts.{
  Printer, relative_time, box, say, icon, status, page_head, empty, table, problem,
}
use oort.Jobs.{JobsPage, active, kind_label, inspect, cancel}

module _ (pr : Printer) (tenant : Text) (confirm : Text → Bool) where
  abbrev pub cancel_button : Job → Html (Handler (World JobsPage))
  cancel_button job =
      el "button" (on_click (cancel confirm tenant job) ∷ []) (icon <> say " Cancel")

  unfoldable pub job_row : Job → Html (Handler (World JobsPage))
  job_row job = box "tr" (
      box "td" (
        el "button" (on_click (inspect tenant job) ∷ [])
          (words (kind_label job.kind ++ lit " ") <> box "code" (words (short_id (some job.id)))))
      <> box "td"
          (words (get_or dash (or_else (nonempty job.dataset_slug) (nonempty job.app_slug))))
      <> box "td" (status (some job.status))
      <> box "td" (words (show job.attempts))
      <> el "td" (attr "title" (pr.date job.updated_at) ∷ [])
          (words (relative_time pr job.updated_at))
      <> box "td" (when (active job) (cancel_button job)))

  unfoldable pub log_line : JobLog → Html (Handler (World JobsPage))
  log_line log = box "div" (
      box "time" (words (pr.date log.created_at))
      <> box "strong" (words log.level)
      <> box "span" (words log.message))

  unfoldable pub job_details : List JobLog → Job → Html (Handler (World JobsPage))
  job_details logs job = box "section" (
      box "div"
        (box "h2" (words (lit "Job " ++ short_id (some job.id))) <> status (some job.status))
      <> given (nonempty job.error) problem
      <> el "div" (attr "aria-label" (lit "Job logs") ∷ [])
          (unless_empty logs (each log_line logs) (box "p" (say "No log entries."))))

  unfoldable pub jobs_view : JobsPage → Html (Handler (World JobsPage))
  jobs_view p =
      page_head "Jobs" none
      <> unless_empty p.jobs
          (table ("Job" ∷ "Resource" ∷ "Status" ∷ "Attempts" ∷ "Updated" ∷ "Actions" ∷ []) job_row
            p.jobs)
          (empty "No jobs yet"
            (box "p" (say "Uploads, connector syncs, and deployments appear here.")))
      <> given p.selected (job_details p.logs)
