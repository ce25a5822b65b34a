-- ===== src/Jobs.antt =====
-- internal/server/web/src/pages/Jobs.tsx: the list of jobs, the job that is inspected, and its logs.
pub mod Laws
pub mod View
pub mod Controls
use oort.Prelude.{Bool, Option, none, some, List, ◌++◌, find, any}
use oort.Text.{Text, lit, text_eq}
use oort.Text.Walk.{replace_all}
use oort.Api.{Job, JobKind, dataset_import, connector_sync, app_publish, JobLog, message_of}
use oort.Api.Call.{Handler, list_jobs, job_logs, cancel_job}
use oort.Prog.{◌>>=◌, ◌>>◌, call, try_catch}
use oort.Toast.{fine, error}
use oort.World.{World, toast, set_page, confirmed}
use oort.App.{active_status}
use oort.Format.{short_id}

abbrev pub active : Job → Bool
active j = active_status j.status

pub record JobsPage : Type 0 where
  pub jobs : List Job
  pub selected : Option Job
  pub logs : List JobLog

-- The selected job in a new list, if it is still there.
unfoldable pub refresh : List Job → Option Job → Option Job
refresh next none = none
refresh next (some current) = find (λ j. text_eq j.id current.id) next

-- the function `load`
unfoldable pub load : Text → Handler (World JobsPage)
load tenant =
    try_catch
      (do
        next ← call (list_jobs tenant)
        set_page (λ p. record p { jobs = next })
        set_page (λ p. record p { selected = refresh next p.selected }))
      (λ e. toast (lit "Jobs could not load") (message_of e) error)

-- whether the effect behind a change of `jobs` starts a timer that loads again
unfoldable pub polls : JobsPage → Bool
polls p = any active p.jobs

-- the function `inspect`
unfoldable pub inspect : Text → Job → Handler (World JobsPage)
inspect tenant job =
    set_page (λ p. record p { selected = some job })
    >> try_catch
        (do logs ← call (job_logs tenant job.id 0); set_page (λ p. record p { logs = logs }))
        (λ e. toast (lit "Job logs could not load") (message_of e) error)

abbrev kind_text : JobKind → Text
kind_text dataset_import = lit "dataset_import"
kind_text connector_sync = lit "connector_sync"
kind_text app_publish = lit "app_publish"

abbrev kind_label : JobKind → Text
kind_label k = replace_all 95 (lit " ") (kind_text k)

-- the function `cancel`
unfoldable pub cancel : (Text → Bool) → Text → Job → Handler (World JobsPage)
unfolding load
cancel confirm tenant job =
    confirmed
      (confirm (
        lit "Cancel " ++ (kind_label job.kind ++ (lit " " ++ (short_id (some job.id) ++ lit "?")))))
      (try_catch
        (do
          _ ← call (cancel_job tenant job.id)
          toast (lit "Cancellation requested") (lit "Published data and releases are unchanged.")
              fine
          load tenant)
        (λ e. toast (lit "Job could not be cancelled") (message_of e) error))
