-- ===== src/Datasets/Uploads.antt =====
-- The calls of an upload.
use oort.Prelude.{◌≡◌, refl, inl, inr, false, some, List, [], ◌∷◌, ◌==◌}
use oort.Text.{Text}
use oort.Api.{Dashboard, Failure, Job}
use oort.Api.Call.{Call, FileInfo, create_upload, put_upload}
use oort.Prog.{ok, err, run, Result-cases}
use oort.World.{World, confirmed}
use oort.App.Laws.{Env}
use oort.Datasets.{DatasetsPage, format_of, upload_dataset, while_busy, upload, submit}

module _ (env : Env) (d : Dashboard) (rendered : DatasetsPage) (file : FileInfo) (key : Text) where
  abbrev pub creation : Call
  creation = create_upload d.tenant.slug rendered.form.slug (format_of file.name) file.size key

  abbrev pub transfer : Text → Call
  transfer id = put_upload d.tenant.slug id file

  -- The upload was refused, and nothing else was called; or it was created as `id`, the file went
  -- to `id`, and there were further calls only if that succeeded.
  pub data IsUpload (calls : List Call) : Type 0 where
    refused : (f : Failure) → env 0 creation ≡ err f → calls ≡ creation ∷ [] → IsUpload calls
    failed :
        (id : Text) (f : Failure)
        → env 0 creation ≡ ok id
        → env 1 (transfer id) ≡ err f
        → calls ≡ creation ∷ transfer id ∷ []
        → IsUpload calls
    sent :
        (id : Text) (job : Job) (rest : List Call)
        → env 0 creation ≡ ok id
        → env 1 (transfer id) ≡ ok job
        → calls ≡ creation ∷ transfer id ∷ rest
        → IsUpload calls

  module _ (w : World DatasetsPage) where
    abbrev calls_of_upload : List Call
    calls_of_upload = (run env (upload d rendered file key) w).2

    upload_refused : (f : Failure) → env 0 creation ≡ err f → calls_of_upload ≡ creation ∷ []
    unfolding while_busy upload_dataset
    upload_refused f h = rw (h, run)

    upload_failed :
        (id : Text) (f : Failure)
        → env 0 creation ≡ ok id
        → env 1 (transfer id) ≡ err f
        → calls_of_upload ≡ creation ∷ transfer id ∷ []
    unfolding while_busy upload_dataset
    upload_failed id f h k = rw h (rw k)

    upload_sent :
        (id : Text) (job : Job)
        → env 0 creation ≡ ok id
        → env 1 (transfer id) ≡ ok job
        → (rest : List Call) × (calls_of_upload ≡ creation ∷ transfer id ∷ rest)
    unfolding while_busy upload_dataset
    upload_sent id job h k = rw h (rw k (_, refl))

    upload-IsUpload : IsUpload calls_of_upload
    upload-IsUpload = elim (Result-cases (env 0 creation)) [
      | inr (f, h) ↦ refused f h (upload_refused f h)
      | inl (id, h) ↦ elim (Result-cases (env 1 (transfer id))) [
        | inr (f, k) ↦ failed id f h k (upload_failed id f h k)
        | inl (job, k) ↦ let (rest, e) = upload_sent id job h k in sent id job rest h k e
      ]
    ]

    -- The submission of a file that is not empty first creates an upload, under the slug of the
    -- form as it was rendered. If that is refused, nothing else is called; otherwise the file is
    -- sent to the upload that was created, and if that is refused, nothing else is called.
    pub submit-IsUpload :
        (file.size == 0) ≡ false → IsUpload (run env (submit d rendered (some file) key) w).2
    unfolding submit confirmed
    submit-IsUpload h = rw h upload-IsUpload
