-- ===== src/Datasets.antt =====
-- internal/server/web/src/pages/Datasets.tsx: uploading, replacing and deleting datasets.
pub mod Laws
pub mod Uploads
pub mod Marks
pub mod View
pub mod Controls
use oort.Prelude.{
  ℕ, zero, suc, ◌+◌, ◌-◌, ◌*◌, ◌/◌, ◌%◌, ◌^◌, ◌≤◌, ◌<◌, ◌≡◌, refl, sym, ap, ◌∙◌, ◌≢◌, ◌↔◌, ◌⊎◌, inl,
  inr, Bool, true, false, not, ◌&&◌, ◌||◌, Option, none, some, List, [], ◌∷◌, ◌++◌, map,
  append_assoc, append-nil, arith, ltb, leb, ◌==◌, if◌then◌else◌, ==_iff, ltb→lt, Bool-cases,
  Option-cases, length, take, head?, find, filter, any, all, length-append, length-take, All,
  All-append,
}
use oort.Text.{Text, lit, text_eq}
use oort.Text.Walk.{lower, ends_with}
use oort.Text.Slug.{is_alnum}
use oort.Api.{Failure, Dashboard, Job, message_of}
use oort.Api.Call.{Async, Handler, FileInfo, create_upload, put_upload, delete_dataset}
use oort.Prog.{ret, ◌>>=◌, ◌>>◌, call, try_catch, finally}
use oort.Toast.{fine, error}
use oort.World.{World, toast, set_page, confirmed}
use oort.App.{load_workspace}

-- `toLowerCase`: besides the Latin capitals, the two letters beyond ASCII whose lower case is, or
-- begins with, an ASCII letter. The others go to letters beyond ASCII.
unfoldable pub lower_case : Text → Text
unfolding lower
lower_case [] = []
lower_case (c ∷ s) =
    let rest = lower_case s in
    if c == 0x212a then 107 ∷ rest else if c == 0x130 then 105 ∷ 0x307 ∷ rest else lower c ∷ rest

drop_last : ℕ → Text → Text
drop_last n s = take (length s - n) s

ascii_lower : Text → Text
unfolding lower
ascii_lower s = map lower s

-- `replace(/\.(csv|parquet)$/i, '')`
unfoldable pub strip_extension : Text → Text
unfolding drop_last ascii_lower ends_with
strip_extension s =
    if ends_with (ascii_lower s) (lit ".csv")
    then drop_last 4 s
    else if ends_with (ascii_lower s) (lit ".parquet")
    then drop_last 8 s
    else s

-- `replace(/[^a-z0-9]+/g, '-')`: `inside` says that the run has been written.
unfoldable pub dash_runs : Bool → Text → Text
unfolding is_alnum
dash_runs inside [] = []
dash_runs inside (c ∷ s) =
    let rest = dash_runs (not (is_alnum c)) s in
    if is_alnum c then c ∷ rest else if inside then rest else 45 ∷ rest

-- `replace(/^-|-$/g, '')`
unfoldable pub drop_leading : Text → Text
drop_leading [] = []
drop_leading (c ∷ s) = if c == 45 then s else c ∷ s

unfoldable pub drop_trailing : Text → Text
drop_trailing [] = []
drop_trailing (c ∷ []) = if c == 45 then [] else c ∷ []
drop_trailing (c ∷ (d ∷ s)) = c ∷ drop_trailing (d ∷ s)

-- `slugFromFilename`
unfoldable pub slug_from_filename : Text → Text
unfolding strip_extension lower_case dash_runs drop_leading drop_trailing
slug_from_filename name =
    take 63 (drop_trailing (drop_leading (dash_runs false (lower_case (strip_extension name)))))

-- the constant `format` of `api.uploadDataset`
unfoldable pub format_of : Text → Text
unfolding lower_case ends_with
format_of name = if ends_with (lower_case name) (lit ".parquet") then lit "parquet" else lit "csv"

-- `api.uploadDataset`; `key` is the random idempotency key
module _ {S : Type 0} where
  unfoldable pub upload_dataset : Text → Text → FileInfo → Text → Async S Job
  upload_dataset tenant slug file key = do
    id ← call (create_upload tenant slug (format_of file.name) file.size key)
    call (put_upload tenant id file)

-- The state of `UploadForm`, with the number of its mounting: a handler of a form that is gone
-- changes nothing.
pub record Form : Type 0 where
  pub instance_id : ℕ
  pub slug : Text
  pub busy : Bool

pub record DatasetsPage : Type 0 where
  pub replacing : Text
  pub deleting : Text
  pub form : Form

-- the form's `key`, `replacing || 'upload'`
abbrev pub form_key : Text → Text
form_key [] = lit "upload"
form_key (c ∷ s) = c ∷ s

-- `setReplacing`; under another key the form is mounted anew, with `initialSlug`.
unfoldable pub with_replacing : Text → DatasetsPage → DatasetsPage
with_replacing name p =
    if text_eq (form_key name) (form_key p.replacing)
    then record p { replacing = name }
    else record p {
      replacing = name;
      form = record { instance_id = suc p.form.instance_id; slug = name; busy = false };
    }

-- A setter of the form that was mounted as number `i`.
unfoldable pub with_form : ℕ → (Form → Form) → DatasetsPage → DatasetsPage
with_form i f p = if p.form.instance_id == i then record p { form = f p.form } else p

-- the change of the file input
unfoldable pub pick_file : Text → Form → Form
pick_file name f = elim f.slug [ [] ↦ record f { slug = slug_from_filename name } | _ ∷ _ ↦ f ]

abbrev pub reload : Dashboard → Handler (World DatasetsPage)
reload d = load_workspace (some d.tenant.slug)

-- `setBusy(true); try { body } finally { setBusy(false); }`
unfoldable pub while_busy : ℕ → Handler (World DatasetsPage) → Handler (World DatasetsPage)
while_busy i body =
    set_page (with_form i (λ f. record f { busy = true }))
    >> finally body (set_page (with_form i (λ f. record f { busy = false })))

-- `setDeleting(slug); try { body } finally { setDeleting(''); }`
unfoldable pub while_deleting : Text → Handler (World DatasetsPage) → Handler (World DatasetsPage)
while_deleting slug body =
    set_page (λ p. record p { deleting = slug })
    >> finally body (set_page (λ p. record p { deleting = [] }))

abbrev pub upload_refused : Failure → Handler (World DatasetsPage)
upload_refused e = toast (lit "Upload failed") (message_of e) error

abbrev pub delete_refused : Failure → Handler (World DatasetsPage)
delete_refused e = toast (lit "Dataset could not be deleted") (message_of e) error

module _ (d : Dashboard) (rendered : DatasetsPage) where
  -- what follows an upload
  abbrev pub uploaded : Handler (World DatasetsPage)
  uploaded = do
    toast (lit "Upload queued") (rendered.form.slug ++ lit " is being imported.") fine
    set_page (with_form rendered.form.instance_id (λ f. record f { slug = [] }))
    set_page (with_replacing [])
    reload d

  abbrev pub upload : FileInfo → Text → Handler (World DatasetsPage)
  upload file key = while_busy rendered.form.instance_id (
      try_catch (upload_dataset d.tenant.slug rendered.form.slug file key >> uploaded)
        upload_refused)

  -- the function `submit` of `UploadForm`
  unfoldable pub submit : Option FileInfo → Text → Handler (World DatasetsPage)
  submit none key = ret tt
  submit (some file) key = confirmed (not (file.size == 0)) (upload file key)

  -- the `try` block of `remove`
  abbrev pub delete : Text → Handler (World DatasetsPage)
  delete slug = do
    _ ← call (delete_dataset d.tenant.slug slug)
    set_page (λ p. if text_eq rendered.replacing slug then with_replacing [] p else p)
    reload d
    toast (lit "Dataset deleted") slug fine

  -- the function `remove`
  unfoldable pub remove : (Text → Bool) → Text → Handler (World DatasetsPage)
  remove confirm slug =
      confirmed
        (confirm (
          lit "Delete dataset "
          ++ (slug ++ lit "? Its snapshots, import history, and connector will be removed.")))
        (while_deleting slug (try_catch (delete slug) delete_refused))
