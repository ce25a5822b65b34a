-- ===== src/Datasets/Marks.antt =====
-- The mark of a deletion, under every interleaving of the handlers of the page and of loads of the
-- workspace.
use oort.Prelude.{
  ℕ, ◌≡◌, refl, ◌⊎◌, inl, inr, Bool, false, Option, none, some, [], ◌==◌, Bool-cases,
}
use oort.Text.{Text, text_eq}
use oort.Api.{Dashboard, Failure}
use oort.Api.Call.{Call, Answer, FileInfo, Handler}
use oort.Prog.{finally, try_catch, ◌>>◌, Result-cases}
use oort.Prog.Frames.{Frames, Frames-bind, Frames-try_catch, Frames-finally, Frames-Steady}
use oort.Prog.Machine.{Machine, Reach}
use oort.Prog.Quiet.{Rests, Leaves-Rests, Leaves-finally}
use oort.Prog.Marks.{Steady, Reach-rests}
use oort.World.{World, set_page}
use oort.World.Quiet.{confirmed-Rests}
use oort.World.Frames.{confirmed-Frames}
use oort.App.{load_workspace}
use oort.App.Frames.{OnPage, load_workspace-Frames}
use oort.Datasets.{
  DatasetsPage, Form, form_key, with_replacing, with_form, upload_dataset, while_busy,
  while_deleting, upload_refused, delete_refused, uploaded, upload, submit, delete, remove,
}

-- What may start: a change or the submission of the form, a button of the page, or a load of the
-- workspace by the timer or the sidebar.
pub data Starts (confirm : Text → Bool) (w : World DatasetsPage)
    : Handler (World DatasetsPage) → Type 0 where
  edits : (i : ℕ) (f : Form → Form) → Starts confirm w (set_page (with_form i f))
  replaces : (slug : Text) → Starts confirm w (set_page (with_replacing slug))
  submits :
      (d : Dashboard) (file : Option FileInfo) (key : Text)
      → w.app.dashboard ≡ some d
      → Starts confirm w (submit d w.page file key)
  removes :
      (d : Dashboard) (slug : Text)
      → w.app.dashboard ≡ some d
      → Starts confirm w (remove d w.page confirm slug)
  loads : (preferred : Option Text) → Starts confirm w (load_workspace preferred)

abbrev NotDeleting : DatasetsPage → Type 0
NotDeleting p = p.deleting ≡ []

abbrev IsIdle : World DatasetsPage → Type 0
IsIdle = OnPage NotDeleting

with_form-NotDeleting :
    (i : ℕ) (f : Form → Form) (p : DatasetsPage) → NotDeleting p → NotDeleting (with_form i f p)
unfolding with_form
with_form-NotDeleting i f p h = elim (Bool-cases (p.form.instance_id == i)) [
  | inl y ↦ rw y h
  | inr n ↦ rw n h
]

with_replacing-NotDeleting :
    (slug : Text) (p : DatasetsPage) → NotDeleting p → NotDeleting (with_replacing slug p)
unfolding with_replacing
with_replacing-NotDeleting slug p h =
    elim (Bool-cases (text_eq (form_key slug) (form_key p.replacing))) [
      | inl y ↦ rw y h
      | inr n ↦ rw n h
    ]

module _ (d : Dashboard) (rendered : DatasetsPage) where
  uploaded-Frames : Frames IsIdle (uploaded d rendered)
  uploaded-Frames = (
    (λ s q. q),
    (
      (λ s q. with_form-NotDeleting _ _ s.page q),
      ((λ s q. with_replacing-NotDeleting [] s.page q), load_workspace-Frames NotDeleting _),
    ),
  )

  upload_dataset-Frames :
      (slug : Text) (file : FileInfo) (key : Text)
      → Frames IsIdle (upload_dataset d.tenant.slug slug file key)
  unfolding upload_dataset
  upload_dataset-Frames slug file key = λ r. elim (Result-cases r) [
    | inl (id, e) ↦
        rw e (λ r'. elim (Result-cases r') [ inl (j, k) ↦ rw k tt | inr (f, k) ↦ rw k tt ])
    | inr (f, e) ↦ rw e tt
  ]

  upload-Frames : (file : FileInfo) (key : Text) → Frames IsIdle (upload d rendered file key)
  unfolding while_busy
  upload-Frames file key =
      let sending = upload_dataset d.tenant.slug rendered.form.slug file key in
      let i = rendered.form.instance_id in
      let reset = set_page (with_form i (λ f. record f { busy = false })) in
      (
        (λ s q. with_form-NotDeleting _ _ s.page q),
        Frames-finally IsIdle (try_catch (sending >> uploaded d rendered) upload_refused) reset
            (Frames-try_catch IsIdle (sending >> uploaded d rendered) upload_refused
              (Frames-bind IsIdle sending (λ _. uploaded d rendered)
                (upload_dataset-Frames rendered.form.slug file key) (λ _. uploaded-Frames))
              (λ e. ((λ s q. q), tt)))
            ((λ s q. with_form-NotDeleting _ _ s.page q), tt),
      )

  submit-Frames : (file : Option FileInfo) (key : Text) → Frames IsIdle (submit d rendered file key)
  unfolding submit
  submit-Frames none key = tt
  submit-Frames (some file) key = confirmed-Frames IsIdle _ _ (upload-Frames file key)

  remove-Rests :
      (confirm : Text → Bool) (slug : Text) (w : World DatasetsPage)
      → Rests IsIdle (remove d rendered confirm slug) w (IsIdle w)
  unfolding remove while_deleting
  remove-Rests confirm slug w =
      let body = try_catch (delete d rendered slug) delete_refused in
      let reset = set_page (λ p. record p { deleting = [] }) in
      let started : World DatasetsPage = record w { page = record w.page { deleting = slug } } in
      confirmed-Rests IsIdle _ _ w (
        Leaves-Rests IsIdle (finally body reset) started (IsIdle w)
          (Leaves-finally IsIdle body reset started (λ t. refl)))

starts_well :
    (confirm : Text → Bool) (w : World DatasetsPage) (p : Handler (World DatasetsPage))
    → Starts confirm w p
    → Rests IsIdle p w (IsIdle w) ⊎ Steady IsIdle p w (IsIdle w)
starts_well confirm w _ (edits i f) = inr (λ q. with_form-NotDeleting i f w.page q)
starts_well confirm w _ (replaces slug) = inr (λ q. with_replacing-NotDeleting slug w.page q)
starts_well confirm w _ (submits d file key e) = inr (
    Frames-Steady IsIdle (submit d w.page file key) w (IsIdle w) (λ q. q)
      (submit-Frames d w.page file key))
starts_well confirm w _ (removes d slug e) = inl (remove-Rests d w.page confirm slug w)
starts_well confirm w _ (loads preferred) = inr (
    Frames-Steady IsIdle (load_workspace preferred) w (IsIdle w) (λ q. q)
      (load_workspace-Frames NotDeleting preferred))

-- If the page of datasets starts with no mark of a deletion and no handler waiting, then whatever
-- uploads, replacements, deletions and loads were started, and in whatever order the calls were
-- answered: once no handler is waiting, there is no such mark.
pub deleting_ends :
    (confirm : Text → Bool) (w : World DatasetsPage)
    (m : Machine Call Answer Failure (World DatasetsPage) (Unit {0}))
    → w.page.deleting ≡ []
    → Reach (Starts confirm) (record { state = w; waiting = [] }) m
    → m.waiting ≡ []
    → m.state.page.deleting ≡ []
deleting_ends confirm w m q r e =
    Reach-rests IsIdle (Starts confirm) (starts_well confirm) w m q r e
