-- ===== src/Datasets/Controls.antt =====
-- What the controls of the page of datasets start.
use mathlib.Core.List.{Memᴰ}
use mathlib.Core.Option.{none-ne-some}
use oort.Prelude.{◌≡◌, refl, Bool, true, false, not, ◌&&◌, Option, none, some, List, [], ◌∷◌}
use oort.Text.{Text, text_eq}
use oort.Api.{Dashboard, Dataset}
use oort.Api.Call.{Handler, FileInfo}
use oort.Prog.{ret}
use oort.World.{World, set_page, on_some}
use oort.View.{Turn, Action, fire}
use oort.View.Allows.{
  Allowed, allow, Allowed-if, Allowed-given_or, Allowed-unless_empty, fire-Allowed,
}
use oort.View.Laws.{status-Allowed, page_head-Allowed, empty-Allowed, table-Allowed}
use oort.View.Laws.{is_off, is_idle}
use oort.View.Parts.{Printer}
use oort.Overview.Controls.{syncs_table-Allowed}
use oort.Datasets.{DatasetsPage, with_replacing, with_form, pick_file, submit, remove}
use oort.Datasets.View.{
  is_set, choose_file, upload_form, leave_button, hint, upload_section, snapshot, dataset_row,
  history, datasets_view,
}

-- The controls: the name can be typed while nothing is replaced, the form is sent while no upload
-- runs, and a dataset of the list can be replaced, and deleted while its deletion does not run.
pub data IsControl (d : Dashboard) (p : DatasetsPage) (confirm : Text → Bool)
    : Handler (World DatasetsPage) → Type 0 where
  -- no file was chosen
  rests : IsControl d p confirm (ret tt)
  types_name :
      (s : Text)
      → p.replacing ≡ []
      → IsControl d p confirm (set_page (with_form p.form.instance_id (λ f. record f { slug = s })))
  picks :
      (x : FileInfo)
      → IsControl d p confirm (set_page (with_form p.form.instance_id (pick_file x.name)))
  sends :
      (file : Option FileInfo) (key : Text)
      → p.form.busy ≡ false
      → IsControl d p confirm (submit d p file key)
  leaves : is_set p.replacing ≡ true → IsControl d p confirm (set_page (with_replacing []))
  replaces :
      (x : Dataset) → Memᴰ x d.datasets → IsControl d p confirm (set_page (with_replacing x.slug))
  removes :
      (x : Dataset)
      → Memᴰ x d.datasets
      → text_eq p.deleting x.slug ≡ false
      → IsControl d p confirm (remove d p confirm x.slug)

unset : (s : Text) → (not (is_set s) && true) ≡ true → s ≡ []
unset [] e = refl
unset (c ∷ s) e = cc

module _ (pr : Printer) (d : Dashboard) (p : DatasetsPage) (confirm : Text → Bool) where
  abbrev Ok : Handler (World DatasetsPage) → Type 0
  Ok = IsControl d p confirm

  file-Ok : (o : Option FileInfo) → Ok (choose_file d p o)
  unfolding on_some
  file-Ok none = rests
  file-Ok (some x) = picks x

  upload_form-Allowed : Allowed Ok (upload_form d p)
  unfolding upload_form
  upload_form-Allowed = record {
    holds = (
      (λ v e. sends v.file v.uuid (is_idle _ e)),
      ((λ s e. types_name s (unset p.replacing e)), ((λ o _. file-Ok o), tt)),
    );
  }

  leave_button-Allowed : is_set p.replacing ≡ true → Allowed Ok (leave_button d p)
  leave_button-Allowed y = record { holds = ((λ _. leaves y), tt) }

  upload_section-Allowed : Allowed Ok (upload_section d p)
  upload_section-Allowed = record {
    holds =
        allow
          (Allowed-if Ok (is_set p.replacing) {y = hint d p} leave_button-Allowed
            (λ _. record { holds = tt }))
          (allow upload_form-Allowed tt);
  }

  dataset_row-Allowed :
      (x : Dataset) → Memᴰ x d.datasets → Allowed Ok (dataset_row pr d p confirm x)
  unfolding dataset_row
  dataset_row-Allowed x m = record {
    holds =
        allow
          (Allowed-given_or Ok x.current_snapshot_id {f = snapshot pr d p confirm}
            (λ _. status-Allowed Ok _) (λ n _. record { holds = tt }))
          ((λ _. replaces x m), ((λ e. removes x m (is_off _ e)), tt));
  }

  history-Allowed : Allowed Ok (history pr d p confirm)
  history-Allowed = record { holds = allow (syncs_table-Allowed Ok pr d none) tt }

  view-Allowed : Allowed Ok (datasets_view pr d p confirm)
  unfolding datasets_view
  view-Allowed = record {
    holds = allow (page_head-Allowed Ok "Datasets" none (λ h e. absurd (none-ne-some h e))) (
        allow upload_section-Allowed (
          allow
            (Allowed-unless_empty Ok d.datasets (table-Allowed Ok _ d.datasets dataset_row-Allowed)
              (empty-Allowed Ok "No datasets yet" (record { holds = tt })))
            (allow (Allowed-unless_empty Ok d.syncs history-Allowed (record { holds = tt })) tt)));
  }

  -- Whatever the user does with the page of datasets: it types a name only while no dataset is
  -- replaced, picks a file, sends the form only while the form is not busy, leaves a replacement,
  -- replaces a dataset of the list, or deletes a dataset of the list that the mark of a deletion
  -- does not name.
  pub datasets_fire :
      (way : List Turn) (act : Action) (h : Handler (World DatasetsPage))
      → fire (datasets_view pr d p confirm) way act ≡ some h
      → IsControl d p confirm h
  datasets_fire way act h e = fire-Allowed Ok _ way act h view-Allowed e
