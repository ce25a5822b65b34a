-- ===== src/Apps/Controls.antt =====
-- What the controls of the page of apps start.
use mathlib.Core.List.{Memᴰ}
use mathlib.Core.Option.{some-injective}
use mathlib.Core.Path.{subst}
use oort.Prelude.{
  ◌≡◌, refl, inl, inr, Bool, true, false, not, ◌&&◌, some, List, ◌++◌, Bool-cases, any,
}
use oort.Text.{Text, lit, text_eq}
use oort.Api.{Dashboard, AppInfo, Deployment}
use oort.Api.Call.{Handler}
use oort.World.{World}
use oort.Overview.{is_deployed}
use oort.View.{Html, Turn, Action, fire}
use oort.View.Allows.{Allowed, allow, Allowed-unless_empty, fire-Allowed}
use oort.View.Laws.{
  status-Allowed, page_head-Allowed, empty-Allowed, table-Allowed, command-Allowed, is_off,
}
use oort.View.Parts.{Printer, command, copy}
use oort.Apps.{AppsPage, open_app, roll_back, remove, release_action, serves}
use oort.Apps.View.{app_row, release_cell, release_row, releases, deploy_text, apps_view}

-- The controls: copying the command that deploys, opening an app that has a release, deleting an app,
-- and rolling back to a release that succeeded and that no app serves.
pub data IsControl (d : Dashboard) (p : AppsPage) (confirm : Text → Bool) (allowed : Bool)
    : Handler (World AppsPage) → Type 0 where
  copies : IsControl d p confirm allowed (copy (lit "oort app deploy --tenant " ++ d.tenant.slug))
  opens :
      (a : AppInfo)
      → Memᴰ a d.apps
      → is_deployed a ≡ true
      → IsControl d p confirm allowed (open_app allowed d.tenant.slug a.slug)
  removes :
      (a : AppInfo)
      → Memᴰ a d.apps
      → text_eq p.deleting a.slug ≡ false
      → IsControl d p confirm allowed (remove d confirm a.slug)
  rolls_back :
      (x : Deployment)
      → Memᴰ x d.deployments
      → any (serves x.id) d.apps ≡ false
      → text_eq x.status (lit "succeeded") ≡ true
      → text_eq p.rolling_back x.id ≡ false
      → IsControl d p confirm allowed (roll_back d confirm x.id x.app_slug x.version)

is_on : (b : Bool) → (not (not b) && true) ≡ true → b ≡ true
is_on true e = refl
is_on false e = e

module _ (pr : Printer) (d : Dashboard) (p : AppsPage) (confirm : Text → Bool)
    (allowed : Bool) where
  abbrev Ok : Handler (World AppsPage) → Type 0
  Ok = IsControl d p confirm allowed

  app_row-Allowed : (a : AppInfo) → Memᴰ a d.apps → Allowed Ok (app_row pr d p confirm allowed a)
  unfolding app_row
  app_row-Allowed a m = record {
    holds =
        allow (status-Allowed Ok _)
          ((λ e. opens a m (is_on _ e)), ((λ e. removes a m (is_off _ e)), tt));
  }

  cell-Allowed :
      (x : Deployment)
      → Memᴰ x d.deployments
      → Allowed Ok (release_cell pr d p confirm allowed x (release_action d.apps p.rolling_back x))
  unfolding release_action release_cell
  cell-Allowed x m = elim (Bool-cases (any (serves x.id) d.apps)) [
    | inl y ↦ rw y (record { holds = tt })
    | inr n ↦ elim (Bool-cases (text_eq x.status (lit "succeeded"))) [
      | inl y ↦ rw (n, y) (record { holds = ((λ e. rolls_back x m n y (is_off _ e)), tt) })
      | inr f ↦ rw (n, f) (record { holds = tt })
    ]
  ]

  release_row-Allowed :
      (x : Deployment) → Memᴰ x d.deployments → Allowed Ok (release_row pr d p confirm allowed x)
  unfolding release_row
  release_row-Allowed x m = record {
    holds = allow (status-Allowed Ok (some x.status)) (allow (cell-Allowed x m) tt);
  }

  releases-Allowed : Allowed Ok (releases pr d p confirm allowed)
  releases-Allowed = record {
    holds = allow (table-Allowed Ok _ d.deployments release_row-Allowed) tt;
  }

  command-Ok :
      (h : Html (Handler (World AppsPage)))
      → some (command (deploy_text pr d p confirm allowed)) ≡ some h
      → Allowed Ok h
  command-Ok h e = subst (Allowed Ok) (some-injective _ _ e) (command-Allowed Ok _ copies)

  view-Allowed : Allowed Ok (apps_view pr d p confirm allowed)
  unfolding apps_view
  view-Allowed = record {
    holds = allow (page_head-Allowed Ok "Apps" (some (command _)) command-Ok) (
        allow
          (Allowed-unless_empty Ok d.apps (table-Allowed Ok _ d.apps app_row-Allowed)
            (empty-Allowed Ok "No apps yet" (record { holds = tt })))
          (allow (Allowed-unless_empty Ok d.deployments releases-Allowed (record { holds = tt }))
            tt));
  }

  -- Whatever the user does with the page of apps: it opens only an app of the list that has a
  -- release, deletes only an app of the list that the mark of a deletion does not name, rolls back
  -- only to a release of the list that succeeded, that no app serves and that the mark of a
  -- rollback does not name, and copies only the command that deploys.
  pub apps_fire :
      (way : List Turn) (act : Action) (h : Handler (World AppsPage))
      → fire (apps_view pr d p confirm allowed) way act ≡ some h
      → IsControl d p confirm allowed h
  apps_fire way act h e = fire-Allowed Ok _ way act h view-Allowed e
