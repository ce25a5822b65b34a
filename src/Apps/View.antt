-- ===== src/Apps/View.antt =====
-- internal/server/web/src/pages/Apps.tsx: what the page of apps renders.
use oort.Prelude.{ℕ, zero, suc, Bool, not, Option, none, some, [], ◌∷◌, ◌++◌}
use oort.Text.{Text, lit, text_eq}
use oort.Json.{show}
use oort.Api.{Dashboard, AppInfo, Deployment}
use oort.Api.Call.{Handler}
use oort.World.{World}
use oort.App.{nonempty, get_or}
use oort.Format.{short_id, dash}
use oort.Overview.{is_deployed}
use oort.View.{attr, disabled, on_click, Html, nothing, ◌<>◌, words, el, unless_empty}
use oort.View.Parts.{
  Printer, relative_time, bytes_text, box, say, icon, status, page_head, empty, table, command,
}
use oort.Apps.{
  AppsPage, open_app, roll_back, remove, ReleaseAction, current_label, roll_back_button, no_action,
  release_action,
}

-- `app.current_version ? …`
abbrev version_text : Option ℕ → Text
version_text none = dash
version_text (some zero) = dash
version_text (some (suc n)) = lit "v" ++ show (suc n)

module _ (pr : Printer) (d : Dashboard) (p : AppsPage) (confirm : Text → Bool)
    (allowed : Bool) where
  unfoldable pub app_row : AppInfo → Html (Handler (World AppsPage))
  app_row a = box "tr" (
      box "td" (words a.slug <> say " " <> box "code" (words (short_id (some a.id))))
      <> box "td" (status (some (get_or (lit "queued") (nonempty a.current_status))))
      <> box "td" (words (version_text a.current_version))
      <> box "td" (words (relative_time pr a.updated_at))
      <> box "td" (
          box "span" (
            el "button"
              (on_click (open_app allowed d.tenant.slug a.slug)
                ∷ disabled (not (is_deployed a))
                ∷ [])
              (icon <> say " Open")
            <> el "button"
                (disabled (text_eq p.deleting a.slug)
                  ∷ on_click (remove d confirm a.slug)
                  ∷ attr "aria-label" (lit "Delete " ++ a.slug)
                  ∷ [])
                icon)))

  abbrev when_text : Deployment → Text
  when_text x = elim (nonempty x.published_at) [
    | none ↦ lit "created " ++ relative_time pr x.created_at
    | some t ↦ lit "published " ++ relative_time pr t
  ]

  -- the last column of a release
  unfoldable pub release_cell : Deployment → ReleaseAction → Html (Handler (World AppsPage))
  release_cell x current_label = box "span" (say "current")
  release_cell x (roll_back_button off) =
      el "button" (on_click (roll_back d confirm x.id x.app_slug x.version) ∷ disabled off ∷ [])
        (icon <> say " Roll back")
  release_cell x no_action = nothing

  unfoldable pub release_row : Deployment → Html (Handler (World AppsPage))
  release_row x = box "tr" (
      box "td" (
        words (x.app_slug ++ (lit " v" ++ (show x.version ++ lit " ")))
        <> box "code" (words (short_id (some x.id))))
      <> box "td" (status (some x.status))
      <> box "td" (words (bytes_text pr (some x.byte_count)))
      <> box "td" (words (when_text x))
      <> box "td" (release_cell x (release_action d.apps p.rolling_back x)))

  abbrev pub releases : Html (Handler (World AppsPage))
  releases = box "section" (
      box "div" (box "h2" (say "Release history") <> box "span" (say "Immutable by design"))
      <> table ("Release" ∷ "Status" ∷ "Size" ∷ "When" ∷ "Actions" ∷ []) release_row d.deployments)

  abbrev pub deploy_text : Text
  deploy_text = lit "oort app deploy --tenant " ++ d.tenant.slug

  unfoldable pub apps_view : Html (Handler (World AppsPage))
  apps_view =
      page_head "Apps" (some (command deploy_text))
      <> unless_empty d.apps
          (table ("App" ∷ "Status" ∷ "Release" ∷ "Updated" ∷ "Actions" ∷ []) app_row d.apps)
          (empty "No apps yet" (
            box "p" (
              say
                "Deploy from a project containing oort.json. The CLI validates the bundle and prints the exact rollback command.")))
      <> unless_empty d.deployments releases nothing
