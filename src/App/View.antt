-- ===== src/App/View.antt =====
-- internal/server/web/src/App.tsx: the frame that `App` renders around a page.
use Prim.Native.String.{String}
use oort.Prelude.{Bool, some, List, [], ◌∷◌, ◌++◌, if◌then◌else◌}
use oort.Text.{Text, lit, text_eq}
use oort.Text.Walk.{split}
use oort.Toast.{Store}
use oort.Api.{User, Tenant, Dashboard}
use oort.Api.Call.{Handler}
use oort.World.{World}
use oort.App.{load_workspace, log_out}
use oort.App.Routing.{
  PageKey, overview, datasets, queries, connectors, apps, jobs, access, activity, pages, key_text,
  page_link,
}
use oort.View.{attr, on_click, on_change, Html, ◌<>◌, words, el, each}
use oort.View.Parts.{box, say, icon, logo, toasts}

-- the labels of the table `pages`
abbrev pub page_label : PageKey → String
page_label overview = "Overview"
page_label datasets = "Datasets"
page_label queries = "Queries"
page_label connectors = "Connectors"
page_label apps = "Apps"
page_label jobs = "Jobs"
page_label access = "Access"
page_label activity = "Activity"

-- `user.email.split('@')[0]`
abbrev first_of : List Text → Text
first_of [] = []
first_of (s ∷ r) = s

unfoldable pub user_name : User → Text
user_name u = first_of (split 64 u.email)

abbrev pub is_current : PageKey → PageKey → Bool
is_current page k = text_eq (key_text page) (key_text k)

module _ {P : Type 0} (page : PageKey) (user : User) (d : Dashboard) (tenants : List Tenant) where
  unfoldable pub nav_link : PageKey → Html (Handler (World P))
  nav_link k =
      el "a"
        (attr "href" (page_link k)
          ∷ attr "title" (lit (page_label k))
          ∷ attr "class" (if is_current page k then lit "active" else [])
          ∷ (if is_current page k then attr "aria-current" (lit "page") ∷ [] else []))
        (icon <> box "span" (say (page_label k)))

  unfoldable pub tenant_option : Tenant → Html (Handler (World P))
  tenant_option t = el "option" (attr "value" t.slug ∷ []) (words t.slug)

  abbrev pub tenant_select : Html (Handler (World P))
  tenant_select = el "label" (attr "title" (lit "Tenant: " ++ d.tenant.slug) ∷ []) (
      box "span" (say "Tenant")
      <> el "select"
          (attr "name" (lit "tenant")
            ∷ attr "value" d.tenant.slug
            ∷ on_change (λ s. load_workspace (some s))
            ∷ [])
          (each tenant_option tenants))

  abbrev pub session : Html (Handler (World P))
  session = box "div" (
      el "span" (attr "title" user.email ∷ []) (words (user_name user))
      <> el "button"
          (attr "aria-label" (lit "Log out") ∷ attr "title" (lit "Log out") ∷ on_click log_out ∷ [])
          icon)

  -- the frame with the page and the notices in it
  unfoldable pub frame_view : Html (Handler (World P)) → Store → Html (Handler (World P))
  frame_view content s = box "div" (
      box "aside" (
        el "a" (attr "href" (lit "#/overview") ∷ attr "title" (lit "Overview") ∷ [])
          (logo (lit "18") <> box "span" (say "oort"))
        <> el "nav" (attr "aria-label" (lit "Primary") ∷ []) (each nav_link pages)
        <> box "div" (tenant_select <> session))
      <> box "main" content
      <> toasts s)
