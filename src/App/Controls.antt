-- ===== src/App/Controls.antt =====
-- What the controls of the frame start.
use oort.View.Laws.{logo-Allowed, toasts-Allowed}
use oort.View.Parts.{icon, box, say}
use oort.Prelude.{◌≡◌, Bool, true, false, some, List, [], ◌∷◌, if◌then◌else◌}
use oort.Text.{Text, lit}
use oort.Toast.{Store}
use oort.Api.{User, Tenant, Dashboard}
use oort.Api.Call.{Handler}
use oort.World.{World}
use oort.App.{load_workspace, log_out}
use oort.App.Routing.{PageKey, page_link, pages}
use oort.View.{Html, Turn, el, Action, attr, fire, ◌<>◌}
use oort.View.Allows.{Allowed, AllowsAnd, fire-Allowed, allow, Allowed-each}
use oort.App.View.{nav_link, frame_view, tenant_option, page_label, is_current}

module _ {P : Type 0} (C : Handler (World P) → Type 0) (page : PageKey) (user : User)
    (d : Dashboard) (tenants : List Tenant) where
  nav_link-Allowed : (k : PageKey) → Allowed C (nav_link page user d tenants k)
  unfolding nav_link
  nav_link-Allowed k = record { holds = links (is_current page k) }
    where
      links :
          (b : Bool)
          → AllowsAnd C
              (el "a"
                (attr "href" (page_link k)
                  ∷ attr "title" (lit (page_label k))
                  ∷ attr "class" (if b then lit "active" else [])
                  ∷ (if b then attr "aria-current" (lit "page") ∷ [] else []))
                (icon <> box "span" (say (page_label k))))
              Unit
      links true = tt
      links false = tt

  tenant_option-Allowed : (t : Tenant) → Allowed C (tenant_option page user d tenants t)
  unfolding tenant_option
  tenant_option-Allowed t = record { holds = tt }

  frame-Allowed :
      (content : Html (Handler (World P))) (s : Store)
      → Allowed C content
      → C log_out
      → ((slug : Text) → C (load_workspace (some slug)))
      → Allowed C (frame_view page user d tenants content s)
  unfolding frame_view
  frame-Allowed content s offered leaves loads = record {
    holds = allow (logo-Allowed C (lit "18")) (
        allow (Allowed-each C pages (λ k _. nav_link-Allowed k)) (
          (λ slug _. loads slug),
          allow (Allowed-each C tenants (λ t _. tenant_option-Allowed t))
              ((λ _. leaves), allow offered (allow (toasts-Allowed C s) tt)),
        ));
  }

  -- Whatever the user does with the frame around a page: if a property holds of the handlers that
  -- the page itself offers, of logging out, and of every load of the workspace for a tenant, it
  -- holds of the handler that is started.
  frame_fire :
      (content : Html (Handler (World P))) (s : Store) (way : List Turn) (act : Action)
      (h : Handler (World P))
      → Allowed C content
      → C log_out
      → ((slug : Text) → C (load_workspace (some slug)))
      → fire (frame_view page user d tenants content s) way act ≡ some h
      → C h
  frame_fire content s way act h offered leaves loads e =
      fire-Allowed C _ way act h (frame-Allowed content s offered leaves loads) e
