-- ===== src/Connect/View.antt =====
-- What the two forms in front of the workspace render: internal/server/web/src/pages/Connect.tsx, and
-- `CreateTenant` of App.tsx.
use oort.Prelude.{some, [], ◌∷◌, if◌then◌else◌}
use oort.Text.{lit}
use oort.Api.Call.{Handler}
use oort.World.{World}
use oort.App.{nonempty}
use oort.View.{attr, disabled, submits, on_submit, Html, nothing, ◌<>◌, words, el, given}
use oort.View.Parts.{box, say, icon, logo, problem, command}
use oort.Connect.{ConnectForm, CreateForm, submit_token, submit_tenant}

unfoldable pub connect_view : ConnectForm → Html (Handler (World ConnectForm))
connect_view p = box "main" (
    box "section" (
      logo (lit "24")
      <> box "h1" (say "Connect to your workspace")
      <> box "p" (
          say
            "A scoped token becomes an HttpOnly browser session; it is never stored in page JavaScript.")
      <> given (nonempty (some p.problem)) problem
      <> el "a" (attr "href" (lit "/auth/login") ∷ [])
          (say "Sign in with your identity provider " <> icon)
      <> box "div" (box "span" (say "or use an API token"))
      <> el "form" (on_submit (λ v. submit_token (v.field (lit "token"))) ∷ []) (
          box "label" (
            say "API token"
            <> el "input"
                (attr "name" (lit "token")
                  ∷ attr "type" (lit "password")
                  ∷ attr "required" []
                  ∷ attr "autoComplete" (lit "off")
                  ∷ [])
                nothing)
          <> box "div" (box "span" (say "Local token") <> command (lit "oort auth token"))
          <> el "button" (submits ∷ disabled p.busy ∷ [])
              (words (if p.busy then lit "Connecting…" else lit "Connect") <> say " " <> icon))))

unfoldable pub create_view : CreateForm → Html (Handler (World CreateForm))
create_view p = box "main" (
    box "section" (
      logo (lit "24")
      <> box "h1" (say "Create a tenant")
      <> box "p"
          (say "A tenant is the secure boundary around datasets, queries, apps, and members.")
      <> el "form" (on_submit (λ v. submit_tenant (v.field (lit "slug"))) ∷ []) (
          box "label" (
            say "Tenant slug"
            <> el "input"
                (attr "name" (lit "slug")
                  ∷ attr "required" []
                  ∷ attr "minLength" (lit "3")
                  ∷ attr "maxLength" (lit "63")
                  ∷ attr "pattern" (lit "[a-z0-9][a-z0-9-]{1,61}[a-z0-9]")
                  ∷ attr "placeholder" (lit "acme-labs")
                  ∷ attr "autoComplete" (lit "off")
                  ∷ [])
                nothing)
          <> box "p" (say "Lowercase letters, numbers, and hyphens. It appears in your app URLs.")
          <> el "button" (submits ∷ disabled p.busy ∷ [])
              (words (if p.busy then lit "Creating…" else lit "Create workspace")))))
