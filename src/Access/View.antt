-- ===== src/Access/View.antt =====
-- internal/server/web/src/pages/Access.tsx: what the page of access settings renders.
use oort.Prelude.{Bool, Option, none, some, List, [], ◌∷◌, ◌++◌, if◌then◌else◌, length, find}
use oort.Text.{Text, lit, text_eq}
use oort.Json.{show}
use oort.Api.{
  Tenant, Member, Role, owner, admin, developer, viewer, Invitation, InvitationStatus, pending,
  expired, ApiToken,
}
use oort.Api.Call.{Handler, write_clipboard}
use oort.Api.Request.Routes.{role_text}
use oort.Prog.{ret, ◌>>◌, call}
use oort.Toast.{fine}
use oort.World.{World, toast, on_some}
use oort.App.{nonempty, get_or}
use oort.Format.{short_id}
use oort.View.{
  attr, submits, on_click, on_change, on_submit, Submission, Html, nothing, ◌<>◌, words, el, each,
  given, given_or, unless_empty, when,
}
use oort.View.Parts.{Printer, relative_time, box, say, icon, line_break, page_head, empty, table}
use oort.Access.{
  AccessPage, can_manage, add, renew, revoke_invite, remove, revoke, change_role, make_token,
}

abbrev pub roles : List Role
roles = owner ∷ admin ∷ developer ∷ viewer ∷ []

-- The role of an option; the select element has no other value.
unfoldable pub role_of : Text → Option Role
role_of s = find (λ r. text_eq (role_text r) s) roles

abbrev status_word : InvitationStatus → Text
status_word pending = lit "pending"
status_word expired = lit "expired"

-- `list.join(', ')`
pub join_comma : List Text → Text
join_comma [] = []
join_comma (s ∷ []) = s
join_comma (s ∷ (t ∷ r)) = s ++ (lit ", " ++ join_comma (t ∷ r))

abbrev default_scopes : List Text
default_scopes =
    lit "datasets:read"
    ∷ lit "queries:read"
    ∷ lit "queries:run"
    ∷ lit "apps:read"
    ∷ lit "jobs:read"
    ∷ []

-- The click on a button that copies a secret: nothing waits for the clipboard, and its refusal is
-- not caught.
unfoldable pub copy_secret : Text → Text → Handler (World AccessPage)
copy_secret s title = toast title [] fine >> (call (write_clipboard s) >> ret tt)

abbrev role_options : Html (Handler (World AccessPage))
role_options = each (λ r. box "option" (words (role_text r))) roles

module _ (title : Text) (notice : Text) where
  -- the box that shows a link or a secret once
  abbrev pub secret_once : Text → Html (Handler (World AccessPage))
  secret_once s = el "div" (attr "role" (lit "status") ∷ []) (
      box "strong" (words title)
      <> box "code" (words s)
      <> el "button" (on_click (copy_secret s notice) ∷ []) (say "Copy"))

module _ (t : Tenant) where
  abbrev pub add_member_of : Submission → Handler (World AccessPage)
  add_member_of v = on_some (role_of (v.field (lit "role"))) (λ r. add t (v.field (lit "email")) r)

  abbrev pub member_form : Html (Handler (World AccessPage))
  member_form = el "form" (on_submit add_member_of ∷ []) (
      box "label" (
        say "Email"
        <> el "input"
            (attr "name" (lit "email") ∷ attr "type" (lit "email") ∷ attr "required" [] ∷ [])
            nothing)
      <> box "label" (
          say "Role"
          <> el "select" (attr "name" (lit "role") ∷ attr "defaultValue" (lit "developer") ∷ [])
              role_options)
      <> el "button" (submits ∷ []) (icon <> say " Add member"))

  abbrev pub token_of : Submission → Handler (World AccessPage)
  token_of v = make_token t (v.field (lit "name")) (v.field (lit "scopes")) (v.field (lit "days"))

  abbrev pub token_form : Html (Handler (World AccessPage))
  token_form = el "form" (on_submit token_of ∷ []) (
      box "label"
        (say "Name" <> el "input" (attr "name" (lit "name") ∷ attr "required" [] ∷ []) nothing)
      <> box "label" (
          say "Expires in days"
          <> el "input"
              (attr "name" (lit "days")
                ∷ attr "type" (lit "number")
                ∷ attr "min" (lit "1")
                ∷ attr "max" (lit "365")
                ∷ attr "defaultValue" (lit "30")
                ∷ attr "required" []
                ∷ [])
              nothing)
      <> box "label" (
          say "Scopes, comma separated"
          <> el "input"
              (attr "name" (lit "scopes")
                ∷ attr "defaultValue" (join_comma default_scopes)
                ∷ attr "required" []
                ∷ [])
              nothing)
      <> el "button" (submits ∷ []) (icon <> say " Create token"))

module _ (pr : Printer) (t : Tenant) (confirm : Text → Bool) where
  unfoldable pub invitation_row : Invitation → Html (Handler (World AccessPage))
  invitation_row i = box "tr" (
      box "td"
        (box "span" (words i.email) <> line_break <> box "span" (words (short_id (some i.id))))
      <> box "td" (words (role_text i.role))
      <> box "td" (words (status_word i.status))
      <> el "td" (attr "title" (pr.date i.expires_at) ∷ []) (words (relative_time pr i.expires_at))
      <> box "td" (
          el "button" (on_click (renew t i) ∷ []) (icon <> say " Renew link")
          <> say " "
          <> el "button"
              (on_click (revoke_invite t confirm i)
                ∷ attr "aria-label" (lit "Revoke invitation for " ++ i.email)
                ∷ [])
              icon))

  abbrev pub role_select : Member → Html (Handler (World AccessPage))
  role_select m =
      el "select"
        (attr "aria-label" (lit "Role for " ++ m.email)
          ∷ attr "value" (role_text m.role)
          ∷ on_change (λ s. on_some (role_of s) (change_role t m))
          ∷ [])
        role_options

  abbrev pub remove_button : Member → Html (Handler (World AccessPage))
  remove_button m =
      el "button"
        (on_click (remove t confirm m) ∷ attr "aria-label" (lit "Remove " ++ m.email) ∷ []) icon

  unfoldable pub member_row : Member → Html (Handler (World AccessPage))
  member_row m = box "tr" (
      box "td" (
        box "span" (words (get_or m.email (nonempty m.display_name)))
        <> line_break
        <> box "span" (words (m.email ++ (lit " · " ++ short_id (some m.user_id)))))
      <> box "td" (if can_manage t then role_select m else words (role_text m.role))
      <> el "td" (attr "title" (pr.date m.created_at) ∷ []) (words (relative_time pr m.created_at))
      <> box "td" (when (can_manage t) (remove_button m)))

  abbrev pub revoke_button : ApiToken → Html (Handler (World AccessPage))
  revoke_button k = el "button" (on_click (revoke t confirm k) ∷ []) (say "Revoke")

  abbrev pub revoked_label : Text → Html (Handler (World AccessPage))
  revoked_label s = box "span" (say "revoked")

  abbrev last_used : Option Text → Text
  last_used none = lit "never"
  last_used (some s) = relative_time pr s

  unfoldable pub token_row : ApiToken → Html (Handler (World AccessPage))
  token_row k = box "tr" (
      box "td" (box "span" (words k.name) <> say " " <> box "code" (words (short_id (some k.id))))
      <> box "td" (words (join_comma k.scopes))
      <> el "td" (attr "title" (pr.date k.expires_at) ∷ []) (words (relative_time pr k.expires_at))
      <> box "td" (words (last_used (nonempty k.last_used_at)))
      <> box "td" (given_or (nonempty k.revoked_at) (revoke_button k) revoked_label))

module _ (pr : Printer) (t : Tenant) (confirm : Text → Bool) (p : AccessPage) where
  unfoldable pub invitations_section : Html (Handler (World AccessPage))
  invitations_section = box "section" (
      box "div"
        (box "h2" (say "Pending invitations") <> box "span" (say "Links expire after 7 days"))
      <> unless_empty p.invitations
          (table ("Email" ∷ "Role" ∷ "Status" ∷ "Expires" ∷ "Actions" ∷ [])
            (invitation_row pr t confirm) p.invitations)
          (box "p" (say "No pending or expired invitations.")))

  unfoldable pub members_section : Html (Handler (World AccessPage))
  members_section = box "section" (
      box "div"
        (box "h2" (say "Members") <> box "span" (words (show (length p.members) ++ lit " total")))
      <> unless_empty p.members
          (table ("Member" ∷ "Role" ∷ "Joined" ∷ "Actions" ∷ []) (member_row pr t confirm)
            p.members)
          (empty "No members" (box "p" (say "Every tenant must retain at least one owner."))))

  unfoldable pub tokens_section : Html (Handler (World AccessPage))
  tokens_section = box "section" (
      box "div" (box "h2" (say "API tokens") <> box "span" (say "Only your tokens are shown"))
      <> token_form t
      <> given (nonempty (some p.secret))
          (secret_once (lit "Copy this secret now") (lit "Token copied"))
      <> unless_empty p.tokens
          (table ("Token" ∷ "Scopes" ∷ "Expires" ∷ "Last used" ∷ "Actions" ∷ [])
            (token_row pr t confirm) p.tokens)
          nothing)

  unfoldable pub access_view : Html (Handler (World AccessPage))
  access_view =
      page_head "Access" none
      <> when (can_manage t) (member_form t)
      <> given (nonempty (some p.invitation_link))
          (secret_once (lit "Copy this invitation link") (lit "Invitation link copied"))
      <> when (can_manage t) invitations_section
      <> members_section
      <> tokens_section
