-- ===== src/Access.antt =====
-- internal/server/web/src/pages/Access.tsx: members, invitations and API tokens of a tenant.
pub mod Laws
pub mod View
pub mod Controls
use oort.Prelude.{
  ℕ, zero, suc, ◌+◌, ◌-◌, ◌*◌, ◌/◌, ◌%◌, ◌^◌, ◌≤◌, ◌<◌, ◌≡◌, refl, sym, ap, ◌∙◌, ◌≢◌, ◌↔◌, ◌⊎◌, inl,
  inr, Bool, true, false, not, ◌&&◌, ◌||◌, Option, none, some, List, [], ◌∷◌, ◌++◌, map,
  append_assoc, append-nil, arith, ltb, leb, ◌==◌, if◌then◌else◌, ==_iff, ltb→lt, Bool-cases,
  Option-cases, length, take, head?, find, filter, any, all, length-append, length-take, All,
  All-append,
}
use oort.Text.{Text, lit, text_eq}
use oort.Text.Walk.{trim, split}
use oort.Json.{to_number}
use oort.Api.{
  Tenant, Member, Role, Invitation, ApiToken, AddMemberOutcome, member_added, invitation_created,
  message_of,
}
use oort.Api.Call.{
  Handler, list_members, list_tokens, list_invitations, all_of, both_of, add_member,
  renew_invitation, revoke_invitation, change_member_role, remove_member, create_token,
  revoke_token,
}
use oort.Prog.{◌>>=◌, ◌>>◌, call, try_catch}
use oort.Toast.{fine, error}
use oort.World.{World, toast, set_page, confirmed}

pub record AccessPage : Type 0 where
  pub members : List Member
  pub invitations : List Invitation
  pub tokens : List ApiToken
  pub secret : Text
  pub invitation_link : Text

-- `canManage`
unfoldable pub can_manage : Tenant → Bool
can_manage t = text_eq t.role (lit "owner") || text_eq t.role (lit "admin")

-- `String(values.get('scopes')).split(',').map(trim).filter(Boolean)`
abbrev is_nonempty : Text → Bool
is_nonempty [] = false
is_nonempty (_ ∷ _) = true

unfoldable pub scopes_of : Text → List Text
scopes_of s = filter is_nonempty (map trim (split 44 s))

abbrev set_lists : List Member → List ApiToken → List Invitation → Handler (World AccessPage)
set_lists ms ts is = set_page (λ p. record p { members = ms; tokens = ts; invitations = is })

-- the function `load`
unfoldable pub load : Tenant → Handler (World AccessPage)
load t =
    try_catch
      (if can_manage t
        then (do
          (members, tokens, invitations) ←
              call (all_of (list_members t.slug) (list_tokens t.slug) (list_invitations t.slug))
          set_lists members tokens invitations)
        else (do
          (members, tokens) ← call (both_of (list_members t.slug) (list_tokens t.slug))
          set_lists members tokens []))
      (λ e. toast (lit "Access settings could not load") (message_of e) error)

module _ (t : Tenant) where
  abbrev joined : AddMemberOutcome → Handler (World AccessPage)
  joined (member_added _) =
      set_page (λ p. record p { invitation_link = [] }) >> toast (lit "Member added") [] fine
  joined (invitation_created _ accept_url) =
      set_page (λ p. record p { invitation_link = accept_url })
      >> toast (lit "Invitation created") (lit "Copy the link and send it to the invited member.")
          fine

  -- the function `add`
  unfoldable pub add : Text → Role → Handler (World AccessPage)
  unfolding load
  add email role =
      try_catch (do result ← call (add_member t.slug email role); joined result; load t)
        (λ e. toast (lit "Member could not be added") (message_of e) error)

  -- `renewInvitation`
  unfoldable pub renew : Invitation → Handler (World AccessPage)
  unfolding load
  renew invitation =
      try_catch
        (do
          result ← call (renew_invitation t.slug invitation.id)
          set_page (λ p. record p { invitation_link = result.accept_url })
          load t
          toast (lit "Invitation renewed") (lit "The previous link no longer works.") fine)
        (λ e. toast (lit "Invitation could not be renewed") (message_of e) error)

  module _ (confirm : Text → Bool) where
    -- `revokeInvitation`
    unfoldable pub revoke_invite : Invitation → Handler (World AccessPage)
    unfolding load
    revoke_invite invitation =
        confirmed (confirm (lit "Revoke the invitation for " ++ (invitation.email ++ lit "?"))) (
          try_catch
            (do
              _ ← call (revoke_invitation t.slug invitation.id)
              set_page (λ p. record p { invitation_link = [] })
              load t
              toast (lit "Invitation revoked") [] fine)
            (λ e. toast (lit "Invitation could not be revoked") (message_of e) error))

    -- the function `remove`
    unfoldable pub remove : Member → Handler (World AccessPage)
    unfolding load
    remove member =
        confirmed
          (confirm (lit "Remove " ++ (member.email ++ (lit " from " ++ (t.slug ++ lit "?")))))
          (try_catch (do _ ← call (remove_member t.slug member.user_id); load t)
            (λ e. toast (lit "Member could not be removed") (message_of e) error))

    -- the function `revoke`
    unfoldable pub revoke : ApiToken → Handler (World AccessPage)
    unfolding load
    revoke token = confirmed (confirm (lit "Revoke token " ++ (token.name ++ lit "?"))) (
        try_catch (do _ ← call (revoke_token t.slug token.id); load t)
          (λ e. toast (lit "Token could not be revoked") (message_of e) error))

  -- `changeRole`
  unfoldable pub change_role : Member → Role → Handler (World AccessPage)
  unfolding load
  change_role member role =
      try_catch (do _ ← call (change_member_role t.slug member.user_id role); load t)
        (λ e. toast (lit "Role could not be changed") (message_of e) error)

  -- `createToken`, from the form's name, scopes and days
  unfoldable pub make_token : Text → Text → Text → Handler (World AccessPage)
  unfolding load
  make_token name scopes days =
      try_catch
        (do
          (_, secret) ← call (create_token t.slug name (scopes_of scopes) (to_number days))
          set_page (λ p. record p { secret = secret })
          load t
          toast (lit "Token created") (lit "Copy the secret now.") fine)
        (λ e. toast (lit "Token could not be created") (message_of e) error)
