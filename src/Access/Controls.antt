-- ===== src/Access/Controls.antt =====
-- What the controls of the page of access settings start, for those who manage access and for others.
use mathlib.Core.List.{Memᴰ}
use mathlib.Core.Option.{none-ne-some}
use oort.Prelude.{◌≡◌, Bool, true, Option, none, some, List}
use oort.Text.{Text}
use oort.Api.{Tenant, Member, Role, Invitation, ApiToken}
use oort.Api.Call.{Handler}
use oort.Prog.{ret}
use oort.World.{World, on_some}
use oort.App.{nonempty}
use oort.View.{each, Turn, Action, fire}
use oort.View.Allows.{
  Allowed, allow, Allowed-if, Allowed-given, Allowed-given_or, Allowed-when, Allowed-unless_empty,
  fire-Allowed,
}
use oort.View.Laws.{page_head-Allowed, empty-Allowed, table-Allowed}
use oort.View.Parts.{Printer}
use oort.Access.{
  AccessPage, can_manage, add, renew, revoke_invite, remove, revoke, change_role, make_token,
}
use oort.Access.View.{
  copy_secret, secret_once, member_form, token_form, invitation_row, role_select, remove_button,
  member_row, revoke_button, revoked_label, token_row, invitations_section, members_section,
  tokens_section, access_view,
}

-- The controls: what changes members and invitations is for those who manage access, tokens are for
-- everyone.
pub data IsControl (t : Tenant) (confirm : Text → Bool) (p : AccessPage)
    : Handler (World AccessPage) → Type 0 where
  -- a select element without a choice
  rests : IsControl t confirm p (ret tt)
  adds : (email : Text) (r : Role) → can_manage t ≡ true → IsControl t confirm p (add t email r)
  renews :
      (i : Invitation)
      → Memᴰ i p.invitations
      → can_manage t ≡ true
      → IsControl t confirm p (renew t i)
  revokes_invitation :
      (i : Invitation)
      → Memᴰ i p.invitations
      → can_manage t ≡ true
      → IsControl t confirm p (revoke_invite t confirm i)
  changes_role :
      (m : Member) (r : Role)
      → Memᴰ m p.members
      → can_manage t ≡ true
      → IsControl t confirm p (change_role t m r)
  removes :
      (m : Member)
      → Memᴰ m p.members
      → can_manage t ≡ true
      → IsControl t confirm p (remove t confirm m)
  creates : (name scopes days : Text) → IsControl t confirm p (make_token t name scopes days)
  revokes :
      (k : ApiToken)
      → Memᴰ k p.tokens
      → nonempty k.revoked_at ≡ none
      → IsControl t confirm p (revoke t confirm k)
  copies : (s title : Text) → IsControl t confirm p (copy_secret s title)

module _ (pr : Printer) (t : Tenant) (confirm : Text → Bool) (p : AccessPage) where
  abbrev Ok : Handler (World AccessPage) → Type 0
  Ok = IsControl t confirm p

  chosen :
      (o : Option Role) (f : Role → Handler (World AccessPage))
      → ((r : Role) → Ok (f r))
      → Ok (on_some o f)
  unfolding on_some
  chosen none f h = rests
  chosen (some r) f h = h r

  secret_once-Allowed : (title notice s : Text) → Allowed Ok (secret_once title notice s)
  secret_once-Allowed title notice s = record { holds = ((λ _. copies s notice), tt) }

  member_form-Allowed : can_manage t ≡ true → Allowed Ok (member_form t)
  unfolding each
  member_form-Allowed y = record { holds = ((λ v _. chosen _ _ (λ r. adds _ r y)), tt) }

  token_form-Allowed : Allowed Ok (token_form t)
  token_form-Allowed = record { holds = ((λ v _. creates _ _ _), tt) }

  invitation_row-Allowed :
      can_manage t ≡ true
      → (i : Invitation) → Memᴰ i p.invitations
      → Allowed Ok (invitation_row pr t confirm i)
  unfolding invitation_row
  invitation_row-Allowed y i m = record {
    holds = ((λ _. renews i m y), ((λ _. revokes_invitation i m y), tt));
  }

  role_select-Allowed :
      (m : Member)
      → Memᴰ m p.members
      → can_manage t ≡ true
      → Allowed Ok (role_select pr t confirm m)
  unfolding each
  role_select-Allowed m k y = record {
    holds = ((λ s _. chosen _ _ (λ r. changes_role m r k y)), tt);
  }

  remove_button-Allowed :
      (m : Member)
      → Memᴰ m p.members
      → can_manage t ≡ true
      → Allowed Ok (remove_button pr t confirm m)
  remove_button-Allowed m k y = record { holds = ((λ _. removes m k y), tt) }

  member_row-Allowed : (m : Member) → Memᴰ m p.members → Allowed Ok (member_row pr t confirm m)
  unfolding member_row
  member_row-Allowed m k = record {
    holds =
        allow (Allowed-if Ok (can_manage t) (role_select-Allowed m k) (λ _. record { holds = tt }))
          (allow (Allowed-when Ok (can_manage t) (remove_button-Allowed m k)) tt);
  }

  revoke_button-Allowed :
      (k : ApiToken)
      → Memᴰ k p.tokens
      → nonempty k.revoked_at ≡ none
      → Allowed Ok (revoke_button pr t confirm k)
  revoke_button-Allowed k m e = record { holds = ((λ _. revokes k m e), tt) }

  token_row-Allowed : (k : ApiToken) → Memᴰ k p.tokens → Allowed Ok (token_row pr t confirm k)
  unfolding token_row
  token_row-Allowed k m = record {
    holds =
        allow
          (Allowed-given_or Ok (nonempty k.revoked_at) {f = revoked_label pr t confirm}
            (revoke_button-Allowed k m) (λ s _. record { holds = tt }))
          tt;
  }

  invitations-Allowed : can_manage t ≡ true → Allowed Ok (invitations_section pr t confirm p)
  unfolding invitations_section
  invitations-Allowed y = record {
    holds =
        allow
          (Allowed-unless_empty Ok p.invitations
            (table-Allowed Ok _ p.invitations (invitation_row-Allowed y)) (record { holds = tt }))
          tt;
  }

  members-Allowed : Allowed Ok (members_section pr t confirm p)
  unfolding members_section
  members-Allowed = record {
    holds =
        allow
          (Allowed-unless_empty Ok p.members (table-Allowed Ok _ p.members member_row-Allowed)
            (empty-Allowed Ok "No members" (record { holds = tt })))
          tt;
  }

  tokens-Allowed : Allowed Ok (tokens_section pr t confirm p)
  unfolding tokens_section
  tokens-Allowed = record {
    holds = allow token_form-Allowed (
        allow (Allowed-given Ok (nonempty (some p.secret)) (λ s _. secret_once-Allowed _ _ s)) (
          allow
            (Allowed-unless_empty Ok p.tokens (table-Allowed Ok _ p.tokens token_row-Allowed)
              (record { holds = tt }))
            tt));
  }

  view-Allowed : Allowed Ok (access_view pr t confirm p)
  unfolding access_view
  view-Allowed = record {
    holds = allow (page_head-Allowed Ok "Access" none (λ h e. absurd (none-ne-some h e))) (
        allow (Allowed-when Ok (can_manage t) member_form-Allowed) (
          allow
            (Allowed-given Ok (nonempty (some p.invitation_link))
              (λ s _. secret_once-Allowed _ _ s))
            (allow (Allowed-when Ok (can_manage t) invitations-Allowed)
              (allow members-Allowed (allow tokens-Allowed tt)))));
  }

  -- Whatever the user does with the page of access settings: members, invitations and roles are
  -- changed only by an owner or an admin, and, but for the adding of a member, only for the members
  -- and invitations of the lists; otherwise what starts is the creation of a token, the revocation
  -- of a listed token that is not revoked, a copy to the clipboard, or nothing.
  pub access_fire :
      (way : List Turn) (act : Action) (h : Handler (World AccessPage))
      → fire (access_view pr t confirm p) way act ≡ some h
      → IsControl t confirm p h
  access_fire way act h e = fire-Allowed Ok _ way act h view-Allowed e
