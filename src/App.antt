-- ===== src/App.antt =====
-- internal/server/web/src/App.tsx: the session, the workspace that is loaded, and the screen that
-- follows from them.
pub mod Reload
pub mod Routing
pub mod Laws
pub mod Loading
pub mod Race
pub mod Session
pub mod Frames
pub mod View
pub mod Controls
pub mod Aside
use oort.Prelude.{
  ℕ, zero, suc, ◌+◌, ◌-◌, ◌*◌, ◌/◌, ◌%◌, ◌^◌, ◌≤◌, ◌<◌, ◌≡◌, refl, sym, ap, ◌∙◌, ◌≢◌, ◌↔◌, ◌⊎◌, inl,
  inr, Bool, true, false, not, ◌&&◌, ◌||◌, Option, none, some, List, [], ◌∷◌, ◌++◌, map,
  append_assoc, append-nil, arith, ltb, leb, ◌==◌, if◌then◌else◌, ==_iff, ltb→lt, Bool-cases,
  Option-cases, length, take, head?, find, filter, any, all, length-append, length-take, All,
  All-append,
}
use oort.Text.{Text, lit, text_eq}
use oort.Text.Walk.{trim}
use oort.Api.{User, Tenant, Dashboard, Failure, api_error, other_error, message_of}
use oort.Api.Call.{Call, me, logout, list_tenants, create_tenant, get_dashboard, Async, Handler}
use oort.Prog.{Prog, ret, throw, read, ◌>>=◌, ◌>>◌, update, call, try_catch, finally}
use oort.Toast.{Kind, fine, error}
use oort.World.{AppState, World, toast, set_page, set_app}

-- `error instanceof ApiError && error.status === 401`
abbrev pub is_unauthorized : Failure → Bool
is_unauthorized (api_error e) = e.status == 401
is_unauthorized (other_error m) = false

-- `s || …` on an optional string: the empty string is skipped as well
abbrev pub nonempty : Option Text → Option Text
nonempty none = none
nonempty (some []) = none
nonempty (some (c ∷ s)) = some (c ∷ s)

abbrev pub or_else {ℓ} : {A : Type ℓ} → Option A → Option A → Option A
or_else none o = o
or_else (some a) o = some a

abbrev pub get_or {ℓ} : {A : Type ℓ} → A → Option A → A
get_or d none = d
get_or d (some a) = a

abbrev pub same_slug : Option Text → Tenant → Bool
same_slug none t = false
same_slug (some s) t = text_eq t.slug s

-- The tenant to open, of a list with the head `first`.
unfoldable pub choose : Option Text → Option Text → Tenant → List Tenant → Tenant
choose preferred remembered first rest =
    let wanted = or_else (nonempty preferred) remembered in
    get_or first (find (same_slug wanted) (first ∷ rest))

module _ {P : Type 0} where
  unfoldable pub open_workspace : Option Text → List Tenant → Handler (World P)
  open_workspace preferred [] = set_app (λ a. record a { dashboard = none })
  open_workspace preferred (first ∷ rest) = read λ w.
      let tenant = choose preferred w.app.remembered first rest in
      set_app (λ a. record a { remembered = some tenant.slug })
      >> (do d ← call (get_dashboard tenant.slug); set_app (λ a. record a { dashboard = some d }))

  unfoldable pub load_failed : Failure → Handler (World P)
  load_failed e =
      if is_unauthorized e
      then set_app (λ a. record a {
        user = none;
        notice = lit "Your session expired. Connect again to continue.";
      })
      else toast (lit "Workspace could not load") (message_of e) error

  -- the `try` block of `loadWorkspace`
  unfoldable pub fetch_workspace : Option Text → Handler (World P)
  unfolding open_workspace
  fetch_workspace preferred = do
    listed ← call list_tenants
    let tenants = get_or [] listed
    set_app (λ a. record a { tenants = tenants })
    open_workspace preferred tenants

  -- `loadWorkspace`
  unfoldable pub load_workspace : Option Text → Handler (World P)
  unfolding fetch_workspace load_failed
  load_workspace preferred = try_catch (fetch_workspace preferred) load_failed

  -- the effect at the first render
  unfoldable pub check_session : Handler (World P)
  check_session =
      finally
        (try_catch (do user ← call me; set_app (λ a. record a { user = some user }))
          (λ e.
            if is_unauthorized e
            then ret tt
            else set_app (λ a. record a { notice = message_of e })))
        (set_app (λ a. record a { checked = true }))

  -- the effect behind a change of `user`
  unfoldable pub user_changed : Handler (World P)
  unfolding load_workspace
  user_changed = read λ w. elim w.app.user [
    | none ↦ ret tt
    | some _ ↦
        let invited = nonempty w.app.invited in
        elim invited [
          | none ↦ load_workspace none
          | some t ↦ set_app (λ a. record a { invited = none }) >> load_workspace (some t)
        ]
  ]

  -- the button that logs out
  unfoldable pub log_out : Handler (World P)
  log_out =
      finally (call logout >> ret tt) (set_app (λ a. record a { user = none; dashboard = none }))

abbrev pub active_status : Text → Bool
active_status s =
    text_eq s (lit "awaiting_upload") || text_eq s (lit "queued") || text_eq s (lit "running")

unfoldable pub has_active_work : Dashboard → Bool
has_active_work d =
    any (λ s. active_status s.status) d.syncs || any (λ p. active_status p.status) d.deployments

-- the effect behind a change of `dashboard`: the tenant that the timer, if there is one, loads
unfoldable pub poll_target : Option Dashboard → Option Text
unfolding has_active_work
poll_target none = none
poll_target (some d) = if has_active_work d then some d.tenant.slug else none

pub data Screen : Type 0 where
  blank : Screen
  connect_form : Text → Screen
  create_form : Screen
  shell : User → Dashboard → Screen

-- what `App` renders
unfoldable pub screen : AppState → Screen
screen a = elim a.checked [
  | false ↦ blank
  | true ↦ elim a.user [
    | none ↦ connect_form a.notice
    | some u ↦ elim a.dashboard [
      | some d ↦ shell u d
      | none ↦ elim a.tenants [ [] ↦ create_form | _ ∷ _ ↦ blank ]
    ]
  ]
]
