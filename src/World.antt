-- ===== src/World.antt =====
-- What the handlers share: the state hooks of the component `App` in
-- internal/server/web/src/App.tsx with the browser's storage and address, the state of the page
-- that is shown, and the store of notices.
pub mod Quiet
pub mod Frames
use oort.Prelude.{true, false, none, some, Bool, List, Option}
use oort.Text.{Text}
use oort.Api.{User, Tenant, Dashboard}
use oort.Api.Call.{Handler}
use oort.Prog.{update, ret}
use oort.Toast.{Store, Kind, push}

pub record AppState : Type 0 where
  pub user : Option User
  pub checked : Bool
  pub notice : Text
  pub tenants : List Tenant
  pub dashboard : Option Dashboard
  -- the item `oort.tenant` of the local storage
  pub remembered : Option Text
  -- the search parameter `tenant` of the address
  pub invited : Option Text

pub record World (P : Type 0) : Type 0 where
  pub page : P
  pub app : AppState
  pub toasts : Store

module _ {P : Type 0} where
  -- `toast(title, detail, kind)`
  abbrev pub toast : Text → Text → Kind → Handler (World P)
  toast title detail kind = update (λ w. record w { toasts = push title detail kind w.toasts })

  -- setters of the page's state and of the state of `App`
  abbrev pub set_page : (P → P) → Handler (World P)
  set_page f = update (λ w. record w { page = f w.page })

  abbrev pub set_app : (AppState → AppState) → Handler (World P)
  set_app f = update (λ w. record w { app = f w.app })

  -- `if (!window.confirm(…)) return;` in front of `p`
  unfoldable pub confirmed : Bool → Handler (World P) → Handler (World P)
  confirmed true p = p
  confirmed false p = ret tt

  -- `if (!value) return;` in front of `k`
  unfoldable pub on_some : {A : Type 0} → Option A → (A → Handler (World P)) → Handler (World P)
  on_some none k = ret tt
  on_some (some a) k = k a
