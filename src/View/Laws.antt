-- ===== src/View/Laws.antt =====
-- What the shared components of ui.tsx offer.
use oort.Prelude.{◌≡◌, refl, Bool, true, false, not, ◌&&◌, ◌||◌, Option, none, some, List, arith}
use Prim.Native.String.{String}
use oort.Text.{Text}
use oort.Api.Call.{Handler}
use oort.World.{World}
use oort.App.{nonempty}
use oort.Toast.{Store, Toast}
use oort.View.{Html, given, words}
use oort.View.Allows.{Allowed-given, Allowed, allow, Allowed-each}
use mathlib.Core.List.{Memᴰ}
use oort.View.Parts.{
  logo, toasts, toast_item, table, status, page_head, empty, copy, command, head_cells, box, say,
}

pub is_idle : (b : Bool) → ((not b && true) || false) ≡ true → b ≡ false
is_idle true e = ground (arith, e)
is_idle false e = refl

pub is_off : (b : Bool) → (not b && true) ≡ true → b ≡ false
is_off true e = ground (arith, e)
is_off false e = refl

module _ {E : Type 0} (P : E → Type 0) where
  pub status-Allowed : (value : Option Text) → Allowed P (status value)
  unfolding status
  status-Allowed value = record { holds = tt }

  pub logo-Allowed : (size : Text) → Allowed P (logo size)
  unfolding logo
  logo-Allowed size = record { holds = tt }

  toast_item-Allowed : (t : Toast) → Allowed P (toast_item t)
  unfolding toast_item
  toast_item-Allowed t = record {
    holds =
        allow
          (Allowed-given P (nonempty (some t.detail)) {f = λ s. box "span" (words s)}
            (λ s _. record { holds = tt }))
          tt;
  }

  pub toasts-Allowed : (s : Store) → Allowed P (toasts s)
  unfolding toasts
  toasts-Allowed s = record {
    holds = allow (Allowed-each P s.toasts (λ t _. toast_item-Allowed t)) tt;
  }

  pub page_head-Allowed :
      (title : String) (actions : Option (Html E))
      → ((h : Html E) → actions ≡ some h → Allowed P h)
      → Allowed P (page_head title actions)
  unfolding page_head given
  page_head-Allowed title none k = record { holds = tt }
  page_head-Allowed title (some h) k = record { holds = allow (k h refl) tt }

  pub empty-Allowed : (title : String) {h : Html E} → Allowed P h → Allowed P (empty title h)
  unfolding empty
  empty-Allowed title k = record { holds = k.holds }

  head_cells-Allowed : (titles : List String) → Allowed P (head_cells titles)
  head_cells-Allowed titles = record {
    holds =
        (Allowed-each P {f = λ s. box "th" (say s)} titles (λ s m. record { holds = tt })).holds;
  }

  pub table-Allowed :
      {A : Type 0} (titles : List String) {row : A → Html E} (items : List A)
      → ((x : A) → Memᴰ x items → Allowed P (row x))
      → Allowed P (table titles row items)
  table-Allowed titles items h = record {
    holds = allow (head_cells-Allowed titles) (allow (Allowed-each P items h) tt);
  }

module _ {W : Type 0} (P : Handler (World W) → Type 0) where
  pub command-Allowed : (s : Text) → P (copy s) → Allowed P (command s)
  unfolding command
  command-Allowed s h = record { holds = ((λ _. h), tt) }
