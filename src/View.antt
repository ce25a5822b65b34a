-- ===== src/View.antt =====
-- What the components render: a tree of elements with their attributes and event handlers, as React
-- keeps it, and what an event of the user starts. Class names, keys and the sizes of icons are left
-- out, since only the stylesheet and the reconciliation read them.
pub mod Allows
pub mod Parts
pub mod Laws
use Prim.Native.String.{String}
use oort.Prelude.{
  ℕ, zero, suc, ◌+◌, ◌-◌, ◌*◌, ◌/◌, ◌%◌, ◌^◌, ◌≤◌, ◌<◌, ◌≡◌, refl, sym, ap, ◌∙◌, ◌≢◌, ◌↔◌, ◌⊎◌, inl,
  inr, Bool, true, false, not, ◌&&◌, ◌||◌, Option, none, some, List, [], ◌∷◌, ◌++◌, map,
  append_assoc, append-nil, arith, ltb, leb, ◌==◌, if◌then◌else◌, ==_iff, ltb→lt, Bool-cases,
  Option-cases, length, take, head?, find, filter, any, all, length-append, length-take, All,
  All-append,
}
use oort.Text.{Text, lit}
use oort.Api.Call.{FileInfo}

-- What a form sends: its text fields and check boxes by their names, and the file it holds.
pub record Submission : Type 0 where
  pub field : Text → Text
  pub checked : Text → Bool
  pub file : Option FileInfo
  -- what `crypto.randomUUID` gives while the form is handled
  pub uuid : Text

pub data Attr (E : Type 0) : Type 0 where
  attr : String → Text → Attr E
  -- the boolean attributes that matter: `disabled`, `readOnly`, and `type="submit"`
  disabled : Bool → Attr E
  read_only : Bool → Attr E
  submits : Attr E
  on_click : E → Attr E
  on_change : (Text → E) → Attr E
  on_file : (Option FileInfo → E) → Attr E
  on_submit : (Submission → E) → Attr E
  -- the key binding Mod-Enter
  on_run : E → Attr E

infixr 4 ◌<>◌
pub data Html (E : Type 0) : Type 0 where
  nothing : Html E
  words : Text → Html E
  ◌<>◌ : Html E → Html E → Html E
  el : String → List (Attr E) → Html E → Html E

-- What the user does to an element, and the way to that element from the root. A click inside of a
-- button is a click on the button.
pub data Action : Type 0 where
  click : Action
  change_to : Text → Action
  pick : Option FileInfo → Action
  send : Submission → Action
  mod_enter : Action

pub data Turn : Type 0 where
  left right inside : Turn

-- the first of two, if there is one
abbrev pub or_else : {A : Type 0} → Option A → Option A → Option A
or_else none o = o
or_else (some a) o = some a

module _ {E : Type 0} where
  -- `{test && html}`
  unfoldable pub when : Bool → Html E → Html E
  when true h = h
  when false h = nothing

  -- `{list.map(item => html)}`
  unfoldable pub each : {A : Type 0} → (A → Html E) → List A → Html E
  each f [] = nothing
  each f (x ∷ xs) = f x <> each f xs

  -- `{value && html}`
  unfoldable pub given : {A : Type 0} → Option A → (A → Html E) → Html E
  given none f = nothing
  given (some a) f = f a

  -- `{value ? html : other}`
  unfoldable pub given_or : {A : Type 0} → Option A → Html E → (A → Html E) → Html E
  given_or none other f = other
  given_or (some a) other f = f a

  -- `{list.length ? html : other}`
  unfoldable pub unless_empty : {A : Type 0} → List A → Html E → Html E → Html E
  unless_empty [] h other = other
  unless_empty (x ∷ xs) h other = h

  abbrev pub is_enabled : List (Attr E) → Bool
  is_enabled [] = true
  is_enabled (disabled b ∷ attrs) = not b && is_enabled attrs
  is_enabled (_ ∷ attrs) = is_enabled attrs

  abbrev pub is_writable : List (Attr E) → Bool
  is_writable [] = true
  is_writable (disabled b ∷ attrs) = not b && is_writable attrs
  is_writable (read_only b ∷ attrs) = not b && is_writable attrs
  is_writable (_ ∷ attrs) = is_writable attrs

  abbrev pub is_submit : List (Attr E) → Bool
  is_submit [] = false
  is_submit (submits ∷ attrs) = true
  is_submit (_ ∷ attrs) = is_submit attrs

  -- Whether a form has a submit button that is enabled; without one, neither a click nor the key
  -- Enter sends it.
  abbrev pub can_send : Html E → Bool
  can_send nothing = false
  can_send (words s) = false
  can_send (a <> b) = can_send a || can_send b
  can_send (el tag attrs h) = (is_submit attrs && is_enabled attrs) || can_send h

  -- Whether the element lets an event through: a disabled control takes none, and a field that is
  -- read-only does not change.
  abbrev pub lets : List (Attr E) → Html E → Action → Bool
  lets attrs h click = is_enabled attrs
  lets attrs h (change_to s) = is_writable attrs
  lets attrs h (pick file) = is_writable attrs
  lets attrs h (send v) = can_send h
  lets attrs h mod_enter = true

  abbrev pub on_attr : Attr E → Action → Option E
  on_attr (on_click e) click = some e
  on_attr (on_change f) (change_to s) = some (f s)
  on_attr (on_file f) (pick file) = some (f file)
  on_attr (on_submit f) (send v) = some (f v)
  on_attr (on_run e) mod_enter = some e
  on_attr _ _ = none

  abbrev pub on_attrs : List (Attr E) → Action → Option E
  on_attrs [] act = none
  on_attrs (a ∷ attrs) act = or_else (on_attr a act) (on_attrs attrs act)

  -- The handler that an event starts.
  abbrev pub fire : Html E → List Turn → Action → Option E
  fire (a <> b) (left ∷ way) act = fire a way act
  fire (a <> b) (right ∷ way) act = fire b way act
  fire (el tag attrs h) (inside ∷ way) act = fire h way act
  fire (el tag attrs h) [] act = if lets attrs h act then on_attrs attrs act else none
  fire _ _ _ = none
