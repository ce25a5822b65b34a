-- ===== src/View/Parts.antt =====
-- internal/server/web/src/ui.tsx: the components that the pages share, and the numbers and dates that
-- format.ts has printed.
use Prim.Native.String.{String}
use oort.Prelude.{ℕ, Option, some, List, [], ◌∷◌, ◌++◌}
use oort.Text.{Text, lit}
use oort.Api.Call.{Handler, write_clipboard}
use oort.Prog.{◌>>=◌, call, try_catch}
use oort.Toast.{Toast, Store, fine, error, Kind}
use oort.World.{World, toast}
use oort.App.{nonempty}
use oort.Format.{Floats, Amount, TimeUnit, format_bytes, relative}
use oort.Overview.{status_tone, status_text}
use oort.View.{attr, on_click, Html, nothing, words, ◌<>◌, el, each, given}

-- The formatters of `Intl` and the clock.
pub record Printer : Type 1 where
  pub floats : Floats
  -- `formatNumber` and `formatDate`
  pub grouped : ℕ → Text
  pub date : Text → Text
  -- the milliseconds from now to a date, and the formatter of relative times
  pub from_now : Text → Amount
  pub amount_text : Amount → TimeUnit → Text

module _ (pr : Printer) where
  abbrev pub bytes_text : Option ℕ → Text
  bytes_text n = format_bytes pr.floats n

  -- `relativeTime`
  unfoldable pub relative_time : Text → Text
  relative_time value =
      let (amount, unit) = relative (pr.from_now value) in pr.amount_text amount unit

abbrev toast_class : Kind → Text
toast_class error = lit "toast toast-error"
toast_class fine = lit "toast"

module _ {E : Type 0} where
  abbrev pub say : String → Html E
  say s = words (lit s)

  -- an element without attributes that matter
  abbrev pub box : String → Html E → Html E
  box tag h = el tag [] h

  abbrev pub icon : Html E
  icon = el "svg" (attr "aria-hidden" (lit "true") ∷ []) nothing

  abbrev pub problem : Text → Html E
  problem s = el "p" (attr "role" (lit "alert") ∷ []) (words s)

  abbrev pub line_break : Html E
  line_break = el "br" [] nothing

  -- `Logo`
  abbrev circle : String → String → String → Html E
  circle cx cy r =
      el "circle" (attr "cx" (lit cx) ∷ attr "cy" (lit cy) ∷ attr "r" (lit r) ∷ []) nothing

  unfoldable pub logo : Text → Html E
  logo size =
      el "svg"
        (attr "viewBox" (lit "0 0 64 64")
          ∷ attr "width" size
          ∷ attr "height" size
          ∷ attr "aria-hidden" (lit "true")
          ∷ [])
        (el "g" (attr "fill" (lit "currentColor") ∷ []) (
            circle "56" "21" "3"
            <> circle "46" "40" "2.6"
            <> circle "14" "47" "3.2"
            <> circle "9" "36" "2.2"
            <> circle "20" "26" "2.4"
            <> circle "42" "17" "2.8")
          <> circle "32" "32" "6")

  -- `Status`
  unfoldable pub status : Option Text → Html E
  status value =
      el "span" (attr "class" (lit "status status-" ++ status_tone value) ∷ [])
        (icon <> words (status_text value))

  -- `PageHead`
  unfoldable pub page_head : String → Option (Html E) → Html E
  page_head title actions = box "header" (box "h1" (say title) <> given actions (box "div"))

  -- `Empty`
  unfoldable pub empty : String → Html E → Html E
  empty title children = box "div" (icon <> box "h2" (say title) <> children)

  abbrev pub head_cells : List String → Html E
  head_cells titles = box "thead" (box "tr" (each (λ s. box "th" (say s)) titles))

  -- `Toasts`
  unfoldable pub toast_item : Toast → Html E
  toast_item t = el "div" (attr "class" (toast_class t.kind) ∷ []) (
      icon
      <> box "div" (
          box "strong" (words t.title)
          <> given (nonempty (some t.detail)) (λ s. box "span" (words s))))

  unfoldable pub toasts : Store → Html E
  toasts s = el "div" (attr "aria-live" (lit "assertive") ∷ []) (each toast_item s.toasts)

module _ {E A : Type 0} where
  abbrev pub table : List String → (A → Html E) → List A → Html E
  table titles row items =
      box "div" (box "table" (head_cells titles <> box "tbody" (each row items)))

-- `Command`: its button, and the command
module _ {P : Type 0} where
  unfoldable pub copy : Text → Handler (World P)
  copy s =
      try_catch (do _ ← call (write_clipboard s); toast (lit "Copied") s fine)
        (λ e. toast (lit "Copy failed") (lit "Select the command and copy it manually.") error)

  unfoldable pub command : Text → Html (Handler (World P))
  command s = box "span" (
      box "code" (words s)
      <> el "button" (on_click (copy s) ∷ attr "aria-label" (lit "Copy " ++ s) ∷ []) icon)
