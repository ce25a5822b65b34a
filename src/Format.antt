-- ===== src/Format.antt =====
-- internal/server/web/src/format.ts: what the pages print. Dates, relative times and grouped numbers
-- are printed by `Intl`, whose formatters are arguments here.
pub mod Laws
use oort.Prelude.{
  ℕ, zero, suc, ◌+◌, ◌-◌, ◌*◌, ◌/◌, ◌%◌, ◌^◌, ◌≤◌, ◌<◌, ◌≡◌, refl, sym, ap, ◌∙◌, ◌≢◌, ◌↔◌, ◌⊎◌, inl,
  inr, Bool, true, false, not, ◌&&◌, ◌||◌, Option, none, some, List, [], ◌∷◌, ◌++◌, map,
  append_assoc, append-nil, arith, ltb, leb, ◌==◌, if◌then◌else◌, ==_iff, ltb→lt, Bool-cases,
  Option-cases, length, take, head?, find, filter, any, all, length-append, length-take, All,
  All-append,
}
use oort.Text.{Text, lit, text_eq}
use oort.Text.Walk.{replace_all}
use oort.Json.{Json, null, array, object, stringify, to_string}

abbrev pub dash : Text
dash = lit "—"

-- `shortId`; the empty text counts as absent
unfoldable pub short_id : Option Text → Text
short_id none = dash
short_id (some []) = dash
short_id (some (c ∷ s)) = take 8 (c ∷ s)

-- `formatCell`; `none` is `undefined`
unfoldable pub format_cell : Option Json → Text
format_cell none = lit "null"
format_cell (some null) = lit "null"
format_cell (some (array xs)) = stringify (array xs)
format_cell (some (object fs)) = stringify (object fs)
format_cell (some v) = to_string v

-- the table `actionLabels`
abbrev pub action_labels : List (Text × Text)
action_labels =
    (lit "tenant.created", lit "Tenant created")
    ∷ (lit "dataset.upload_created", lit "Dataset upload created")
    ∷ (lit "dataset.imported", lit "Dataset snapshot published")
    ∷ (lit "query.saved", lit "Query revision saved")
    ∷ (lit "deployment.upload_created", lit "Deployment upload created")
    ∷ (lit "deployment.published", lit "App release published")
    ∷ (lit "deployment.rolled_back", lit "App release rolled back")
    ∷ []

-- The own property `k` of a table. The names that every object inherits are not looked at.
unfoldable pub lookup_label : Text → List (Text × Text) → Option Text
lookup_label k [] = none
lookup_label k ((j, v) ∷ r) = if text_eq j k then some v else lookup_label k r

unfoldable pub action_label : Text → Text
unfolding lookup_label replace_all
action_label action = elim (lookup_label action action_labels) [
  | some label ↦ label
  | none ↦ replace_all 95 (lit " ") (replace_all 46 (lit ": ") action)
]

-- The double-precision numbers that `formatBytes` works with.
pub record Floats : Type 1 where
  pub Float : Type 0
  pub from_ℕ : ℕ → Float
  -- x / 1000, x >= n, x < n
  pub thousandth : Float → Float
  pub at_least : Float → ℕ → Bool
  pub below : Float → ℕ → Bool
  -- `toFixed(1)`, and the text of `Math.round`
  pub to_fixed_1 : Float → Text
  pub rounded : Float → Text

-- the table `units`
abbrev pub units : List Text
units = lit "B" ∷ lit "KB" ∷ lit "MB" ∷ lit "GB" ∷ []

-- `units[index]`, as a template prints it
abbrev pub unit_at : List Text → ℕ → Text
unit_at [] index = lit "undefined"
unit_at (u ∷ us) zero = u
unit_at (u ∷ us) (suc index) = unit_at us index

module _ (fl : Floats) where
  open fl use {Float, from_ℕ, thousandth, at_least, below, to_fixed_1, rounded}

  -- The loop of `formatBytes`, on fuel that bounds its rounds.
  unfoldable pub scale : ℕ → Float → ℕ → Float × ℕ
  scale zero amount index = (amount, index)
  scale (suc fuel) amount index =
      let more = scale fuel (thousandth amount) (suc index) in
      if at_least amount 1000 && ltb index (length units - 1) then more else (amount, index)

  unfoldable pub format_bytes : Option ℕ → Text
  unfolding scale
  format_bytes none = dash
  format_bytes (some value) =
      let (amount, index) = scale (length units) (from_ℕ value) 0 in
      (if ltb 0 index && below amount 10 then to_fixed_1 amount else rounded amount)
      ++ (lit " " ++ unit_at units index)

-- A number with its sign, zero included: `past` is the sign, `size` the absolute value.
pub record Amount : Type 0 where
  pub past : Bool
  pub size : ℕ

pub data TimeUnit : Type 0 where
  second minute hour day : TimeUnit

-- `Math.round(x / n)`, which rounds a half up. The quotient of two integers below 2^53 is near
-- enough to round as the exact one does.
unfoldable pub round_div : Amount → ℕ → Amount
round_div x n = record x {
  size = if x.past then (2 * x.size + n - 1) / (2 * n) else (2 * x.size + n) / (2 * n);
}

-- The loop of `relativeTime` from the milliseconds up to now: what is handed to the formatter.
unfoldable pub relative : Amount → Amount × TimeUnit
unfolding round_div
relative ms =
    let s = round_div ms 1000 in
    let m = round_div s 60 in
    let h = round_div m 60 in
    if ltb s.size 60
    then (s, second)
    else if ltb m.size 60
    then (m, minute)
    else if ltb h.size 24
    then (h, hour)
    else (round_div h 24, day)
