-- ===== src/View/Allows.antt =====
-- A property of every handler that a rendered page offers.
use mathlib.Core.List.{Memᴰ}
use mathlib.Core.Path.{subst}
use mathlib.Core.Option.{some-injective, none-ne-some}
use oort.Prelude.{
  ◌≡◌, refl, sym, ap, ◌∙◌, inl, inr, Bool, true, false, Option, none, some, List, [], ◌∷◌,
  if◌then◌else◌, Bool-cases, Option-cases,
}
use oort.Text.{Text}
use oort.Api.Call.{FileInfo}
use oort.View.{
  Submission, Attr, attr, disabled, read_only, submits, on_click, on_change, on_file, on_submit,
  Html, nothing, words, ◌<>◌, el, Action, Turn, left, right, inside, click, change_to, pick, send,
  when, each, given, given_or, unless_empty, lets, on_attr, on_attrs, or_else, fire, on_run,
  mod_enter,
}

module _ {E : Type 0} (P : E → Type 0) where
  -- The handler of an attribute, for the events that the element lets through, and `rest` besides.
  abbrev pub AttrAllows : (Action → Bool) → Attr E → Type 0 → Type 0
  AttrAllows opens (on_click p) rest = (opens click ≡ true → P p) × rest
  AttrAllows opens (on_change f) rest = ((s : Text) → opens (change_to s) ≡ true → P (f s)) × rest
  AttrAllows opens (on_file f) rest =
      ((x : Option FileInfo) → opens (pick x) ≡ true → P (f x)) × rest
  AttrAllows opens (on_submit f) rest = ((v : Submission) → opens (send v) ≡ true → P (f v)) × rest
  AttrAllows opens (on_run p) rest = (opens mod_enter ≡ true → P p) × rest
  AttrAllows opens _ rest = rest

  abbrev pub AttrsAllow : (Action → Bool) → List (Attr E) → Type 0 → Type 0
  AttrsAllow opens [] rest = rest
  AttrsAllow opens (a ∷ attrs) rest = AttrAllows opens a (AttrsAllow opens attrs rest)

  -- The handlers of a tree, and `rest` besides. An element without handlers asks for nothing.
  abbrev pub AllowsAnd : Html E → Type 0 → Type 0
  AllowsAnd nothing rest = rest
  AllowsAnd (words s) rest = rest
  AllowsAnd (a <> b) rest = AllowsAnd a (AllowsAnd b rest)
  AllowsAnd (el tag attrs h) rest = AttrsAllow (lets attrs h) attrs (AllowsAnd h rest)

  pub record Allowed (h : Html E) : Type 0 where
    pub holds : AllowsAnd h Unit

  attr-fires :
      (opens : Action → Bool) (a : Attr E) (act : Action) (p : E) (rest : Type 0)
      → AttrAllows opens a rest
      → opens act ≡ true
      → on_attr a act ≡ some p
      → P p
  attr-fires opens (attr n v) act p r h l q = cc
  attr-fires opens (disabled b) act p r h l q = cc
  attr-fires opens (read_only b) act p r h l q = cc
  attr-fires opens submits act p r h l q = cc
  attr-fires opens (on_click e) click p r (h, _) l q = subst P (some-injective _ _ q) (h l)
  attr-fires opens (on_click e) (change_to s) p r h l q = cc
  attr-fires opens (on_click e) (pick x) p r h l q = cc
  attr-fires opens (on_click e) (send v) p r h l q = cc
  attr-fires opens (on_change f) click p r h l q = cc
  attr-fires opens (on_change f) (change_to s) p r (h, _) l q =
      subst P (some-injective _ _ q) (h s l)
  attr-fires opens (on_change f) (pick x) p r h l q = cc
  attr-fires opens (on_change f) (send v) p r h l q = cc
  attr-fires opens (on_file f) click p r h l q = cc
  attr-fires opens (on_file f) (change_to s) p r h l q = cc
  attr-fires opens (on_file f) (pick x) p r (h, _) l q = subst P (some-injective _ _ q) (h x l)
  attr-fires opens (on_file f) (send v) p r h l q = cc
  attr-fires opens (on_submit f) click p r h l q = cc
  attr-fires opens (on_submit f) (change_to s) p r h l q = cc
  attr-fires opens (on_submit f) (pick x) p r h l q = cc
  attr-fires opens (on_submit f) (send v) p r (h, _) l q = subst P (some-injective _ _ q) (h v l)
  attr-fires opens (on_click e) mod_enter p r h l q = cc
  attr-fires opens (on_change f) mod_enter p r h l q = cc
  attr-fires opens (on_file f) mod_enter p r h l q = cc
  attr-fires opens (on_submit f) mod_enter p r h l q = cc
  attr-fires opens (on_run e) click p r h l q = cc
  attr-fires opens (on_run e) (change_to s) p r h l q = cc
  attr-fires opens (on_run e) (pick x) p r h l q = cc
  attr-fires opens (on_run e) (send v) p r h l q = cc
  attr-fires opens (on_run e) mod_enter p r (h, _) l q = subst P (some-injective _ _ q) (h l)

  attr-rest : (opens : Action → Bool) (a : Attr E) (rest : Type 0) → AttrAllows opens a rest → rest
  attr-rest opens (attr n v) r h = h
  attr-rest opens (disabled b) r h = h
  attr-rest opens (read_only b) r h = h
  attr-rest opens submits r h = h
  attr-rest opens (on_click e) r h = h.1
  attr-rest opens (on_change f) r h = h.1
  attr-rest opens (on_file f) r h = h.1
  attr-rest opens (on_submit f) r h = h.1
  attr-rest opens (on_run e) r h = h.1

  attrs-rest :
      (opens : Action → Bool) (attrs : List (Attr E)) (rest : Type 0)
      → AttrsAllow opens attrs rest
      → rest
  attrs-rest opens [] r h = h
  attrs-rest opens (a ∷ attrs) r h = attrs-rest opens attrs r (attr-rest opens a _ h)

  attrs-fire :
      (opens : Action → Bool) (attrs : List (Attr E)) (act : Action) (p : E) (rest : Type 0)
      → AttrsAllow opens attrs rest
      → opens act ≡ true
      → on_attrs attrs act ≡ some p
      → P p
  attrs-fire opens [] act p r h l q = cc
  attrs-fire opens (a ∷ attrs) act p r h l q = elim (Option-cases (on_attr a act)) [
    | inl e ↦
        attrs-fire opens attrs act p r (attr-rest opens a _ h) l
          (sym (ap (λ o. or_else o (on_attrs attrs act)) e) ∙ q)
    | inr (x, e) ↦
        attr-fires opens a act p _ h l (e ∙ (sym (ap (λ o. or_else o (on_attrs attrs act)) e) ∙ q))
  ]

  element-fires :
      (attrs : List (Attr E)) (h : Html E) (act : Action) (p : E) (rest : Type 0)
      → AttrsAllow (lets attrs h) attrs rest
      → (if lets attrs h act then on_attrs attrs act else none) ≡ some p
      → P p
  element-fires attrs h act p r allowed q =
      let started : Bool → Option E = λ b. if b then on_attrs attrs act else none in
      elim (Bool-cases (lets attrs h act)) [
        | inl y ↦ attrs-fire (lets attrs h) attrs act p r allowed y (sym (ap started y) ∙ q)
        | inr n ↦ absurd (none-ne-some _ (sym (ap started n) ∙ q))
      ]

  AllowsAnd-rest : (h : Html E) (rest : Type 0) → AllowsAnd h rest → rest
  AllowsAnd-rest nothing r a = a
  AllowsAnd-rest (words s) r a = a
  AllowsAnd-rest (x <> y) r a = AllowsAnd-rest y r (AllowsAnd-rest x _ a)
  AllowsAnd-rest (el tag attrs h) r a = AllowsAnd-rest h r (attrs-rest (lets attrs h) attrs _ a)

  fires :
      (h : Html E) (way : List Turn) (act : Action) (p : E) (rest : Type 0)
      → AllowsAnd h rest
      → fire h way act ≡ some p
      → P p
  fires nothing way act p r a q = cc
  fires (words s) way act p r a q = cc
  fires (x <> y) [] act p r a q = cc
  fires (x <> y) (left ∷ way) act p r a q = fires x way act p _ a q
  fires (x <> y) (right ∷ way) act p r a q = fires y way act p r (AllowsAnd-rest x _ a) q
  fires (x <> y) (inside ∷ way) act p r a q = cc
  fires (el tag attrs h) [] act p r a q = element-fires attrs h act p _ a q
  fires (el tag attrs h) (inside ∷ way) act p r a q =
      fires h way act p r (attrs-rest (lets attrs h) attrs _ a) q
  fires (el tag attrs h) (left ∷ way) act p r a q = cc
  fires (el tag attrs h) (right ∷ way) act p r a q = cc

  -- What is started by an event is one of the handlers that the tree allows.
  pub fire-Allowed :
      (h : Html E) (way : List Turn) (act : Action) (p : E)
      → Allowed h
      → fire h way act ≡ some p
      → P p
  fire-Allowed h way act p a q = fires h way act p Unit a.holds q

  attrs-and :
      (opens : Action → Bool) (attrs : List (Attr E)) (r r' : Type 0)
      → (r → r')
      → AttrsAllow opens attrs r
      → AttrsAllow opens attrs r'
  attrs-and opens [] r r' k h = k h
  attrs-and opens (attr n v ∷ attrs) r r' k h = attrs-and opens attrs r r' k h
  attrs-and opens (disabled b ∷ attrs) r r' k h = attrs-and opens attrs r r' k h
  attrs-and opens (read_only b ∷ attrs) r r' k h = attrs-and opens attrs r r' k h
  attrs-and opens (submits ∷ attrs) r r' k h = attrs-and opens attrs r r' k h
  attrs-and opens (on_click e ∷ attrs) r r' k (h, g) = (h, attrs-and opens attrs r r' k g)
  attrs-and opens (on_change f ∷ attrs) r r' k (h, g) = (h, attrs-and opens attrs r r' k g)
  attrs-and opens (on_file f ∷ attrs) r r' k (h, g) = (h, attrs-and opens attrs r r' k g)
  attrs-and opens (on_submit f ∷ attrs) r r' k (h, g) = (h, attrs-and opens attrs r r' k g)
  attrs-and opens (on_run e ∷ attrs) r r' k (h, g) = (h, attrs-and opens attrs r r' k g)

  AllowsAnd-map : (h : Html E) (r r' : Type 0) → (r → r') → AllowsAnd h r → AllowsAnd h r'
  AllowsAnd-map nothing r r' k a = k a
  AllowsAnd-map (words s) r r' k a = k a
  AllowsAnd-map (x <> y) r r' k a = AllowsAnd-map x _ _ (AllowsAnd-map y r r' k) a
  AllowsAnd-map (el tag attrs h) r r' k a =
      attrs-and (lets attrs h) attrs _ _ (AllowsAnd-map h r r' k) a

-- A part of a tree, and what stands behind it.
pub allow :
    {E : Type 0} {P : E → Type 0} {h : Html E} {rest : Type 0}
    → Allowed P h
    → rest
    → AllowsAnd P h rest
allow {P = P} {h} {rest} a r = AllowsAnd-map P h Unit rest (λ _. r) a.holds

module _ {E : Type 0} (P : E → Type 0) where
  pub Allowed-when : (b : Bool) {h : Html E} → (b ≡ true → Allowed P h) → Allowed P (when b h)
  unfolding when
  Allowed-when true k = record { holds = allow (k refl) tt }
  Allowed-when false k = record { holds = tt }

  pub Allowed-if :
      (b : Bool) {x y : Html E}
      → (b ≡ true → Allowed P x)
      → (b ≡ false → Allowed P y)
      → Allowed P (if b then x else y)
  Allowed-if true h k = h refl
  Allowed-if false h k = k refl

  pub Allowed-each :
      {A : Type 0} {f : A → Html E} (xs : List A)
      → ((x : A) → Memᴰ x xs → Allowed P (f x))
      → Allowed P (each f xs)
  unfolding each
  Allowed-each [] h = record { holds = tt }
  Allowed-each (x ∷ xs) h = record {
    holds = allow (h x (Memᴰ.head refl)) (Allowed-each xs (λ y m. h y (Memᴰ.tail m))).holds;
  }

  pub Allowed-given :
      {A : Type 0} (o : Option A) {f : A → Html E}
      → ((a : A) → o ≡ some a → Allowed P (f a))
      → Allowed P (given o f)
  unfolding given
  Allowed-given none h = record { holds = tt }
  Allowed-given (some a) h = h a refl

  pub Allowed-given_or :
      {A : Type 0} (o : Option A) {other : Html E} {f : A → Html E}
      → (o ≡ none → Allowed P other)
      → ((a : A) → o ≡ some a → Allowed P (f a))
      → Allowed P (given_or o other f)
  unfolding given_or
  Allowed-given_or none h k = h refl
  Allowed-given_or (some a) h k = k a refl

  pub Allowed-unless_empty :
      {A : Type 0} (xs : List A) {x y : Html E}
      → Allowed P x
      → Allowed P y
      → Allowed P (unless_empty xs x y)
  unfolding unless_empty
  Allowed-unless_empty [] h k = k
  Allowed-unless_empty (_ ∷ _) h k = h
