-- ===== src/Json/Parse/Values.antt =====
-- The values that `JSON.parse` reads back, and the fuel that reading them takes.
use oort.Prelude.{
  ℕ, suc, ◌+◌, ◌≤◌, ◌≡◌, ◌⊎◌, inl, inr, true, false, ◌&&◌, none, some, [], ◌∷◌, ◌++◌, arith, ◌==◌,
  Bool-cases, length, length-append,
}
use oort.Text.{Text, CodeUnits, lit}
use oort.Json.{
  Json, null, boolean, number, string, array, object, Items, nil, cons, Fields, end, field,
  lookup_field, stringify, stringify_items, stringify_fields, escape_all, escape_unit,
}
use oort.Json.Parse.{is_blank, read_value}
use oort.Text.Uri.{is_high, is_low}

-- Neither a blank nor a closing bracket comes first.
abbrev pub Starts : Text → Type 0
Starts s = (c : ℕ) × (r : Text) × (s ≡ c ∷ r) × (is_blank c ≡ false) × ((c == 93) ≡ false)

-- What may follow a value.
abbrev pub Ends : Text → Type 0
Ends [] = Unit
Ends (c ∷ t) = (c ≡ 44) ⊎ (c ≡ 93) ⊎ (c ≡ 125) ⊎ (is_blank c ≡ true)

-- The text of a number that is read back in front of whatever may follow it.
abbrev pub IsNumeral : Text → Type 0
IsNumeral n =
    Starts n × ((f : ℕ) (t : Text) → Ends t → read_value (suc f) (n ++ t) ≡ some (number n, t))

-- Texts are of code units, the keys of an object differ, numbers are numerals.
unfoldable mutual
  pub IsPlain : Json → Type 0
  IsPlain null = Unit
  IsPlain (boolean b) = Unit
  IsPlain (number n) = IsNumeral n
  IsPlain (string s) = CodeUnits s
  IsPlain (array xs) = ArePlain xs
  IsPlain (object fs) = FieldsArePlain fs

  pub ArePlain : Items → Type 0
  ArePlain nil = Unit
  ArePlain (cons v r) = IsPlain v × ArePlain r

  pub FieldsArePlain : Fields → Type 0
  FieldsArePlain end = Unit
  FieldsArePlain (field k v r) =
      CodeUnits k × (lookup_field k r ≡ none) × IsPlain v × FieldsArePlain r

-- the fuel that reading takes
unfoldable mutual
  pub weight : Json → ℕ
  weight null = 1
  weight (boolean b) = 1
  weight (number n) = 1
  weight (string s) = 2 + length s
  weight (array xs) = 1 + weight_items xs
  weight (object fs) = 1 + weight_fields fs

  pub weight_items : Items → ℕ
  weight_items nil = 0
  weight_items (cons v r) = 1 + weight v + weight_items r

  pub weight_fields : Fields → ℕ
  weight_fields end = 0
  weight_fields (field k v r) = 3 + length k + weight v + weight_fields r

length-escape_unit : (c : ℕ) → 1 ≤ length (escape_unit c)
unfolding escape_unit
length-escape_unit c = ground arith

length-escape_all : (s : Text) → length s ≤ length (escape_all s)
unfolding escape_all
length-escape_all [] = omega arith
length-escape_all (c ∷ []) = length-escape_unit c
length-escape_all (c ∷ (d ∷ s)) = elim (Bool-cases (is_high c && is_low d)) [
  | inl y ↦ rw y (omega (arith, length-escape_all s))
  | inr n ↦ rw n (
      omega (
        arith,
        length-append {0} (escape_unit c) (escape_all (d ∷ s)),
        length-escape_unit c,
        length-escape_all (d ∷ s),
      ))
]

length-Starts : (n : Text) → Starts n → 1 ≤ length n
length-Starts n (c, r, e, x, y) = rw e (omega arith)

fields_longer : (r : Fields) → length (stringify_fields true r) ≤ length (stringify_fields false r)
unfolding stringify
fields_longer end = omega arith
fields_longer (field k v r) = omega arith

-- The text of a value leaves room for the fuel.
mutual
  unfolding stringify weight IsPlain lit

  pub weight_le : (v : Json) → IsPlain v → weight v ≤ length (stringify v) + length (stringify v)
  weight_le null h = omega arith
  weight_le (boolean true) h = omega arith
  weight_le (boolean false) h = omega arith
  weight_le (number n) h = omega (arith, length-Starts n h.0)
  weight_le (string s) h =
      omega (arith, length-append {0} (escape_all s) (34 ∷ []), length-escape_all s)
  weight_le (array nil) h = omega arith
  weight_le (array (cons v r)) h = omega (
    arith,
    length-append {0} (stringify v) (stringify_items false r),
    weight_le v h.0,
    weight_items_le r h.1,
  )
  weight_le (object end) h = omega arith
  weight_le (object (field k v r)) h = omega (arith, weight_fields_le (field k v r) h)

  weight_items_le :
      (r : Items)
      → ArePlain r
      → weight_items r ≤ length (stringify_items false r) + length (stringify_items false r)
  weight_items_le nil h = omega arith
  weight_items_le (cons v r) h = omega (
    arith,
    length-append {0} (stringify v) (stringify_items false r),
    weight_le v h.0,
    weight_items_le r h.1,
  )

  weight_fields_le :
      (r : Fields)
      → FieldsArePlain r
      → weight_fields r ≤ length (stringify_fields true r) + length (stringify_fields false r)
  weight_fields_le end h = omega arith
  weight_fields_le (field k v r) h = omega (
    arith,
    length-append {0} (escape_all k ++ 34 ∷ []) (58 ∷ (stringify v ++ stringify_fields false r)),
    length-append {0} (escape_all k) (34 ∷ []),
    length-append {0} (stringify v) (stringify_fields false r),
    length-escape_all k,
    weight_le v h.2,
    weight_fields_le r h.3,
    fields_longer r,
  )
