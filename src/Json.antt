-- ===== src/Json.antt =====
-- JSON values, and `JSON.stringify`. A number is kept as a text: that which JavaScript prints for it
-- where the program makes it, and that which was written where it is parsed. `JSON.parse` is in the
-- child `Parse`.
pub mod Parse
use Prim.Native.Nat.{ℕ, zero, suc, ◌+◌, ◌-◌, ◌*◌, ◌/◌, ◌%◌}
use oort.Prelude.{
  ◌^◌, ◌≤◌, ◌<◌, ◌≡◌, refl, sym, ap, ◌∙◌, ◌≢◌, ◌↔◌, ◌⊎◌, inl, inr, Bool, true, false, not, ◌&&◌,
  ◌||◌, Option, none, some, List, [], ◌∷◌, ◌++◌, map, append_assoc, append-nil, arith, ltb, leb,
  ◌==◌, if◌then◌else◌, ==_iff, ltb→lt, Bool-cases, Option-cases, length, take, head?, find, filter,
  any, all, length-append, length-take, All, All-append,
}
use oort.Text.Uri.{is_high, is_low}
use oort.Text.{Text, lit, text_eq}

mutual
  pub data Json : Type 0 where
    null : Json
    boolean : Bool → Json
    number : Text → Json
    string : Text → Json
    array : Items → Json
    object : Fields → Json

  pub data Items : Type 0 where
    nil : Items
    cons : Json → Items → Items

  pub data Fields : Type 0 where
    end : Fields
    field : Text → Json → Fields → Fields

-- `String(n)` of a whole number, by fuel that the number bounds.
digits_of : ℕ → ℕ → Text → Text
digits_of zero n acc = acc
digits_of (suc f) n acc =
    let out = (48 + n % 10) ∷ acc in
    let more = digits_of f (n / 10) out in if ltb n 10 then out else more

unfoldable pub show : ℕ → Text
unfolding digits_of
show n = digits_of (suc n) n []

-- `Number(text)`, for what the number inputs of the forms hold: decimal digits, or nothing. Any
-- other text is `nan`: signs, fractions and exponents are not read.
pub data Number : Type 0 where
  finite : ℕ → Number
  nan : Number

read_digits : ℕ → Text → Number
read_digits n [] = finite n
read_digits n (c ∷ s) =
    let rest = read_digits (n * 10 + (c - 48)) s in if leb 48 c && leb c 57 then rest else nan

unfoldable pub to_number : Text → Number
unfolding read_digits
to_number s = read_digits 0 s

-- `JSON.stringify` writes `null` for `NaN`.
abbrev pub number_json : Number → Json
number_json (finite n) = number (show n)
number_json nan = null

-- a value of an object literal; the properties that are `undefined` are left out
abbrev pub fields_of : List (Text × Option Json) → Fields
fields_of [] = end
fields_of ((k, none) ∷ r) = fields_of r
fields_of ((k, some v) ∷ r) = field k v (fields_of r)

-- `Object.entries` back into an object
abbrev pub from_entries : List (Text × Json) → Fields
from_entries [] = end
from_entries ((k, v) ∷ r) = field k v (from_entries r)

hex_digit : ℕ → ℕ
hex_digit n = if ltb n 10 then 48 + n else 87 + n

-- an escaped code unit of a string
unfoldable pub escape : ℕ → Text
unfolding hex_digit
escape c =
    if c == 34
    then 92 ∷ 34 ∷ []
    else if c == 92
    then 92 ∷ 92 ∷ []
    else if c == 8
    then 92 ∷ 98 ∷ []
    else if c == 12
    then 92 ∷ 102 ∷ []
    else if c == 10
    then 92 ∷ 110 ∷ []
    else if c == 13
    then 92 ∷ 114 ∷ []
    else if c == 9
    then 92 ∷ 116 ∷ []
    else if ltb c 32
    then 92 ∷ 117 ∷ 48 ∷ 48 ∷ hex_digit (c / 16) ∷ hex_digit (c % 16) ∷ []
    else c ∷ []

-- `\uXYZW`
unfoldable pub unicode_escape : ℕ → Text
unfolding hex_digit
unicode_escape c =
    92
    ∷ 117
    ∷ hex_digit (c / 4096)
    ∷ hex_digit (c / 256 % 16)
    ∷ hex_digit (c / 16 % 16)
    ∷ hex_digit (c % 16)
    ∷ []

-- a code unit that is no half of a pair
escape_unit : ℕ → Text
unfolding escape unicode_escape is_high is_low
escape_unit c = if is_high c || is_low c then unicode_escape c else escape c

-- A pair of surrogates is written as it is, a surrogate alone is escaped.
unfoldable pub escape_all : Text → Text
unfolding escape_unit
escape_all [] = []
escape_all (c ∷ []) = escape_unit c
escape_all (c ∷ (d ∷ s)) =
    let paired = c ∷ d ∷ escape_all s in
    let single = escape_unit c ++ escape_all (d ∷ s) in
    if is_high c && is_low d then paired else single

abbrev quote : Text → Text
quote s = 34 ∷ (escape_all s ++ 34 ∷ [])

abbrev comma : Bool → Text
comma first = if first then [] else 44 ∷ []

unfoldable mutual
  pub stringify : Json → Text
  stringify null = lit "null"
  stringify (boolean b) = if b then lit "true" else lit "false"
  stringify (number n) = n
  stringify (string s) = quote s
  stringify (array xs) = 91 ∷ stringify_items true xs
  stringify (object fs) = 123 ∷ stringify_fields true fs

  pub stringify_items : Bool → Items → Text
  stringify_items first nil = 93 ∷ []
  stringify_items first (cons v r) = comma first ++ (stringify v ++ stringify_items false r)

  pub stringify_fields : Bool → Fields → Text
  stringify_fields first end = 125 ∷ []
  stringify_fields first (field k v r) =
      comma first ++ (quote k ++ (58 ∷ (stringify v ++ stringify_fields false r)))

-- `String(value)` of a parsed value, as in templates and in the message of an `Error`.
unfoldable mutual
  pub to_string : Json → Text
  to_string null = lit "null"
  to_string (boolean b) = if b then lit "true" else lit "false"
  to_string (number n) = n
  to_string (string s) = s
  to_string (array xs) = to_string_items true xs
  to_string (object fs) = lit "[object Object]"

  pub to_string_items : Bool → Items → Text
  to_string_items first nil = []
  to_string_items first (cons null r) = comma first ++ to_string_items false r
  to_string_items first (cons v r) = comma first ++ (to_string v ++ to_string_items false r)

unfoldable pub lookup_field : Text → Fields → Option Json
lookup_field k end = none
lookup_field k (field j v r) = elim (lookup_field k r) [
  | some w ↦ some w
  | none ↦ if text_eq j k then some v else none
]

-- `value?.name`; no other value has a property of the names that the program reads
unfoldable pub member : Text → Option Json → Option Json
unfolding lookup_field
member k (some (object fs)) = lookup_field k fs
member k _ = none

-- Whether the numeral is a zero, which may have a sign, a fraction and an exponent. One so near to
-- zero that a double cannot tell it apart is none here.
unfoldable pub is_zero : Text → Bool
is_zero [] = true
is_zero (c ∷ s) =
    let rest = is_zero s in
    if c == 101 || c == 69 then true else (c == 45 || c == 46 || c == 48) && rest

-- Whether `value || …` stops at the value.
unfoldable pub is_truthy : Json → Bool
unfolding is_zero
is_truthy null = false
is_truthy (boolean b) = b
is_truthy (number n) = not (is_zero n)
is_truthy (string []) = false
is_truthy (string (_ ∷ _)) = true
is_truthy _ = true
