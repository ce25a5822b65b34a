-- ===== src/Json/Parse.antt =====
-- `JSON.parse`: `none` is its `SyntaxError`. Recursion is on fuel that the length of the text gives.
-- The text of a number is kept as it is written.
pub mod Documents
pub mod Grammar
pub mod Inverse
pub mod Numbers
pub mod Numerals
pub mod Layout
pub mod Reading
pub mod RoundTrip
pub mod Values
pub mod Weights
use oort.Prelude.{
  ℕ, zero, suc, ◌+◌, ◌-◌, ◌*◌, Bool, true, false, not, ◌&&◌, ◌||◌, List, [], ◌∷◌, ◌++◌, Option,
  none, some, ltb, leb, ◌==◌, if◌then◌else◌, length,
}
use mathlib.Core.Option
use oort.Text.{Text, lit, text_eq}
use oort.Text.Walk.{starts_with}
use oort.Json.{
  Json, null, boolean, number, string, array, object, Items, nil, cons, Fields, end, field,
  lookup_field,
}

-- What has been read, and the text behind it.
abbrev pub Read : Type 0 → Type 0
Read A = Option (A × Text)

infixl 5 ◌>>=◌
abbrev ◌>>=◌ : {A B : Type 0} → Option A → (A → Option B) → Option B
none >>= k = none
some a >>= k = k a

abbrev pub read_map : {A B : Type 0} → (A → B) → Read A → Read B
read_map f none = none
read_map f (some (a, s)) = some (f a, s)

unfoldable pub is_blank : ℕ → Bool
is_blank c = c == 32 || c == 9 || c == 10 || c == 13

unfoldable pub skip : Text → Text
unfolding is_blank
skip [] = []
skip (c ∷ s) = let rest = skip s in if is_blank c then rest else c ∷ s

hex_value : ℕ → Option ℕ
hex_value c =
    if leb 48 c && leb c 57
    then some (c - 48)
    else if leb 97 c && leb c 102
    then some (c - 87)
    else if leb 65 c && leb c 70
    then some (c - 55)
    else none

-- the character behind a backslash
simple_escape : ℕ → Option ℕ
simple_escape d =
    if d == 34 || d == 92 || d == 47
    then some d
    else if d == 98
    then some 8
    else if d == 102
    then some 12
    else if d == 110
    then some 10
    else if d == 114
    then some 13
    else if d == 116
    then some 9
    else none

read_unicode : (Text → Read Text) → Text → Read Text
unfolding hex_value
read_unicode k (a ∷ (b ∷ (c ∷ (d ∷ s)))) = do
  w ← hex_value a
  x ← hex_value b
  y ← hex_value c
  z ← hex_value d
  read_map (λ t. (w * 4096 + x * 256 + y * 16 + z) ∷ t) (k s)
read_unicode k _ = none

read_escape : (Text → Read Text) → Text → Read Text
unfolding read_unicode simple_escape
read_escape k [] = none
read_escape k (d ∷ s) =
    if d == 117
    then read_unicode k s
    else elim (simple_escape d) [ none ↦ none | some c ↦ read_map (λ t. c ∷ t) (k s) ]

-- a string behind its opening quote
unfoldable pub read_string : ℕ → Text → Read Text
unfolding read_escape
read_string zero s = none
read_string (suc f) [] = none
read_string (suc f) (c ∷ s) =
    let plain = read_map (λ t. c ∷ t) (read_string f s) in
    if c == 34
    then some ([], s)
    else if c == 92
    then read_escape (read_string f) s
    else if ltb c 32
    then none
    else plain

take_digits : Text → Text × Text
take_digits [] = ([], [])
take_digits (c ∷ s) =
    let rest = take_digits s in
    let more : Text × Text = (c ∷ rest.0, rest.1) in
    if leb 48 c && leb c 57 then more else ([], c ∷ s)

-- a sequence of digits that is not empty
some_digits : Text → Read Text
unfolding take_digits
some_digits s = elim (take_digits s).0 [ [] ↦ none | d ∷ ds ↦ some (d ∷ ds, (take_digits s).1) ]

starts_zero : Text → Bool
starts_zero (c ∷ (d ∷ s)) = c == 48
starts_zero _ = false

-- no zero in front of other digits
whole_part : Text → Read Text
unfolding some_digits starts_zero
whole_part s = do (ds, rest) ← some_digits s; if starts_zero ds then none else some (ds, rest)

fraction : Text → Read Text
unfolding some_digits
fraction [] = some ([], [])
fraction (c ∷ s) = if c == 46 then read_map (λ t. c ∷ t) (some_digits s) else some ([], c ∷ s)

signed_digits : Text → Read Text
unfolding some_digits
signed_digits [] = none
signed_digits (c ∷ s) =
    if c == 43 || c == 45 then read_map (λ t. c ∷ t) (some_digits s) else some_digits (c ∷ s)

exponent : Text → Read Text
unfolding signed_digits
exponent [] = some ([], [])
exponent (c ∷ s) =
    if c == 101 || c == 69 then read_map (λ t. c ∷ t) (signed_digits s) else some ([], c ∷ s)

unsigned : Text → Read Text
unfolding whole_part fraction exponent
unsigned s = do
  (w, s1) ← whole_part s
  (q, s2) ← fraction s1
  (e, s3) ← exponent s2
  some (w ++ (q ++ e), s3)

read_number : Text → Read Json
unfolding unsigned
read_number [] = none
read_number (c ∷ s) =
    read_map number (if c == 45 then read_map (λ t. c ∷ t) (unsigned s) else unsigned (c ∷ s))

remove_field : Text → Fields → Fields
remove_field k end = end
remove_field k (field j v r) =
    let rest = remove_field k r in if text_eq j k then rest else field j v rest

-- A key that comes again keeps its place and takes the last value.
pub add_field : Text → Json → Fields → Fields
unfolding remove_field
add_field k v r = elim (lookup_field k r) [
  | none ↦ field k v r
  | some w ↦ field k w (remove_field k r)
]

-- a word such as `true`
read_word : Text → Json → Text → Read Json
read_word [] v s = some (v, s)
read_word (c ∷ w) v [] = none
read_word (c ∷ w) v (d ∷ s) = if c == d then read_word w v s else none

-- A value at its first character, by readers of what is inside brackets and braces.
read_value_at : (Text → Read Items) → (Text → Read Fields) → (Text → Read Text) → Text → Read Json
unfolding read_number read_word
read_value_at items fields str [] = none
read_value_at items fields str (c ∷ s) =
    if c == 123
    then read_map object (fields s)
    else if c == 91
    then read_map array (items s)
    else if c == 34
    then read_map string (str s)
    else if c == 116
    then read_word (lit "rue") (boolean true) s
    else if c == 102
    then read_word (lit "alse") (boolean false) s
    else if c == 110
    then read_word (lit "ull") null s
    else read_number (c ∷ s)

-- what closes a list at once, or else `more` on the text
pub read_list : {A : Type 0} → ℕ → A → (Text → Read A) → Text → Read A
read_list close empty more [] = none
read_list close empty more (c ∷ s) = if c == close then some (empty, s) else more (c ∷ s)

-- a comma and more, or the closing bracket
pub read_next : {A : Type 0} → ℕ → A → (Text → Read A) → Text → Read A
read_next close empty more [] = none
read_next close empty more (c ∷ s) =
    if c == 44 then more s else if c == close then some (empty, s) else none

read_key : (Text → Read Text) → Text → Read Text
read_key str [] = none
read_key str (c ∷ s) = if c == 34 then str s else none

read_colon : Text → Option Text
read_colon [] = none
read_colon (c ∷ s) = if c == 58 then some s else none

unfoldable mutual
  unfolding skip read_value_at read_list read_next read_key read_colon add_field read_string

  pub read_value : ℕ → Text → Read Json
  read_value zero s = none
  read_value (suc f) s =
      read_value_at (λ t. read_list 93 nil (read_items f) (skip t))
        (λ t. read_list 125 end (read_fields f) (skip t)) (read_string f) (skip s)

  pub read_items : ℕ → Text → Read Items
  read_items zero s = none
  read_items (suc f) s = do
    (v, t) ← read_value f s
    (r, u) ← read_next 93 nil (read_items f) (skip t)
    some (cons v r, u)

  pub read_fields : ℕ → Text → Read Fields
  read_fields zero s = none
  read_fields (suc f) s = do
    (k, t) ← read_key (read_string f) (skip s)
    u ← read_colon (skip t)
    (v, x) ← read_value f u
    (r, y) ← read_next 125 end (read_fields f) (skip x)
    some (add_field k v r, y)

at_end : Json → Text → Option Json
at_end v [] = some v
at_end v (_ ∷ _) = none

unfoldable pub parse : Text → Option Json
unfolding read_value at_end
parse s = do (v, t) ← read_value (suc (length s + length s)) s; at_end v (skip t)
