-- ===== src/Json/Parse/Layout.antt =====
-- Texts of JSON, in whatever layout and with whatever escapes they are written: the texts that the
-- grammar of JSON gives for a value. The codes of escapes are written in small hexadecimal digits.
use oort.Prelude.{
  ℕ, ◌≤◌, ◌<◌, ◌≡◌, ◌≢◌, ◌⊎◌, Bool, none, List, [], ◌∷◌, ◌++◌, map, if◌then◌else◌, All,
}
use oort.Text.{Text, lit}
use oort.Json.{
  Json, null, boolean, number, string, array, object, Items, nil, cons, Fields, end, field,
  lookup_field, unicode_escape,
}
use oort.Json.Parse.Grammar.{Numeral, spelled, IsNumber}

-- the escapes of one letter
pub data Short : Type 0 where
  quote_mark backslash slash backspace form_feed line_feed carriage_return tab : Short

abbrev pub letter : Short → ℕ
letter quote_mark = 34
letter backslash = 92
letter slash = 47
letter backspace = 98
letter form_feed = 102
letter line_feed = 110
letter carriage_return = 114
letter tab = 116

abbrev pub meaning : Short → ℕ
meaning quote_mark = 34
meaning backslash = 92
meaning slash = 47
meaning backspace = 8
meaning form_feed = 12
meaning line_feed = 10
meaning carriage_return = 13
meaning tab = 9

-- A unit of a string: as it is, or escaped by a letter or by its code.
pub data Glyph : Type 0 where
  plain : ℕ → Glyph
  short : Short → Glyph
  coded : ℕ → Glyph

abbrev pub unit_of : Glyph → ℕ
unit_of (plain c) = c
unit_of (short k) = meaning k
unit_of (coded c) = c

abbrev pub units_of : List Glyph → Text
units_of gs = map unit_of gs

-- The text of the glyphs, in front of `k`.
abbrev pub glyphs : List Glyph → Text → Text
glyphs [] k = k
glyphs (plain c ∷ gs) k = c ∷ glyphs gs k
glyphs (short s ∷ gs) k = 92 ∷ letter s ∷ glyphs gs k
glyphs (coded c ∷ gs) k = unicode_escape c ++ glyphs gs k

abbrev pub IsGlyph : Glyph → Type 0
IsGlyph (plain c) = (c ≢ 34) × (c ≢ 92) × (32 ≤ c)
IsGlyph (short k) = Unit
IsGlyph (coded c) = c < 0x10000

-- spaces, tabs and ends of lines
abbrev pub IsBlank : Text → Type 0
IsBlank b = All (λ c. (c ≡ 32) ⊎ (c ≡ 9) ⊎ (c ≡ 10) ⊎ (c ≡ 13)) b

-- A value with its layout: the blanks before and after each part.
mutual
  pub data Doc : Type 0 where
    null_doc : Doc
    boolean_doc : Bool → Doc
    number_doc : Numeral → Doc
    string_doc : List Glyph → Doc
    array_doc : Text → Elements → Doc
    object_doc : Text → Entries → Doc

  pub data Elements : Type 0 where
    no_element : Elements
    element : Text → Doc → Text → Elements → Elements

  pub data Entries : Type 0 where
    no_entry : Entries
    entry : Text → List Glyph → Text → Text → Doc → Text → Entries → Entries

unfoldable mutual
  pub value_of : Doc → Json
  value_of null_doc = null
  value_of (boolean_doc b) = boolean b
  value_of (number_doc n) = number (spelled n)
  value_of (string_doc gs) = string (units_of gs)
  value_of (array_doc gap xs) = array (items_of xs)
  value_of (object_doc gap es) = object (fields_of_entries es)

  pub items_of : Elements → Items
  items_of no_element = nil
  items_of (element before d behind r) = cons (value_of d) (items_of r)

  pub fields_of_entries : Entries → Fields
  fields_of_entries no_entry = end
  fields_of_entries (entry before key gap next d behind r) =
      field (units_of key) (value_of d) (fields_of_entries r)

-- The text of a value in its layout, in front of `k`; the first of a list has no comma.
unfoldable mutual
  pub text_of : Doc → Text → Text
  text_of null_doc k = lit "null" ++ k
  text_of (boolean_doc b) k = (if b then lit "true" else lit "false") ++ k
  text_of (number_doc n) k = spelled n ++ k
  text_of (string_doc gs) k = 34 ∷ glyphs gs (34 ∷ k)
  text_of (array_doc gap no_element) k = 91 ∷ (gap ++ 93 ∷ k)
  text_of (array_doc gap (element before d behind r)) k =
      91 ∷ (before ++ text_of d (behind ++ more_elements r k))
  text_of (object_doc gap no_entry) k = 123 ∷ (gap ++ 125 ∷ k)
  text_of (object_doc gap (entry before key colon next d behind r)) k =
      123
      ∷ (before
          ++ 34
            ∷ glyphs key (34 ∷ (colon ++ 58 ∷ (next ++ text_of d (behind ++ more_entries r k)))))

  pub more_elements : Elements → Text → Text
  more_elements no_element k = 93 ∷ k
  more_elements (element before d behind r) k =
      44 ∷ (before ++ text_of d (behind ++ more_elements r k))

  pub more_entries : Entries → Text → Text
  more_entries no_entry k = 125 ∷ k
  more_entries (entry before key colon next d behind r) k =
      44
      ∷ (before
          ++ 34
            ∷ glyphs key (34 ∷ (colon ++ 58 ∷ (next ++ text_of d (behind ++ more_entries r k)))))

-- The layout is blank, the glyphs are such, the keys of an object differ, the numbers
-- are numerals.
unfoldable mutual
  pub IsDoc : Doc → Type 0
  IsDoc null_doc = Unit
  IsDoc (boolean_doc b) = Unit
  IsDoc (number_doc n) = IsNumber n
  IsDoc (string_doc gs) = All IsGlyph gs
  IsDoc (array_doc gap xs) = IsBlank gap × AreElements xs
  IsDoc (object_doc gap es) = IsBlank gap × AreEntries es

  pub AreElements : Elements → Type 0
  AreElements no_element = Unit
  AreElements (element before d behind r) =
      IsBlank before × IsDoc d × IsBlank behind × AreElements r

  pub AreEntries : Entries → Type 0
  AreEntries no_entry = Unit
  AreEntries (entry before key colon next d behind r) =
      IsBlank before
      × All IsGlyph key
      × IsBlank colon
      × IsBlank next
      × IsDoc d
      × IsBlank behind
      × AreEntries r
      × (lookup_field (units_of key) (fields_of_entries r) ≡ none)

-- `s` is JSON, and says `v`.
abbrev pub Says : Json → Text → Type 0
Says v s =
    (before : Text) × (d : Doc) × (behind : Text) × IsBlank before
    × IsDoc d
    × IsBlank behind
    × (value_of d ≡ v)
    × (s ≡ before ++ text_of d behind)
