-- ===== src/Json/Parse/Reading.antt =====
-- What `JSON.parse` makes of the parts of a text of JSON.
use oort.Prelude.{
  ℕ, zero, suc, ◌<◌, ◌≡◌, refl, ap, ◌⊎◌, inl, inr, true, false, none, some, List, [], ◌∷◌, ◌++◌,
  arith, ◌==◌, length, All,
}
use oort.Text.{Text, lit}
use oort.Json.{Json, Items, nil, cons, Fields, end, field, lookup_field}
use oort.Json.Parse.{
  Read, is_blank, skip, read_map, read_string, read_value, read_items, read_fields, read_list,
  read_next,
}
use oort.Json.Parse.Values.{Ends}
use oort.Json.Parse.Inverse.{add_field_new}
use oort.Json.Parse.RoundTrip.{read_string-plain, read_string-unicode_escape}
use oort.Json.Parse.Numbers.{spelled-IsNumeral}
use oort.Json.Parse.Layout.{
  Short, quote_mark, backslash, slash, backspace, form_feed, line_feed, carriage_return, tab,
  letter, meaning, Glyph, plain, short, coded, units_of, glyphs, IsGlyph, IsBlank, Doc, null_doc,
  boolean_doc, number_doc, string_doc, array_doc, object_doc, Elements, no_element, element,
  Entries, no_entry, entry, text_of, more_elements, more_entries, IsDoc,
}

blank_unit : (c : ℕ) → (c ≡ 32) ⊎ (c ≡ 9) ⊎ (c ≡ 10) ⊎ (c ≡ 13) → is_blank c ≡ true
unfolding is_blank
blank_unit c (inl e) = rw e refl
blank_unit c (inr (inl e)) = rw e refl
blank_unit c (inr (inr (inl e))) = rw e refl
blank_unit c (inr (inr (inr e))) = rw e refl

pub skip-append : (b s : Text) → IsBlank b → skip (b ++ s) ≡ skip s
unfolding skip
skip-append [] s h = refl
skip-append (c ∷ b) s (h, hs) = rw (blank_unit c h, skip-append b s hs) refl

-- Blanks in front of a value are skipped.
pub read_value-append : (f : ℕ) (b s : Text) → IsBlank b → read_value f (b ++ s) ≡ read_value f s
unfolding read_value
read_value-append zero b s h = refl
read_value-append (suc f) b s h = rw (skip-append b s h) refl

read_string-short :
    (s : Short) (f : ℕ) (t : Text)
    → read_string (suc f) (92 ∷ letter s ∷ t) ≡ read_map (λ u. meaning s ∷ u) (read_string f t)
unfolding read_string
read_string-short quote_mark f t = refl
read_string-short backslash f t = refl
read_string-short slash f t = refl
read_string-short backspace f t = refl
read_string-short form_feed f t = refl
read_string-short line_feed f t = refl
read_string-short carriage_return f t = refl
read_string-short tab f t = refl

pub read_string-glyphs :
    (gs : List Glyph) (f : ℕ) (k : Text)
    → All IsGlyph gs
    → length gs < f
    → read_string f (glyphs gs (34 ∷ k)) ≡ some (units_of gs, k)
read_string-glyphs gs zero k h p = absurd (omega arith)
read_string-glyphs [] (suc f) k h p = unfold read_string in refl
read_string-glyphs (plain c ∷ gs) (suc f) k ((q, b, low), hs) p = rw (
  read_string-plain c f (glyphs gs (34 ∷ k)) (ground (arith, q)) (ground (arith, b))
      (ground (arith, low)),
  read_string-glyphs gs f k hs (omega arith),
)
read_string-glyphs (short s ∷ gs) (suc f) k (h, hs) p =
    rw (read_string-short s f (glyphs gs (34 ∷ k)), read_string-glyphs gs f k hs (omega arith))
read_string-glyphs (coded c ∷ gs) (suc f) k (h, hs) p = rw (
  read_string-unicode_escape c f (glyphs gs (34 ∷ k)) h,
  read_string-glyphs gs f k hs (omega arith),
)

-- Neither a blank nor a closing bracket comes first.
abbrev pub Opens : Text → Type 0
Opens s = (skip s ≡ s) × ((c : ℕ) × (r : Text) × (s ≡ c ∷ r) × ((c == 93) ≡ false))

pub text_of-Opens : (d : Doc) (k : Text) → IsDoc d → Opens (text_of d k)
unfolding text_of skip is_blank lit IsDoc
text_of-Opens null_doc k h = (refl, (_, _, refl, refl))
text_of-Opens (boolean_doc true) k h = (refl, (_, _, refl, refl))
text_of-Opens (boolean_doc false) k h = (refl, (_, _, refl, refl))
text_of-Opens (number_doc n) k h =
    let (c, r, e, blank, close) = (spelled-IsNumeral n h).0 in
    (rw (e, blank) refl, (c, r ++ k, ap (λ s. s ++ k) e, close))
text_of-Opens (string_doc gs) k h = (refl, (_, _, refl, refl))
text_of-Opens (array_doc gap no_element) k h = (refl, (_, _, refl, refl))
text_of-Opens (array_doc gap (element _ _ _ _)) k h = (refl, (_, _, refl, refl))
text_of-Opens (object_doc gap no_entry) k h = (refl, (_, _, refl, refl))
text_of-Opens (object_doc gap (entry _ _ _ _ _ _ _)) k h = (refl, (_, _, refl, refl))

pub Ends-append : (b s : Text) → IsBlank b → Ends s → Ends (b ++ s)
Ends-append [] s h e = e
Ends-append (c ∷ b) s (h, hs) e = inr (inr (inr (blank_unit c h)))

pub more_elements-Ends : (r : Elements) (k : Text) → Ends (more_elements r k)
unfolding text_of
more_elements-Ends no_element k = inr (inl refl)
more_elements-Ends (element _ _ _ _) k = inl refl

pub more_entries-Ends : (r : Entries) (k : Text) → Ends (more_entries r k)
unfolding text_of
more_entries-Ends no_entry k = inr (inr (inl refl))
more_entries-Ends (entry _ _ _ _ _ _ _) k = inl refl

pub read_list-Opens :
    {A : Type 0} (empty : A) (more : Text → Read A) (b s : Text)
    → IsBlank b
    → Opens s
    → read_list 93 empty more (skip (b ++ s)) ≡ more s
unfolding read_list
read_list-Opens empty more b s h (same, (c, r, e, close)) =
    rw (skip-append b s h, same, e, close) refl

-- an element and what follows it
pub read_items_element :
    (v : Json) (r : Items) (f : ℕ) (s behind rest k : Text)
    → IsBlank behind
    → read_value f s ≡ some (v, behind ++ rest)
    → read_next 93 nil (read_items f) (skip rest) ≡ some (r, k)
    → read_items (suc f) s ≡ some (cons v r, k)
unfolding read_items
read_items_element v r f s behind rest k h e e2 = rw (e, skip-append behind rest h, e2) refl

-- the text of an entry behind the blanks in front of it
abbrev pub entry_text : List Glyph → Text → Text → Text → Text
entry_text key colon next s = 34 ∷ glyphs key (34 ∷ (colon ++ 58 ∷ (next ++ s)))

pub read_fields_entry :
    (key : List Glyph) (v : Json) (r : Fields) (f : ℕ) (colon next s behind rest k : Text)
    → All IsGlyph key
    → length key < f
    → IsBlank colon
    → IsBlank next
    → IsBlank behind
    → lookup_field (units_of key) r ≡ none
    → read_value f s ≡ some (v, behind ++ rest)
    → read_next 125 end (read_fields f) (skip rest) ≡ some (r, k)
    → read_fields (suc f) (entry_text key colon next s) ≡ some (field (units_of key) v r, k)
unfolding read_fields
read_fields_entry key v r f colon next s behind rest k hk p hc hn hb new e e2 = rw (
  read_string-glyphs key f (colon ++ 58 ∷ (next ++ s)) hk p,
  skip-append colon (58 ∷ (next ++ s)) hc,
  read_value-append f next s hn,
  e,
  skip-append behind rest hb,
  e2,
  add_field_new (units_of key) v r new,
)

pub read_fields-append : (f : ℕ) (b s : Text) → IsBlank b → read_fields f (b ++ s) ≡ read_fields f s
unfolding read_fields
read_fields-append zero b s h = refl
read_fields-append (suc f) b s h = rw (skip-append b s h) refl

pub read_items-append : (f : ℕ) (b s : Text) → IsBlank b → read_items f (b ++ s) ≡ read_items f s
unfolding read_items
read_items-append zero b s h = refl
read_items-append (suc f) b s h = rw (read_value-append f b s h) refl
