-- ===== src/Json/Parse/Weights.antt =====
-- The fuel that reading a text of JSON takes, and the room for it.
use oort.Prelude.{ℕ, ◌+◌, ◌*◌, ◌≤◌, true, false, List, [], ◌∷◌, ◌++◌, arith, length, length-append}
use oort.Text.{Text, lit}
use oort.Json.{unicode_escape}
use oort.Json.Parse.Values.{IsNumeral}
use oort.Json.Parse.Grammar.{spelled}
use oort.Json.Parse.Numbers.{spelled-IsNumeral}
use oort.Json.Parse.Layout.{
  Glyph, plain, short, coded, glyphs, Doc, null_doc, boolean_doc, number_doc, string_doc, array_doc,
  object_doc, Elements, no_element, element, Entries, no_entry, entry, text_of, more_elements,
  more_entries, IsDoc, AreElements, AreEntries,
}

-- the fuel that reading takes
unfoldable mutual
  pub weight : Doc → ℕ
  weight null_doc = 1
  weight (boolean_doc b) = 1
  weight (number_doc n) = 1
  weight (string_doc gs) = 2 + length gs
  weight (array_doc gap xs) = 1 + weight_elements xs
  weight (object_doc gap es) = 1 + weight_entries es

  pub weight_elements : Elements → ℕ
  weight_elements no_element = 0
  weight_elements (element before d behind r) = 1 + weight d + weight_elements r

  pub weight_entries : Entries → ℕ
  weight_entries no_entry = 0
  weight_entries (entry before key colon next d behind r) =
      3 + length key + weight d + weight_entries r

length-Starts : (n : Text) → IsNumeral n → 1 ≤ length n
length-Starts n ((c, r, e, x, y), h) = rw e (omega arith)

length-glyphs : (gs : List Glyph) (k : Text) → length gs + length k ≤ length (glyphs gs k)
unfolding unicode_escape
length-glyphs [] k = omega arith
length-glyphs (plain c ∷ gs) k = omega (arith, length-glyphs gs k)
length-glyphs (short s ∷ gs) k = omega (arith, length-glyphs gs k)
length-glyphs (coded c ∷ gs) k = omega (arith, length-glyphs gs k)

-- The text of a value leaves room for the fuel.
mutual
  unfolding text_of weight IsDoc lit

  pub weight_le :
      (d : Doc) (k : Text) → IsDoc d → weight d + 2 * length k ≤ 2 * length (text_of d k)
  weight_le null_doc k h = omega arith
  weight_le (boolean_doc true) k h = omega arith
  weight_le (boolean_doc false) k h = omega arith
  weight_le (number_doc n) k h =
      omega
        (arith, length-append {0} (spelled n) k, length-Starts (spelled n) (spelled-IsNumeral n h))
  weight_le (string_doc gs) k h = omega (arith, length-glyphs gs (34 ∷ k))
  weight_le (array_doc gap no_element) k h = omega (arith, length-append {0} gap (93 ∷ k))
  weight_le (array_doc gap (element before d behind r)) k (hg, (hb, hd, ha, hr)) =
      let tail = more_elements r k in
      omega (
        arith,
        length-append {0} before (text_of d (behind ++ tail)),
        weight_le d (behind ++ tail) hd,
        length-append {0} behind tail,
        weight_elements_le r k hr,
      )
  weight_le (object_doc gap no_entry) k h = omega (arith, length-append {0} gap (125 ∷ k))
  weight_le (object_doc gap (entry before key colon next d behind r)) k
        (hg, (hb, hk, hc, hn, hd, ha, hr, new)) =
      let tail = more_entries r k in
      let rest = colon ++ 58 ∷ (next ++ text_of d (behind ++ tail)) in
      omega (
        arith,
        length-append {0} before (34 ∷ glyphs key (34 ∷ rest)),
        length-glyphs key (34 ∷ rest),
        length-append {0} colon (58 ∷ (next ++ text_of d (behind ++ tail))),
        length-append {0} next (text_of d (behind ++ tail)),
        weight_le d (behind ++ tail) hd,
        length-append {0} behind tail,
        weight_entries_le r k hr,
      )

  weight_elements_le :
      (xs : Elements) (k : Text)
      → AreElements xs
      → 1 + weight_elements xs + 2 * length k ≤ 2 * length (more_elements xs k)
  weight_elements_le no_element k h = omega arith
  weight_elements_le (element before d behind r) k (hb, hd, ha, hr) =
      let tail = more_elements r k in
      omega (
        arith,
        length-append {0} before (text_of d (behind ++ tail)),
        weight_le d (behind ++ tail) hd,
        length-append {0} behind tail,
        weight_elements_le r k hr,
      )

  weight_entries_le :
      (es : Entries) (k : Text)
      → AreEntries es
      → 1 + weight_entries es + 2 * length k ≤ 2 * length (more_entries es k)
  weight_entries_le no_entry k h = omega arith
  weight_entries_le (entry before key colon next d behind r) k (hb, hk, hc, hn, hd, ha, hr, new) =
      let tail = more_entries r k in
      let rest = colon ++ 58 ∷ (next ++ text_of d (behind ++ tail)) in
      omega (
        arith,
        length-append {0} before (34 ∷ glyphs key (34 ∷ rest)),
        length-glyphs key (34 ∷ rest),
        length-append {0} colon (58 ∷ (next ++ text_of d (behind ++ tail))),
        length-append {0} next (text_of d (behind ++ tail)),
        weight_le d (behind ++ tail) hd,
        length-append {0} behind tail,
        weight_entries_le r k hr,
      )
