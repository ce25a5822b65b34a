-- ===== src/Json/Parse/Documents.antt =====
-- `JSON.parse` on a text of JSON in any layout.
use mathlib.Core.Path.{sym, subst}
use oort.Prelude.{
  ℕ, zero, suc, ◌+◌, ◌≤◌, ◌≡◌, refl, ap, ◌∙◌, true, false, some, [], ◌∷◌, ◌++◌, append-nil, arith,
  length, length-append,
}
use oort.Text.{Text, lit}
use oort.Json.{Json, nil, end}
use oort.Json.Parse.{
  is_blank, skip, read_value, read_items, read_fields, read_list, read_next, parse, at_end,
}
use oort.Json.Parse.Values.{Ends}
use oort.Json.Parse.Reading.{
  read_value-append, read_string-glyphs, text_of-Opens, Ends-append, more_elements-Ends,
  more_entries-Ends, read_list-Opens, read_items_element, read_fields_entry, read_fields-append,
  read_items-append, skip-append, entry_text,
}
use oort.Json.Parse.Numbers.{spelled-IsNumeral}
use oort.Json.Parse.Layout.{
  IsBlank, Doc, null_doc, boolean_doc, number_doc, string_doc, array_doc, object_doc, Elements,
  no_element, element, Entries, no_entry, entry, value_of, items_of, fields_of_entries, text_of,
  more_elements, more_entries, IsDoc, AreElements, AreEntries, Says,
}
use oort.Json.Parse.Weights.{weight, weight_elements, weight_entries, weight_le}

mutual
  unfolding text_of weight IsDoc value_of read_value lit skip read_list read_next is_blank

  reads_doc :
      (d : Doc) (f : ℕ) (k : Text)
      → IsDoc d
      → weight d ≤ f
      → Ends k
      → read_value f (text_of d k) ≡ some (value_of d, k)
  reads_doc null_doc zero k h p q = absurd (omega arith)
  reads_doc null_doc (suc f) k h p q = refl
  reads_doc (boolean_doc b) zero k h p q = absurd (omega arith)
  reads_doc (boolean_doc true) (suc f) k h p q = refl
  reads_doc (boolean_doc false) (suc f) k h p q = refl
  reads_doc (number_doc n) zero k h p q = absurd (omega arith)
  reads_doc (number_doc n) (suc f) k h p q = (spelled-IsNumeral n h).1 f k q
  reads_doc (string_doc gs) zero k h p q = absurd (omega arith)
  reads_doc (string_doc gs) (suc f) k h p q = rw (read_string-glyphs gs f k h (omega arith))
  reads_doc (array_doc gap xs) zero k h p q = absurd (omega arith)
  reads_doc (array_doc gap no_element) (suc f) k h p q = rw (skip-append gap (93 ∷ k) h.0) refl
  reads_doc (array_doc gap (element before d behind r)) (suc zero) k h p q = absurd (omega arith)
  reads_doc (array_doc gap (element before d behind r)) (suc (suc f)) k (hg, (hb, hd, ha, hr)) p q =
      let tail = more_elements r k in
      rw (
        read_list-Opens nil (read_items (suc f)) before (text_of d (behind ++ tail)) hb
            (text_of-Opens d (behind ++ tail) hd),
        read_items_element (value_of d) (items_of r) f (text_of d (behind ++ tail)) behind tail k ha
            (reads_doc d f (behind ++ tail) hd (omega arith)
              (Ends-append behind tail ha (more_elements-Ends r k)))
            (reads_elements r f k hr (omega arith)),
      )
  reads_doc (object_doc gap es) zero k h p q = absurd (omega arith)
  reads_doc (object_doc gap no_entry) (suc f) k h p q = rw (skip-append gap (125 ∷ k) h.0) refl
  reads_doc (object_doc gap (entry before key colon next d behind r)) (suc zero) k h p q =
      absurd (omega arith)
  reads_doc (object_doc gap (entry before key colon next d behind r)) (suc (suc f)) k
        (hg, (hb, hk, hc, hn, hd, ha, hr, new)) p q =
      let tail = more_entries r k in
      rw (
        skip-append before (entry_text key colon next (text_of d (behind ++ tail))) hb,
        read_fields_entry key (value_of d) (fields_of_entries r) f colon next
            (text_of d (behind ++ tail)) behind tail k hk (omega arith) hc hn ha new
            (reads_doc d f (behind ++ tail) hd (omega arith)
              (Ends-append behind tail ha (more_entries-Ends r k)))
            (reads_entries r f k hr (omega arith)),
      )

  -- behind an element
  reads_elements :
      (xs : Elements) (f : ℕ) (k : Text)
      → AreElements xs
      → weight_elements xs ≤ f
      → read_next 93 nil (read_items f) (skip (more_elements xs k)) ≡ some (items_of xs, k)
  reads_elements no_element f k h p = refl
  reads_elements (element before d behind r) zero k h p = absurd (omega arith)
  reads_elements (element before d behind r) (suc f) k (hb, hd, ha, hr) p =
      let tail = more_elements r k in
      read_items-append (suc f) before (text_of d (behind ++ tail)) hb
      ∙ read_items_element (value_of d) (items_of r) f (text_of d (behind ++ tail)) behind tail k ha
          (reads_doc d f (behind ++ tail) hd (omega arith)
            (Ends-append behind tail ha (more_elements-Ends r k)))
          (reads_elements r f k hr (omega arith))

  reads_entries :
      (es : Entries) (f : ℕ) (k : Text)
      → AreEntries es
      → weight_entries es ≤ f
      → read_next 125 end (read_fields f) (skip (more_entries es k))
        ≡ some (fields_of_entries es, k)
  reads_entries no_entry f k h p = refl
  reads_entries (entry before key colon next d behind r) zero k h p = absurd (omega arith)
  reads_entries (entry before key colon next d behind r) (suc f) k (hb, hk, hc, hn, hd, ha, hr, new)
        p =
      let tail = more_entries r k in
      read_fields-append (suc f) before (entry_text key colon next (text_of d (behind ++ tail))) hb
      ∙ read_fields_entry key (value_of d) (fields_of_entries r) f colon next
          (text_of d (behind ++ tail)) behind tail k hk (omega arith) hc hn ha new
          (reads_doc d f (behind ++ tail) hd (omega arith)
            (Ends-append behind tail ha (more_entries-Ends r k)))
          (reads_entries r f k hr (omega arith))

skip_all : (b : Text) → IsBlank b → skip b ≡ []
skip_all b h = ap skip (sym (append-nil b)) ∙ skip-append b [] h ∙ unfold skip in refl

blank-Ends : (b : Text) → IsBlank b → Ends b
blank-Ends b h = subst Ends (append-nil b) (Ends-append b [] h tt)

doc_parsed :
    (before : Text) (d : Doc) (behind : Text)
    → IsBlank before
    → IsDoc d
    → IsBlank behind
    → parse (before ++ text_of d behind) ≡ some (value_of d)
unfolding parse at_end
doc_parsed before d behind hb hd ha =
    let s = before ++ text_of d behind in
    let f = suc (length s + length s) in
    let fits : weight d ≤ f =
      omega (arith, weight_le d behind hd, length-append {0} before (text_of d behind)) in
    let e : read_value f s ≡ some (value_of d, behind) =
      read_value-append f before (text_of d behind) hb
      ∙ reads_doc d f behind hd fits (blank-Ends behind ha) in
    rw (e, skip_all behind ha) refl

-- A text of JSON is parsed to what it says.
pub parse-Says : (v : Json) (s : Text) → Says v s → parse s ≡ some v
parse-Says v s (before, d, behind, hb, hd, ha, e, t) =
    ap parse t ∙ doc_parsed before d behind hb hd ha ∙ ap some e
