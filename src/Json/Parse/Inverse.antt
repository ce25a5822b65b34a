-- ===== src/Json/Parse/Inverse.antt =====
-- `JSON.parse` on what `JSON.stringify` writes, for values of any depth.
use oort.Prelude.{
  ℕ, zero, suc, ◌+◌, ◌≤◌, ◌<◌, ◌≡◌, refl, sym, ap, ◌∙◌, inl, inr, true, false, none, some, [], ◌∷◌,
  ◌++◌, append_assoc, append-nil, arith, length,
}
use oort.Text.{Text, CodeUnits, lit}
use oort.Json.{
  Json, null, boolean, number, string, array, object, Items, nil, cons, Fields, end, field,
  lookup_field, stringify, stringify_items, stringify_fields, escape_all,
}
use oort.Json.Parse.{
  Read, is_blank, skip, read_value, read_items, read_fields, read_list, read_next, add_field, parse,
}
use oort.Json.Parse.Values.{
  Starts, Ends, IsPlain, ArePlain, FieldsArePlain, weight, weight_items, weight_fields, weight_le,
}
use oort.Json.Parse.RoundTrip.{read_string-escape_all}

stringify-Starts : (v : Json) → IsPlain v → Starts (stringify v)
unfolding stringify IsPlain is_blank lit
stringify-Starts null h = (_, _, refl, refl, refl)
stringify-Starts (boolean true) h = (_, _, refl, refl, refl)
stringify-Starts (boolean false) h = (_, _, refl, refl, refl)
stringify-Starts (number n) h = h.0
stringify-Starts (string s) h = (_, _, refl, refl, refl)
stringify-Starts (array xs) h = (_, _, refl, refl, refl)
stringify-Starts (object fs) h = (_, _, refl, refl, refl)

read_list_more :
    {A : Type 0} (empty : A) (more : Text → Read A) (s t : Text)
    → Starts s
    → read_list 93 empty more (skip (s ++ t)) ≡ more (s ++ t)
unfolding read_list skip
read_list_more empty more s t (c, r, e, blank, close) = rw (e, blank, close) refl

items-Ends : (r : Items) (t : Text) → Ends (stringify_items false r ++ t)
unfolding stringify
items-Ends nil t = inr (inl refl)
items-Ends (cons v r) t = inl refl

fields-Ends : (r : Fields) (t : Text) → Ends (stringify_fields false r ++ t)
unfolding stringify
fields-Ends end t = inr (inr (inl refl))
fields-Ends (field k v r) t = inl refl

-- an item and what follows it
read_items_cons :
    (v : Json) (r : Items) (f : ℕ) (t : Text)
    → read_value f (stringify v ++ (stringify_items false r ++ t))
      ≡ some (v, stringify_items false r ++ t)
    → read_next 93 nil (read_items f) (skip (stringify_items false r ++ t)) ≡ some (r, t)
    → read_items (suc f) ((stringify v ++ stringify_items false r) ++ t) ≡ some (cons v r, t)
unfolding read_items
read_items_cons v r f t e e2 = rw (append_assoc (stringify v) (stringify_items false r) t, e, e2)

pub add_field_new :
    (k : Text) (v : Json) (r : Fields) → lookup_field k r ≡ none → add_field k v r ≡ field k v r
unfolding add_field
add_field_new k v r e = rw (e, add_field)

-- the text of the entries behind a brace or a comma
abbrev entry_text : Text → Json → Fields → Text
entry_text k v r =
    34 ∷ ((escape_all k ++ 34 ∷ []) ++ (58 ∷ (stringify v ++ stringify_fields false r)))

-- an entry and what follows it
read_fields_field :
    (k : Text) (v : Json) (r : Fields) (f : ℕ) (t : Text)
    → CodeUnits k
    → lookup_field k r ≡ none
    → length k < f
    → read_value f (stringify v ++ (stringify_fields false r ++ t))
      ≡ some (v, stringify_fields false r ++ t)
    → read_next 125 end (read_fields f) (skip (stringify_fields false r ++ t)) ≡ some (r, t)
    → read_fields (suc f) (entry_text k v r ++ t) ≡ some (field k v r, t)
unfolding read_fields
read_fields_field k v r f t h new p e e2 =
    let rest = stringify v ++ stringify_fields false r in
    rw (
      append_assoc (escape_all k ++ 34 ∷ []) (58 ∷ rest) t,
      append_assoc (escape_all k) (34 ∷ []) (58 ∷ (rest ++ t)),
      read_string-escape_all k f (58 ∷ (rest ++ t)) h p,
      append_assoc (stringify v) (stringify_fields false r) t,
      e,
      e2,
      add_field_new k v r new,
    )

mutual
  unfolding stringify weight IsPlain read_value lit

  reads_value :
      (v : Json) (f : ℕ) (t : Text)
      → IsPlain v
      → weight v ≤ f
      → Ends t
      → read_value f (stringify v ++ t) ≡ some (v, t)
  reads_value null zero t h p q = absurd (omega arith)
  reads_value null (suc f) t h p q = refl
  reads_value (boolean b) zero t h p q = absurd (omega arith)
  reads_value (boolean true) (suc f) t h p q = refl
  reads_value (boolean false) (suc f) t h p q = refl
  reads_value (number n) zero t h p q = absurd (omega arith)
  reads_value (number n) (suc f) t h p q = h.1 f t q
  reads_value (string s) zero t h p q = absurd (omega arith)
  reads_value (string s) (suc f) t h p q =
      rw (append_assoc (escape_all s) (34 ∷ []) t, read_string-escape_all s f t h (omega arith))
  reads_value (array xs) zero t h p q = absurd (omega arith)
  reads_value (array nil) (suc f) t h p q = refl
  reads_value (array (cons v r)) (suc zero) t h p q = absurd (omega arith)
  reads_value (array (cons v r)) (suc (suc f)) t h p q = rw (
    append_assoc (stringify v) (stringify_items false r) t,
    read_list_more nil (read_items (suc f)) (stringify v) (stringify_items false r ++ t)
        (stringify-Starts v h.0),
    sym (append_assoc (stringify v) (stringify_items false r) t),
    read_items_cons v r f t (reads_value v f _ h.0 (omega arith) (items-Ends r t))
        (reads_items r f t h.1 (omega arith)),
  )
  reads_value (object fs) zero t h p q = absurd (omega arith)
  reads_value (object end) (suc f) t h p q = refl
  reads_value (object (field k v r)) (suc zero) t h p q = absurd (omega arith)
  reads_value (object (field k v r)) (suc (suc f)) t h p q = rw (
      read_fields_field k v r f t h.0 h.1 (omega arith)
        (reads_value v f _ h.2 (omega arith) (fields-Ends r t))
        (reads_fields r f t h.3 (omega arith)))

  -- behind an item
  reads_items :
      (xs : Items) (f : ℕ) (t : Text)
      → ArePlain xs
      → weight_items xs ≤ f
      → read_next 93 nil (read_items f) (skip (stringify_items false xs ++ t)) ≡ some (xs, t)
  reads_items nil f t h p = refl
  reads_items (cons v r) zero t h p = absurd (omega arith)
  reads_items (cons v r) (suc f) t h p =
      read_items_cons v r f t (reads_value v f _ h.0 (omega arith) (items-Ends r t))
        (reads_items r f t h.1 (omega arith))

  reads_fields :
      (fs : Fields) (f : ℕ) (t : Text)
      → FieldsArePlain fs
      → weight_fields fs ≤ f
      → read_next 125 end (read_fields f) (skip (stringify_fields false fs ++ t)) ≡ some (fs, t)
  reads_fields end f t h p = refl
  reads_fields (field k v r) zero t h p = absurd (omega arith)
  reads_fields (field k v r) (suc f) t h p =
      read_fields_field k v r f t h.0 h.1 (omega arith)
        (reads_value v f _ h.2 (omega arith) (fields-Ends r t))
        (reads_fields r f t h.3 (omega arith))

-- Every value of which the texts and keys consist of 16-bit code units, the keys of each object
-- differ and the numbers are numerals is read back by JSON.parse from the text that JSON.stringify
-- writes.
pub parse-stringify : (v : Json) → IsPlain v → parse (stringify v) ≡ some v
unfolding parse
parse-stringify v h =
    let s = stringify v in
    let f = suc (length s + length s) in
    let e : read_value f s ≡ some (v, []) =
      ap (read_value f) (sym (append-nil s))
      ∙ reads_value v f [] h (omega (arith, weight_le v h)) tt in
    rw e refl
