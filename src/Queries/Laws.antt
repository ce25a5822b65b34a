-- ===== src/Queries/Laws.antt =====
-- What the drafts of saved queries hold.
use oort.Prelude.{
  ◌≡◌, refl, ◌≢◌, inl, inr, Option, none, some, List, [], ◌∷◌, arith, Bool-cases, All,
}
use oort.Text.{Text, CodeUnits, text_eq, text_eq_iff, lit}
use oort.Json.{object, Fields, lookup_field, stringify}
use oort.Json.Parse.Numerals.{fifty-IsNumeral}
use oort.Json.Parse.Values.{IsPlain, FieldsArePlain}
use oort.Json.Parse.Inverse.{parse-stringify}
use oort.Api.{QueryRevision, Dataset}
use oort.Queries.{
  default_value, default_parameters, draft_for, draft_of, find_query, read_parameters,
}

-- Each key differs from the later ones, as the keys of an object do.
abbrev pub IsRecord : List (Text × Text) → Type 0
IsRecord [] = Unit
IsRecord ((k, type) ∷ r) = CodeUnits k × All (λ e. e.0 ≢ k) r × IsRecord r

lookup_field-default :
    (k : Text) (types : List (Text × Text))
    → All (λ e. e.0 ≢ k) types
    → lookup_field k (default_parameters types) ≡ none
unfolding lookup_field
lookup_field-default k [] h = refl
lookup_field-default k ((j, type) ∷ r) (p, h) =
    ground (arith, lookup_field-default k r h, text_eq_iff j k)

default_value-IsPlain : (type : Text) → IsPlain (default_value type)
unfolding IsPlain
default_value-IsPlain type = elim (Bool-cases (text_eq type (lit "boolean"))) [
  | inl b ↦ rw b tt
  | inr b ↦ rw b (elim (Bool-cases (text_eq type (lit "string"))) [
    | inl s ↦ rw s tt
    | inr s ↦ rw s fifty-IsNumeral
  ])
]

default_parameters-ArePlain :
    (types : List (Text × Text)) → IsRecord types → FieldsArePlain (default_parameters types)
unfolding IsPlain
default_parameters-ArePlain [] h = tt
default_parameters-ArePlain ((k, type) ∷ r) (units, new, h) = (
  units,
  lookup_field-default k r new,
  default_value-IsPlain type,
  default_parameters-ArePlain r h,
)

read_parameters-object :
    (fs : Fields) → FieldsArePlain fs → read_parameters (stringify (object fs)) ≡ some (object fs)
unfolding read_parameters stringify IsPlain
read_parameters-object fs h = parse-stringify (object fs) h

-- If the selected query is found, and the names of its parameters are distinct texts of 16-bit code
-- units, then its draft has the name and the text of that query, and its parameters are read back
-- as the defaults of the declared types.
pub draft_for_saved :
    (queries : List QueryRevision) (datasets : List Dataset) (slug : Option Text)
    (q : QueryRevision)
    → find_query slug queries ≡ some q
    → IsRecord q.parameter_types
    → ((draft_for queries datasets slug).name ≡ q.slug)
      × ((draft_for queries datasets slug).sql ≡ q.sql)
      × (read_parameters (draft_for queries datasets slug).parameters
          ≡ some (object (default_parameters q.parameter_types)))
unfolding draft_for draft_of
draft_for_saved queries datasets slug q e h =
    rw (e, draft_of)
      (
        refl,
        refl,
        read_parameters-object (default_parameters q.parameter_types)
            (default_parameters-ArePlain q.parameter_types h),
      )
