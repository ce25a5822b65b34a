-- ===== src/Datasets/Laws.antt =====
-- The slug that is proposed for a file.
use oort.Prelude.{
  ℕ, zero, suc, ◌≤◌, ◌≡◌, refl, inl, inr, Bool, true, false, ◌&&◌, [], ◌∷◌, arith, ◌==◌,
  if◌then◌else◌, Bool-cases, length, take, length-take,
}
use oort.Text.{Text}
use oort.Text.Slug.{is_alnum, is_slug_char}
use oort.Datasets.{
  lower_case, strip_extension, dash_runs, drop_leading, drop_trailing, slug_from_filename,
}

-- Only characters of slugs, and no hyphen behind another; `after` says whether a hyphen stands in
-- front.
abbrev SingleDashes : Bool → Text → Type 0
SingleDashes after [] = Unit
SingleDashes after (c ∷ s) =
    (is_slug_char c ≡ true) × ((after && c == 45) ≡ false) × SingleDashes (c == 45) s

-- Nor is a hyphen at the start, and there are at most 63 characters.
pub record IsSlugLike (s : Text) : Type 0 where
  pub dashes : SingleDashes true s
  pub short : length s ≤ 63

alnum-ne_dash : (c : ℕ) → is_alnum c ≡ true → (c == 45) ≡ false
unfolding is_alnum
alnum-ne_dash c h = ground arith

and-false : (b : Bool) → (b && false) ≡ false
and-false true = refl
and-false false = refl

dash_or_none :
    (b : Bool) (s : Text) → SingleDashes true s → SingleDashes b (if b then s else 45 ∷ s)
unfolding is_slug_char
dash_or_none true s h = h
dash_or_none false s h = (refl, refl, h)

dash_runs-SingleDashes : (inside : Bool) (s : Text) → SingleDashes inside (dash_runs inside s)
unfolding dash_runs is_slug_char
dash_runs-SingleDashes inside [] = tt
dash_runs-SingleDashes inside (c ∷ s) = elim (Bool-cases (is_alnum c)) [
  | inl y ↦ rw (y, alnum-ne_dash c y, y) (refl, and-false inside, dash_runs-SingleDashes false s)
  | inr n ↦ rw n (dash_or_none inside _ (dash_runs-SingleDashes true s))
]

drop_leading-SingleDashes : (s : Text) → SingleDashes false s → SingleDashes true (drop_leading s)
unfolding drop_leading
drop_leading-SingleDashes [] h = tt
drop_leading-SingleDashes (c ∷ s) (k, m, h) = elim (Bool-cases (c == 45)) [
  | inl y ↦ rw y (rw y at h)
  | inr n ↦ rw (n, n) (k, refl, rw n at h)
]

drop_trailing-SingleDashes :
    (after : Bool) (s : Text) → SingleDashes after s → SingleDashes after (drop_trailing s)
unfolding drop_trailing
drop_trailing-SingleDashes after [] h = tt
drop_trailing-SingleDashes after (c ∷ []) h = none_or_it (c == 45)
  where
    none_or_it : (b : Bool) → SingleDashes after (if b then [] else c ∷ [])
    none_or_it true = tt
    none_or_it false = h
drop_trailing-SingleDashes after (c ∷ (d ∷ s)) (k, m, h) =
    (k, m, drop_trailing-SingleDashes (c == 45) (d ∷ s) h)

take-SingleDashes :
    (after : Bool) (n : ℕ) (s : Text) → SingleDashes after s → SingleDashes after (take n s)
take-SingleDashes after zero s h = tt
take-SingleDashes after (suc n) [] h = tt
take-SingleDashes after (suc n) (c ∷ s) (k, m, h) = (k, m, take-SingleDashes (c == 45) n s h)

-- Whatever a file is called, the slug proposed for it consists of lowercase letters, digits and
-- hyphens, has no hyphen first or behind another, and has at most 63 characters.
pub slug_from_filename-IsSlugLike : (name : Text) → IsSlugLike (slug_from_filename name)
unfolding slug_from_filename
slug_from_filename-IsSlugLike name =
    let runs = dash_runs false (lower_case (strip_extension name)) in
    record {
      dashes = take-SingleDashes true 63 (drop_trailing (drop_leading runs)) (
          drop_trailing-SingleDashes true (drop_leading runs) (
            drop_leading-SingleDashes runs
              (dash_runs-SingleDashes false (lower_case (strip_extension name)))));
      short = length-take 63 _;
    }
