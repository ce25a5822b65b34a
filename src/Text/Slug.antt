-- ===== src/Text/Slug.antt =====
-- The pattern `[a-z0-9][a-z0-9-]{1,61}[a-z0-9]` of slugs, matched against a whole text.
pub mod Laws
use oort.Prelude.{
  ℕ, zero, suc, ◌+◌, ◌-◌, ◌*◌, ◌/◌, ◌%◌, ◌^◌, ◌≤◌, ◌<◌, ◌≡◌, refl, sym, ap, ◌∙◌, ◌≢◌, ◌↔◌, ◌⊎◌, inl,
  inr, Bool, true, false, not, ◌&&◌, ◌||◌, Option, none, some, List, [], ◌∷◌, ◌++◌, map,
  append_assoc, append-nil, arith, ltb, leb, ◌==◌, if◌then◌else◌, ==_iff, ltb→lt, Bool-cases,
  Option-cases, length, take, head?, find, filter, any, all, length-append, length-take, All,
  All-append,
}
use oort.Text.{Text}

unfoldable pub is_alnum : ℕ → Bool
is_alnum c = (leb 97 c && leb c 122) || (leb 48 c && leb c 57)

unfoldable pub is_slug_char : ℕ → Bool
unfolding is_alnum
is_slug_char c = is_alnum c || c == 45

ends_alnum : Text → Bool
unfolding is_alnum
ends_alnum [] = false
ends_alnum (c ∷ []) = is_alnum c
ends_alnum (c ∷ (d ∷ s)) = ends_alnum (d ∷ s)

starts_alnum : Text → Bool
unfolding is_alnum
starts_alnum [] = false
starts_alnum (c ∷ s) = is_alnum c

-- The pattern has no choice of how to match: its first and last characters are alphanumeric, all
-- are of the alphabet, and there are 3 to 63 of them.
unfoldable pub is_slug : Text → Bool
unfolding is_slug_char ends_alnum starts_alnum
is_slug s =
    starts_alnum s && ends_alnum s && all is_slug_char s && leb 3 (length s) && leb (length s) 63
