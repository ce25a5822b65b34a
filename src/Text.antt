-- ===== src/Text.antt =====
-- Strings of JavaScript: lists of UTF-16 code units.
pub mod Walk
pub mod Uri
pub mod Slug
use Prim.Native.Char.{code}
use Prim.Native.String.{String}
use oort.Prelude.{ℕ, ◌≡◌, refl, ◌↔◌, Bool, true, false, ◌&&◌, List, [], ◌∷◌, arith, ◌==◌, ◌<◌, All}

abbrev pub Text : Type 0
Text = List ℕ

-- The code points of a literal, which are its code units: the source's literals lie in the basic
-- multilingual plane.
abbrev codes : String → Text
codes String.[] = []
codes (String.◌∷◌ c s) = code c ∷ codes s

unfoldable pub lit : String → Text
lit s = codes s

-- `===` on strings
unfoldable pub text_eq : Text → Text → Bool
text_eq [] [] = true
text_eq (c ∷ s) (d ∷ t) = c == d && text_eq s t
text_eq _ _ = false

pub text_eq_iff : (s t : Text) → (text_eq s t ≡ true) ↔ (s ≡ t)
unfolding text_eq
text_eq_iff [] [] = ground arith
text_eq_iff [] (_ ∷ _) = ground arith
text_eq_iff (_ ∷ _) [] = ground arith
text_eq_iff (c ∷ s) (d ∷ t) = ground (arith, text_eq_iff s t)

abbrev pub CodeUnits : Text → Type 0
CodeUnits s = All (λ c. c < 0x10000) s
