-- ===== src/Text/Walk.antt =====
-- The string methods that the program calls, over code units.
use oort.Prelude.{
  ℕ, ◌+◌, Bool, true, false, ◌&&◌, ◌||◌, List, [], ◌∷◌, ◌++◌, leb, ◌==◌, if◌then◌else◌,
}
use mathlib.Core.List.{reverse}
use oort.Text.{Text}

-- the white space that `trim` removes
unfoldable pub is_space : ℕ → Bool
is_space c =
    (leb 9 c && leb c 13)
    || c == 32
    || c == 160
    || c == 0x1680
    || (leb 0x2000 c && leb c 0x200a)
    || c == 0x2028
    || c == 0x2029
    || c == 0x202f
    || c == 0x205f
    || c == 0x3000
    || c == 0xfeff

unfoldable pub trim_start : Text → Text
unfolding is_space
trim_start [] = []
trim_start (c ∷ s) = let rest = trim_start s in if is_space c then rest else c ∷ s

unfoldable pub trim : Text → Text
unfolding trim_start
trim s = reverse (trim_start (reverse (trim_start s)))

-- `split` by one code unit: never the empty array
unfoldable pub split_on : ℕ → Text → Text → List Text
split_on d cur [] = reverse cur ∷ []
split_on d cur (c ∷ s) =
    let closed = split_on d [] s in
    let longer = split_on d (c ∷ cur) s in if c == d then reverse cur ∷ closed else longer

unfoldable pub split : ℕ → Text → List Text
unfolding split_on
split d s = split_on d [] s

-- `replaceAll` of one code unit by a text
unfoldable pub replace_all : ℕ → Text → Text → Text
replace_all d by [] = []
replace_all d by (c ∷ s) = (if c == d then by else c ∷ []) ++ replace_all d by s

unfoldable pub join : Text → List Text → Text
join sep [] = []
join sep (x ∷ []) = x
join sep (x ∷ (y ∷ r)) = x ++ (sep ++ join sep (y ∷ r))

unfoldable pub starts_with : Text → Text → Bool
starts_with s [] = true
starts_with [] (d ∷ t) = false
starts_with (c ∷ s) (d ∷ t) = c == d && starts_with s t

unfoldable pub ends_with : Text → Text → Bool
unfolding starts_with
ends_with s t = starts_with (reverse s) (reverse t)

-- `toLowerCase` of one code unit. Beyond ASCII the letter is left as it is.
unfoldable pub lower : ℕ → ℕ
lower c = if leb 65 c && leb c 90 then c + 32 else c
