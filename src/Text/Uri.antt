-- ===== src/Text/Uri.antt =====
-- `encodeURIComponent`, and the alphabet of its results.
pub mod Laws
use oort.Prelude.{
  ℕ, zero, suc, ◌+◌, ◌-◌, ◌*◌, ◌/◌, ◌%◌, ◌≤◌, ◌<◌, ◌≡◌, refl, Bool, true, false, ◌&&◌, ◌||◌, List,
  [], ◌∷◌, ◌++◌, Option, none, some, ltb, leb, ◌==◌, if◌then◌else◌, All, All-append, arith,
}
use oort.Text.{Text}

-- letters, digits and - _ . ! ~ * ' ( )
unfoldable pub is_unreserved : ℕ → Bool
is_unreserved c =
    (leb 97 c && leb c 122)
    || (leb 65 c && leb c 90)
    || (leb 48 c && leb c 57)
    || c == 45
    || c == 95
    || c == 46
    || c == 33
    || c == 126
    || c == 42
    || c == 39
    || c == 40
    || c == 41

upper_hex : ℕ → ℕ
upper_hex n = if ltb n 10 then 48 + n else 55 + n

-- `%XY` for one byte
percent : ℕ → Text
unfolding upper_hex
percent b = 37 ∷ upper_hex (b / 16) ∷ upper_hex (b % 16) ∷ []

-- the UTF-8 bytes of a code point, as percent escapes
escape_point : ℕ → Text
unfolding percent
escape_point p =
    if ltb p 0x80
    then percent p
    else if ltb p 0x800
    then percent (0xc0 + p / 64) ++ percent (0x80 + p % 64)
    else if ltb p 0x10000
    then percent (0xe0 + p / 4096) ++ (percent (0x80 + p / 64 % 64) ++ percent (0x80 + p % 64))
    else percent (0xf0 + p / 262144)
      ++ (percent (0x80 + p / 4096 % 64)
          ++ (percent (0x80 + p / 64 % 64) ++ percent (0x80 + p % 64)))

unfoldable pub is_high : ℕ → Bool
is_high c = leb 0xd800 c && leb c 0xdbff

unfoldable pub is_low : ℕ → Bool
is_low c = leb 0xdc00 c && leb c 0xdfff

pair_point : ℕ → ℕ → ℕ
pair_point h l = 0x10000 + (h - 0xd800) * 1024 + (l - 0xdc00)

-- a code unit that is no surrogate
encode_unit : ℕ → Text
unfolding escape_point is_unreserved
encode_unit c = if is_unreserved c then c ∷ [] else escape_point c

prepend : Text → Option Text → Option Text
prepend s none = none
prepend s (some t) = some (s ++ t)

-- `none` is the `URIError` of a surrogate without its partner.
unfoldable pub encode_uri : Text → Option Text
unfolding encode_unit prepend is_high is_low pair_point
encode_uri [] = some []
encode_uri (c ∷ []) = if is_high c || is_low c then none else some (encode_unit c)
encode_uri (c ∷ (d ∷ s)) =
    let single = prepend (encode_unit c) (encode_uri (d ∷ s)) in
    let paired = prepend (escape_point (pair_point c d)) (encode_uri s) in
    if is_high c then (if is_low d then paired else none) else if is_low c then none else single
