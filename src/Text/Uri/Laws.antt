-- ===== src/Text/Uri/Laws.antt =====
-- What `encodeURIComponent` can put into an address.
use oort.Prelude.{
  ℕ, ◌+◌, ◌/◌, ◌%◌, ◌<◌, ◌≡◌, refl, inl, inr, true, false, ◌||◌, Option, none, some, [], ◌∷◌, ◌++◌,
  arith, ltb, ◌==◌, Bool-cases, all, All, All-append,
}
use oort.Text.{Text, CodeUnits}
use oort.Text.Slug.{is_slug, is_slug_char}
use oort.Text.Uri.{
  is_unreserved, upper_hex, percent, escape_point, is_high, is_low, pair_point, encode_unit,
  prepend, encode_uri,
}

-- An unreserved character or the percent sign; so no slash, question mark, hash or space.
abbrev pub IsUriChar : ℕ → Type 0
IsUriChar c = (is_unreserved c || c == 37) ≡ true

abbrev pub IsUri : Text → Type 0
IsUri s = All IsUriChar s

upper_hex-IsUriChar : (n : ℕ) → n < 16 → IsUriChar (upper_hex n)
unfolding upper_hex is_unreserved
upper_hex-IsUriChar n h = ground arith

percent-IsUri : (b : ℕ) → b < 256 → IsUri (percent b)
unfolding percent is_unreserved
percent-IsUri b h = (
  refl,
  (upper_hex-IsUriChar (b / 16) (omega arith), (upper_hex-IsUriChar (b % 16) (omega arith), tt)),
)

percent-IsUri_before : (b : ℕ) (s : Text) → b < 256 → IsUri s → IsUri (percent b ++ s)
percent-IsUri_before b s h k = All-append IsUriChar (percent b) s (percent-IsUri b h) k

-- the last byte, and the last two, of a code point
abbrev tail_byte : ℕ → Text
tail_byte p = percent (0x80 + p % 64)

abbrev tail_bytes : ℕ → Text
tail_bytes p = percent (0x80 + p / 64 % 64) ++ tail_byte p

tail_byte-IsUri : (p : ℕ) → IsUri (tail_byte p)
tail_byte-IsUri p = percent-IsUri (0x80 + p % 64) (omega arith)

tail_bytes-IsUri : (p : ℕ) → IsUri (tail_bytes p)
tail_bytes-IsUri p =
    percent-IsUri_before (0x80 + p / 64 % 64) (tail_byte p) (omega arith) (tail_byte-IsUri p)

escape_point-IsUri : (p : ℕ) → p < 0x110000 → IsUri (escape_point p)
unfolding escape_point
escape_point-IsUri p h = elim (Bool-cases (ltb p 0x80)) [
  | inl one ↦ rw one (percent-IsUri p (ground arith))
  | inr a ↦ rw a (elim (Bool-cases (ltb p 0x800)) [
    | inl two ↦
        rw two
          (percent-IsUri_before (0xc0 + p / 64) (tail_byte p) (ground arith) (tail_byte-IsUri p))
    | inr b ↦ rw b (elim (Bool-cases (ltb p 0x10000)) [
      | inl three ↦ rw three (
          percent-IsUri_before (0xe0 + p / 4096) (tail_bytes p) (ground arith) (tail_bytes-IsUri p))
      | inr c ↦ rw c (
          percent-IsUri_before (0xf0 + p / 262144) (percent (0x80 + p / 4096 % 64) ++ tail_bytes p)
            (omega arith)
            (percent-IsUri_before (0x80 + p / 4096 % 64) (tail_bytes p) (omega arith)
              (tail_bytes-IsUri p)))
    ])
  ])
]

encode_unit-IsUri : (c : ℕ) → c < 0x10000 → IsUri (encode_unit c)
unfolding encode_unit
encode_unit-IsUri c h = elim (Bool-cases (is_unreserved c)) [
  | inl y ↦ rw y (ground arith, tt)
  | inr n ↦ rw n (escape_point-IsUri c (omega arith))
]

-- Every character that `o` holds is one of an address.
abbrev pub Encoded : Option Text → Type 0
Encoded none = Unit
Encoded (some t) = IsUri t

prepend-Encoded : (s : Text) (o : Option Text) → IsUri s → Encoded o → Encoded (prepend s o)
unfolding prepend
prepend-Encoded s none h k = tt
prepend-Encoded s (some t) h k = All-append IsUriChar s t h k

pair_point-lt : (c d : ℕ) → is_high c ≡ true → is_low d ≡ true → pair_point c d < 0x110000
unfolding pair_point is_high is_low
pair_point-lt c d h l = ground arith

-- For a text of 16-bit code units, the result of encodeURIComponent, if there is one, holds only
-- unreserved characters and percent signs.
pub encode_uri-Encoded : (s : Text) → CodeUnits s → Encoded (encode_uri s)
unfolding encode_uri
encode_uri-Encoded [] h = tt
encode_uri-Encoded (c ∷ []) h = elim (Bool-cases (is_high c || is_low c)) [
  | inl y ↦ rw y tt
  | inr n ↦ rw n (encode_unit-IsUri c h.0)
]
encode_uri-Encoded (c ∷ (d ∷ s)) h = elim (Bool-cases (is_high c)) [
  | inl high ↦ elim (Bool-cases (is_low d)) [
    | inl low ↦
        rw (high, low)
          (prepend-Encoded _ (encode_uri s) (escape_point-IsUri _ (pair_point-lt c d high low))
            (encode_uri-Encoded s h.1.1))
    | inr lone ↦ rw (high, lone) tt
  ]
  | inr other ↦ elim (Bool-cases (is_low c)) [
    | inl lone ↦ rw (other, lone) tt
    | inr plain ↦
        rw (other, plain)
          (prepend-Encoded _ (encode_uri (d ∷ s)) (encode_unit-IsUri c h.0)
            (encode_uri-Encoded (d ∷ s) h.1))
  ]
]

slug_char_plain :
    (c : ℕ)
    → is_slug_char c ≡ true
    → (is_unreserved c ≡ true) × (is_high c ≡ false) × (is_low c ≡ false)
unfolding is_slug_char is_unreserved is_high is_low
slug_char_plain c h = (ground arith, ground arith, ground arith)

encode_uri-slug_chars : (s : Text) → all is_slug_char s ≡ true → encode_uri s ≡ some s
unfolding encode_uri
encode_uri-slug_chars [] h = refl
encode_uri-slug_chars (c ∷ []) h =
    let (free, high, low) = slug_char_plain c (ground arith) in rw (high, low, free)
encode_uri-slug_chars (c ∷ (d ∷ s)) h =
    let (free, high, low) = slug_char_plain c (ground arith) in
    rw (high, low, free, encode_uri-slug_chars (d ∷ s) (ground arith))

-- A slug is encoded as itself.
pub encode_uri-slug : (s : Text) → is_slug s ≡ true → encode_uri s ≡ some s
unfolding is_slug
encode_uri-slug s h = encode_uri-slug_chars s (ground arith)
