-- ===== src/Json/Parse/RoundTrip.antt =====
-- Strings, written by `JSON.stringify` and read by `JSON.parse`.
use mathlib.Core.Bool.{and-eq-true_iff}
use oort.Prelude.{
  ℕ, zero, suc, ◌/◌, ◌%◌, ◌<◌, ◌≡◌, refl, ap, inl, inr, true, false, ◌&&◌, ◌||◌, some, [], ◌∷◌,
  ◌++◌, append_assoc, arith, ltb, ◌==◌, if◌then◌else◌, ==_iff, ltb→lt, Bool-cases, length, All,
}
use oort.Text.{Text}
use oort.Text.Uri.{is_high, is_low}
use oort.Json.{hex_digit, escape, unicode_escape, escape_unit, escape_all}
use oort.Json.Parse.{read_map, hex_value, read_unicode, read_string}

hex_value-hex_digit : (n : ℕ) → n < 16 → hex_value (hex_digit n) ≡ some n
unfolding hex_value hex_digit
hex_value-hex_digit n h = ground arith

pub read_string-unicode_escape :
    (c f : ℕ) (t : Text)
    → c < 0x10000
    → read_string (suc f) (unicode_escape c ++ t) ≡ read_map (λ u. c ∷ u) (read_string f t)
unfolding read_string read_unicode unicode_escape
read_string-unicode_escape c f t h =
    rw
      (
        hex_value-hex_digit (c / 4096) (omega arith),
        hex_value-hex_digit (c / 256 % 16) (omega arith),
        hex_value-hex_digit (c / 16 % 16) (omega arith),
        hex_value-hex_digit (c % 16) (omega arith),
      )
      (ap (λ (n : ℕ). read_map (λ u. n ∷ u) (read_string f t)) (omega arith))

-- The escape of a control character has two zeros in it.
control : ℕ → Text
control c = 92 ∷ 117 ∷ 48 ∷ 48 ∷ hex_digit (c / 16) ∷ hex_digit (c % 16) ∷ []

read_string-control :
    (c f : ℕ) (t : Text)
    → c < 32
    → read_string (suc f) (control c ++ t) ≡ read_map (λ u. c ∷ u) (read_string f t)
unfolding read_string read_unicode control
read_string-control c f t h =
    rw (hex_value-hex_digit (c / 16) (omega arith), hex_value-hex_digit (c % 16) (omega arith))
      (ap (λ (n : ℕ). read_map (λ u. n ∷ u) (read_string f t)) (omega arith))

-- A character that stands for itself.
pub read_string-plain :
    (c f : ℕ) (t : Text)
    → (c == 34) ≡ false
    → (c == 92) ≡ false
    → ltb c 32 ≡ false
    → read_string (suc f) (c ∷ t) ≡ read_map (λ u. c ∷ u) (read_string f t)
unfolding read_string
read_string-plain c f t p q r = rw (p, q, r)

-- A split on a test for one code unit.
split_eq :
    (Q : Text → Type 0) (c k : ℕ) {x y : Text}
    → (c ≡ k → Q x)
    → ((c == k) ≡ false → Q y)
    → Q (if c == k then x else y)
split_eq Q c k hit miss = elim (Bool-cases (c == k)) [
  | inl e ↦ rw e (hit ((==_iff c k).0 e))
  | inr e ↦ rw e (miss e)
]

-- `u` is read as the one character `c`.
abbrev ReadsAs : ℕ → Text → Type 0
ReadsAs c u =
    (f : ℕ) (t : Text) → read_string (suc f) (u ++ t) ≡ read_map (λ v. c ∷ v) (read_string f t)

escape-ReadsAs : (c : ℕ) → ReadsAs c (escape c)
unfolding escape read_string
escape-ReadsAs c =
    split_eq (ReadsAs c) c 34 (λ e f t. rw e)
      λ quote.
        split_eq (ReadsAs c) c 92 (λ e f t. rw e)
          λ back.
            split_eq (ReadsAs c) c 8 (λ e f t. rw e)
              λ _.
                split_eq (ReadsAs c) c 12 (λ e f t. rw e)
                  λ _.
                    split_eq (ReadsAs c) c 10 (λ e f t. rw e)
                      λ _.
                        split_eq (ReadsAs c) c 13 (λ e f t. rw e)
                          λ _.
                            split_eq (ReadsAs c) c 9 (λ e f t. rw e)
                              λ _ f t. elim (Bool-cases (ltb c 32)) [
                                | inl low ↦
                                    rw low (
                                      unfold control in read_string-control c f t (ltb→lt c 32 low))
                                | inr high ↦ rw high (read_string-plain c f t quote back high)
                              ]

escape_unit-ReadsAs : (c : ℕ) → c < 0x10000 → ReadsAs c (escape_unit c)
unfolding escape_unit
escape_unit-ReadsAs c h = elim (Bool-cases (is_high c || is_low c)) [
  | inl y ↦ rw y (λ f t. read_string-unicode_escape c f t h)
  | inr n ↦ rw n (escape-ReadsAs c)
]

high_plain :
    (c : ℕ) → is_high c ≡ true → ((c == 34) ≡ false) × ((c == 92) ≡ false) × (ltb c 32 ≡ false)
unfolding is_high
high_plain c h = (ground arith, ground arith, ground arith)

low_plain :
    (c : ℕ) → is_low c ≡ true → ((c == 34) ≡ false) × ((c == 92) ≡ false) × (ltb c 32 ≡ false)
unfolding is_low
low_plain c h = (ground arith, ground arith, ground arith)

read_string-pair :
    (c d f : ℕ) (t : Text)
    → (is_high c && is_low d) ≡ true
    → read_string (suc (suc f)) (c ∷ (d ∷ t))
      ≡ read_map (λ u. c ∷ u) (read_map (λ u. d ∷ u) (read_string f t))
read_string-pair c d f t h =
    let (high, low) = (and-eq-true_iff _ _).0 h in
    let (p, q, r) = high_plain c high in
    let (x, y, z) = low_plain d low in
    rw (read_string-plain c (suc f) (d ∷ t) p q r, read_string-plain d f t x y z)

pub read_string-escape_all :
    (s : Text) (f : ℕ) (r : Text)
    → All (λ c. c < 0x10000) s
    → length s < f
    → read_string f (escape_all s ++ 34 ∷ r) ≡ some (s, r)
unfolding escape_all
read_string-escape_all s zero r h p = absurd (omega arith)
read_string-escape_all [] (suc f) r h p = unfold read_string in refl
read_string-escape_all (c ∷ []) (suc f) r h p =
    rw (escape_unit-ReadsAs c h.0 f (34 ∷ r), read_string-escape_all [] f r tt (omega arith))
read_string-escape_all (c ∷ (d ∷ s)) (suc zero) r h p = absurd (omega arith)
read_string-escape_all (c ∷ (d ∷ s)) (suc (suc f)) r h p =
    elim (Bool-cases (is_high c && is_low d)) [
      | inl y ↦ rw (
        y,
        read_string-pair c d f (escape_all s ++ 34 ∷ r) y,
        read_string-escape_all s f r h.1.1 (omega arith),
      )
      | inr n ↦ rw (
        n,
        append_assoc (escape_unit c) (escape_all (d ∷ s)) (34 ∷ r),
        escape_unit-ReadsAs c h.0 (suc f) (escape_all (d ∷ s) ++ 34 ∷ r),
        read_string-escape_all (d ∷ s) (suc f) r h.1 (omega arith),
      )
    ]
