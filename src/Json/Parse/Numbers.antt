-- ===== src/Json/Parse/Numbers.antt =====
-- `JSON.parse` on the numerals of JSON.
use oort.Prelude.{
  ℕ, suc, ◌≡◌, refl, sym, ap, ◌∙◌, ◌≢◌, ◌⊎◌, inl, inr, true, false, ◌&&◌, ◌||◌, Option, none, some,
  [], ◌∷◌, ◌++◌, append_assoc, arith, leb, ◌==◌, Bool-cases, All,
}
use oort.Text.{Text}
use oort.Json.{number, Items, Fields}
use oort.Json.Parse.{
  Read, is_blank, skip, read_map, take_digits, some_digits, starts_zero, whole_part, fraction,
  signed_digits, exponent, unsigned, read_number, read_value, read_value_at,
}
use oort.Json.Parse.Values.{Ends, IsNumeral}
use oort.Json.Parse.Grammar.{
  Digits, Sign, unmarked, positive, negative, Power, Numeral, digits_text, sign_text, decimals_text,
  power_text, spelled, IsDigit, AreDigits, IsDecimals, IsPower, IsNumber,
}

-- No digit comes first, and no point.
abbrev NoDigit : Text → Type 0
NoDigit [] = Unit
NoDigit (c ∷ t) = (leb 48 c && leb c 57) ≡ false

abbrev NoPoint : Text → Type 0
NoPoint [] = Unit
NoPoint (c ∷ t) = (c == 46) ≡ false

digit_test : (c : ℕ) → IsDigit c → (leb 48 c && leb c 57) ≡ true
digit_test c d = ground (arith, d)

Ends-NoDigit : (t : Text) → Ends t → NoDigit t
unfolding is_blank
Ends-NoDigit [] q = tt
Ends-NoDigit (c ∷ t) q = ground (arith, q)

Ends-NoPoint : (t : Text) → Ends t → NoPoint t
unfolding is_blank
Ends-NoPoint [] q = tt
Ends-NoPoint (c ∷ t) q = ground (arith, q)

power_text-NoDigit : (o : Option Power) (t : Text) → Ends t → NoDigit (power_text o ++ t)
power_text-NoDigit none t q = Ends-NoDigit t q
power_text-NoDigit (some p) t q = elim (Bool-cases p.capital) [
  | inl y ↦ rw y refl
  | inr n ↦ rw n refl
]

power_text-NoPoint : (o : Option Power) (t : Text) → Ends t → NoPoint (power_text o ++ t)
power_text-NoPoint none t q = Ends-NoPoint t q
power_text-NoPoint (some p) t q = elim (Bool-cases p.capital) [
  | inl y ↦ rw y refl
  | inr n ↦ rw n refl
]

decimals_text-NoDigit : (o : Option Digits) (t : Text) → NoDigit t → NoDigit (decimals_text o ++ t)
decimals_text-NoDigit none t q = q
decimals_text-NoDigit (some d) t q = refl

take_digits-append : (s t : Text) → All IsDigit s → NoDigit t → take_digits (s ++ t) ≡ (s, t)
unfolding take_digits
take_digits-append [] [] h q = refl
take_digits-append [] (c ∷ t) h q = rw q refl
take_digits-append (d ∷ s) t (p, h) q = rw (digit_test d p, take_digits-append s t h q) refl

abbrev behind : Text × Text → Read Text
behind p = elim p.0 [ [] ↦ none | d ∷ ds ↦ some (d ∷ ds, p.1) ]

some_digits-append :
    (d : Digits) (t : Text)
    → AreDigits d
    → NoDigit t
    → some_digits (digits_text d ++ t) ≡ some (digits_text d, t)
unfolding some_digits
some_digits-append d t h q =
    let e : take_digits (digits_text d ++ t) ≡ (digits_text d, t) =
      take_digits-append (digits_text d) t h q in
    ap (λ (p : Text × Text). behind p) e

zero_alone : (c : ℕ) (m : Text) → (c ≢ 48) ⊎ (m ≡ []) → starts_zero (c ∷ m) ≡ false
unfolding starts_zero
zero_alone c [] z = refl
zero_alone c (x ∷ m) (inl z) = ground (arith, z)
zero_alone c (x ∷ m) (inr z) = absurd cc

whole_part-append :
    (d : Digits) (t : Text)
    → AreDigits d
    → (d.lead ≢ 48) ⊎ (d.more ≡ [])
    → NoDigit t
    → whole_part (digits_text d ++ t) ≡ some (digits_text d, t)
unfolding whole_part
whole_part-append d t h z q = rw (some_digits-append d t h q, zero_alone d.lead d.more z) refl

fraction-append :
    (o : Option Digits) (t : Text)
    → IsDecimals o
    → NoDigit t
    → NoPoint t
    → fraction (decimals_text o ++ t) ≡ some (decimals_text o, t)
unfolding fraction
fraction-append none [] h q n = refl
fraction-append none (c ∷ t) h q n = rw n refl
fraction-append (some d) t h q n = ap (read_map (λ u. 46 ∷ u)) (some_digits-append d t h q)

signed_digits-append :
    (s : Sign) (d : Digits) (t : Text)
    → AreDigits d
    → NoDigit t
    → signed_digits (sign_text s ++ (digits_text d ++ t)) ≡ some (sign_text s ++ digits_text d, t)
unfolding signed_digits
signed_digits-append unmarked d t h q =
    let other : (d.lead == 43 || d.lead == 45) ≡ false = ground (arith, h.0) in
    rw other (some_digits-append d t h q)
signed_digits-append positive d t h q = ap (read_map (λ u. 43 ∷ u)) (some_digits-append d t h q)
signed_digits-append negative d t h q = ap (read_map (λ u. 45 ∷ u)) (some_digits-append d t h q)

-- behind the letter of an exponent
signed_power :
    (s : Sign) (d : Digits) (t : Text)
    → AreDigits d
    → Ends t
    → signed_digits ((sign_text s ++ digits_text d) ++ t) ≡ some (sign_text s ++ digits_text d, t)
signed_power s d t h q =
    ap signed_digits (append_assoc (sign_text s) (digits_text d) t)
    ∙ signed_digits-append s d t h (Ends-NoDigit t q)

exponent-append :
    (o : Option Power) (t : Text)
    → IsPower o
    → Ends t
    → exponent (power_text o ++ t) ≡ some (power_text o, t)
unfolding exponent is_blank
exponent-append none [] h q = refl
exponent-append none (c ∷ t) h q =
    let other : (c == 101 || c == 69) ≡ false = ground (arith, q) in rw other refl
exponent-append (some p) t h q = elim (Bool-cases p.capital) [
  | inl y ↦ rw y (ap (read_map (λ u. 69 ∷ u)) (signed_power p.sign p.digits t h q))
  | inr n ↦ rw n (ap (read_map (λ u. 101 ∷ u)) (signed_power p.sign p.digits t h q))
]

-- the text of a numeral behind its minus
abbrev magnitude : Numeral → Text
magnitude n = digits_text n.whole ++ (decimals_text n.decimals ++ power_text n.power)

magnitude-append :
    (n : Numeral) (t : Text)
    → magnitude n ++ t
      ≡ digits_text n.whole ++ (decimals_text n.decimals ++ (power_text n.power ++ t))
magnitude-append n t =
    append_assoc (digits_text n.whole) (decimals_text n.decimals ++ power_text n.power) t
    ∙ ap (λ s. digits_text n.whole ++ s)
        (append_assoc (decimals_text n.decimals) (power_text n.power) t)

unsigned-append :
    (n : Numeral) (t : Text)
    → IsNumber n
    → Ends t
    → unsigned (magnitude n ++ t) ≡ some (magnitude n, t)
unfolding unsigned
unsigned-append n t (hw, z, hd, hp) q =
    let rest = power_text n.power ++ t in
    let digit = power_text-NoDigit n.power t q in
    ap unsigned (magnitude-append n t)
    ∙ rw
        (
          whole_part-append n.whole (decimals_text n.decimals ++ rest) hw z
              (decimals_text-NoDigit n.decimals rest digit),
          fraction-append n.decimals rest hd digit (power_text-NoPoint n.power t q),
          exponent-append n.power t hp q,
        )
        refl

-- A value that begins with a digit or a minus is a number.
number_first :
    (items : Text → Read Items) (fields : Text → Read Fields) (str : Text → Read Text) (c : ℕ)
    (s : Text)
    → IsDigit c ⊎ (c ≡ 45)
    → read_value_at items fields str (c ∷ s) ≡ read_number (c ∷ s)
unfolding read_value_at
number_first items fields str c s d = ground (arith, d)

read_number-append :
    (n : Numeral) (t : Text)
    → IsNumber n
    → Ends t
    → read_number (spelled n ++ t) ≡ some (number (spelled n), t)
unfolding read_number
read_number-append n t h q = elim (Bool-cases n.minus) [
  | inl y ↦
      rw y (
        ap (λ (o : Read Text). read_map number (read_map (λ u. 45 ∷ u) o))
          (unsigned-append n t h q))
  | inr m ↦
      let other : (n.whole.lead == 45) ≡ false = ground (arith, h.0.0) in
      rw (m, other) (ap (read_map number) (unsigned-append n t h q))
]

-- What a numeral begins with.
abbrev Begins : Text → Type 0
Begins s = (c : ℕ) × (r : Text) × (s ≡ c ∷ r) × (IsDigit c ⊎ (c ≡ 45))

spelled-Begins : (n : Numeral) → IsNumber n → Begins (spelled n)
spelled-Begins n h = elim (Bool-cases n.minus) [
  | inl y ↦ rw y (45, magnitude n, refl, inr refl)
  | inr m ↦ rw m (n.whole.lead, _, refl, inl h.0.0)
]

not_blank : (c : ℕ) → IsDigit c ⊎ (c ≡ 45) → is_blank c ≡ false
unfolding is_blank
not_blank c d = ground (arith, d)

read_value_number :
    (f c : ℕ) (s : Text) → IsDigit c ⊎ (c ≡ 45) → read_value (suc f) (c ∷ s) ≡ read_number (c ∷ s)
unfolding read_value skip
read_value_number f c s d = rw (not_blank c d, number_first _ _ _ c s d) refl

-- Every number of the grammar is read back.
pub spelled-IsNumeral : (n : Numeral) → IsNumber n → IsNumeral (spelled n)
spelled-IsNumeral n h =
    let (c, r, e, d) = spelled-Begins n h in
    (
      (c, r, e, not_blank c d, ground (arith, d)),
      λ f t q.
          let e2 : spelled n ++ t ≡ c ∷ (r ++ t) = ap (λ s. s ++ t) e in
          ap (read_value (suc f)) e2
          ∙ read_value_number f c (r ++ t) d
          ∙ ap read_number (sym e2)
          ∙ read_number-append n t h q,
    )
