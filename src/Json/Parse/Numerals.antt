-- ===== src/Json/Parse/Numerals.antt =====
-- The decimal text of a whole number.
use oort.Prelude.{
  ℕ, zero, suc, ◌/◌, ◌≤◌, ◌<◌, ◌≡◌, refl, inl, inr, false, none, [], ◌∷◌, arith, ltb, ltb→lt,
  Bool-cases, All,
}
use oort.Text.{Text, lit}
use oort.Json.{digits_of, show}
use oort.Json.Parse.Values.{IsNumeral}
use oort.Json.Parse.Numbers.{spelled-IsNumeral}

abbrev IsDigit : ℕ → Type 0
IsDigit c = (48 ≤ c) × (c ≤ 57)

-- Digits, of which the first is no zero.
abbrev Leads : Text → Type 0
Leads s = (c : ℕ) × (r : Text) × (s ≡ c ∷ r) × (49 ≤ c) × (c ≤ 57) × All IsDigit r

digits_of-Leads :
    (f n : ℕ) (acc : Text) → n < f → 0 < n → All IsDigit acc → Leads (digits_of f n acc)
unfolding digits_of
digits_of-Leads zero n acc p q h = absurd (omega arith)
digits_of-Leads (suc f) n acc p q h = elim (Bool-cases (ltb n 10)) [
  | inl y ↦ let small : n < 10 = ltb→lt n 10 y in rw y (_, _, refl, omega arith, omega arith, h)
  | inr m ↦
      let big : 10 ≤ n = ground arith in
      rw m
        (digits_of-Leads f (n / 10) _ (omega arith) (omega arith) ((omega arith, omega arith), h))
]

-- the numeral of the drafts
pub fifty-IsNumeral : IsNumeral (lit "50")
unfolding lit
fifty-IsNumeral =
    spelled-IsNumeral
      (record {
        minus = false;
        whole = record { lead = 53; more = 48 ∷ [] };
        decimals = none;
        power = none;
      })
      (((omega arith, omega arith), ((omega arith, omega arith), tt)), inl (omega arith), tt, tt)

-- The decimal text of a whole number consists of digits.
pub show-All : (n : ℕ) → All (λ c. (48 ≤ c) × (c ≤ 57)) (show n)
unfolding show
show-All zero = unfold digits_of in ((omega arith, omega arith), tt)
show-All (suc n) =
    let (c, r, e, low, high, h) =
      digits_of-Leads (suc (suc n)) (suc n) [] (omega arith) (omega arith) tt in
    rw e ((omega arith, high), h)
