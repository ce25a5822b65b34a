-- ===== src/Json/Parse/Grammar.antt =====
-- The numerals of JSON: a whole part without a zero in front of other digits, and maybe a fraction
-- and an exponent.
use oort.Prelude.{
  ℕ, ◌≤◌, ◌≡◌, ◌≢◌, ◌⊎◌, Bool, Option, none, some, [], ◌∷◌, ◌++◌, if◌then◌else◌, All,
}
use oort.Text.{Text}

-- digits, at least one
pub record Digits : Type 0 where
  pub lead : ℕ
  pub more : Text

pub data Sign : Type 0 where
  unmarked positive negative : Sign

pub record Power : Type 0 where
  pub capital : Bool
  pub sign : Sign
  pub digits : Digits

pub record Numeral : Type 0 where
  pub minus : Bool
  pub whole : Digits
  pub decimals : Option Digits
  pub power : Option Power

abbrev pub digits_text : Digits → Text
digits_text d = d.lead ∷ d.more

abbrev pub sign_text : Sign → Text
sign_text unmarked = []
sign_text positive = 43 ∷ []
sign_text negative = 45 ∷ []

abbrev pub decimals_text : Option Digits → Text
decimals_text none = []
decimals_text (some d) = 46 ∷ digits_text d

abbrev pub power_text : Option Power → Text
power_text none = []
power_text (some p) = (if p.capital then 69 else 101) ∷ (sign_text p.sign ++ digits_text p.digits)

abbrev pub spelled : Numeral → Text
spelled n =
    (if n.minus then 45 ∷ [] else [])
    ++ (digits_text n.whole ++ (decimals_text n.decimals ++ power_text n.power))

abbrev pub IsDigit : ℕ → Type 0
IsDigit c = (48 ≤ c) × (c ≤ 57)

abbrev pub AreDigits : Digits → Type 0
AreDigits d = IsDigit d.lead × All IsDigit d.more

abbrev pub IsDecimals : Option Digits → Type 0
IsDecimals none = Unit
IsDecimals (some d) = AreDigits d

abbrev pub IsPower : Option Power → Type 0
IsPower none = Unit
IsPower (some p) = AreDigits p.digits

abbrev pub IsNumber : Numeral → Type 0
IsNumber n =
    AreDigits n.whole
    × ((n.whole.lead ≢ 48) ⊎ (n.whole.more ≡ []))
    × IsDecimals n.decimals
    × IsPower n.power
