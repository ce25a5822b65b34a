-- ===== src/Format/Laws.antt =====
-- The units that sizes and times are printed in.
use oort.Prelude.{
  ℕ, zero, suc, ◌+◌, ◌≤◌, ◌<◌, ◌≡◌, refl, ap, ◌∙◌, ◌⊎◌, inl, inr, true, false, ◌&&◌, some, List, [],
  ◌∷◌, ◌++◌, arith, ltb, if◌then◌else◌, ltb→lt, Bool-cases, length,
}
use mathlib.Core.Path.{subst}
use oort.Text.{Text, lit}
use oort.Format.{
  Amount, TimeUnit, second, minute, hour, day, relative, round_div, Floats, units, unit_at, scale,
  format_bytes,
}

-- How far an amount of a unit goes.
abbrev pub InUnit : Amount → TimeUnit → Type 0
InUnit a second = a.size < 60
InUnit a minute = a.size < 60
InUnit a hour = a.size < 24
InUnit a day = 1 ≤ a.size

module _ (fl : Floats) where
  open fl use {Float, from_ℕ, thousandth, at_least, below, to_fixed_1, rounded}

  abbrev pub thousandths : ℕ → Float → Float
  thousandths zero x = x
  thousandths (suc n) x = thousandths n (thousandth x)

  -- The amount was divided `n` times, each time because it was large and a larger unit was left, and
  -- now it is large no more, or no larger unit is left.
  abbrev Scaled : Float → ℕ → Float × ℕ → Type 0
  Scaled x from (y, k) =
      (n : ℕ) × (k ≡ from + n)
      × (k ≤ 3)
      × (y ≡ thousandths n x)
      × ((j : ℕ) → j < n → at_least (thousandths j x) 1000 ≡ true)
      × ((k ≡ 3) ⊎ (at_least y 1000 ≡ false))

  large-suc :
      (x : Float) (n : ℕ)
      → at_least x 1000 ≡ true
      → ((j : ℕ) → j < n → at_least (thousandths j (thousandth x)) 1000 ≡ true)
      → (j : ℕ) → j < suc n
      → at_least (thousandths j x) 1000 ≡ true
  large-suc x n y h zero p = y
  large-suc x n y h (suc j) p = h j (omega arith)

  Scaled-suc :
      (x : Float) (from : ℕ) (r : Float × ℕ)
      → at_least x 1000 ≡ true
      → Scaled (thousandth x) (suc from) r
      → Scaled x from r
  Scaled-suc x from (y, k) large (n, e, b, i, l, s) =
      (suc n, omega arith, b, i, large-suc x n large l, s)

  scale-Scaled :
      (fuel : ℕ) (x : Float) (from : ℕ)
      → from ≤ 3
      → 3 < from + fuel
      → Scaled x from (scale fl fuel x from)
  unfolding scale
  scale-Scaled zero x from p q = absurd (omega arith)
  scale-Scaled (suc fuel) x from p q = elim (Bool-cases (at_least x 1000)) [
    | inr n ↦ rw n (0, omega arith, p, refl, (λ j r. absurd (omega arith)), inr n)
    | inl y ↦ elim (Bool-cases (ltb from 3)) [
      | inl z ↦
          let less = ltb→lt from 3 z in
          rw (y, z)
            (Scaled-suc x from _ y
              (scale-Scaled fuel (thousandth x) (suc from) (omega arith) (omega arith)))
      | inr z ↦
          let last : from ≡ 3 = ground arith in
          rw (y, z) (0, omega arith, p, refl, (λ j r. absurd (omega arith)), inl last)
    ]
  ]

  -- How the digits of an amount are printed: with one decimal for a small amount of a larger unit.
  abbrev IsPrinted : ℕ → Float → Text → Type 0
  IsPrinted k y digits =
      ((1 ≤ k) × (below y 10 ≡ true) × (digits ≡ to_fixed_1 y))
      ⊎ (((k ≡ 0) ⊎ (below y 10 ≡ false)) × (digits ≡ rounded y))

  -- A size is printed as the digits of the amount `y` and a unit, which has `k` smaller units.
  pub record IsSize (value : ℕ) (s : Text) : Type 0 where
    pub k : ℕ
    pub digits : Text
    pub smaller : List Text
    pub unit : Text
    pub greater : List Text
    pub printed : s ≡ digits ++ (lit " " ++ unit)
    pub table : lit "B" ∷ lit "KB" ∷ lit "MB" ∷ lit "GB" ∷ [] ≡ smaller ++ unit ∷ greater
    pub place : length smaller ≡ k
    pub amount : IsPrinted k (thousandths k (from_ℕ value)) digits
    pub large : (j : ℕ) → j < k → at_least (thousandths j (from_ℕ value)) 1000 ≡ true
    pub fits : (greater ≡ []) ⊎ (at_least (thousandths k (from_ℕ value)) 1000 ≡ false)

  -- The place of a unit in the table.
  record Placed (k : ℕ) : Type 0 where
    smaller : List Text
    greater : List Text
    table : units ≡ smaller ++ unit_at units k ∷ greater
    place : length smaller ≡ k
    last : k ≡ 3 → greater ≡ []

  placed : (k : ℕ) → k ≤ 3 → Placed k
  placed zero p = record {
    smaller = [];
    greater = _;
    table = refl;
    place = refl;
    last = λ e. absurd (omega arith);
  }
  placed (suc zero) p = record {
    smaller = lit "B" ∷ [];
    greater = _;
    table = refl;
    place = refl;
    last = λ e. absurd (omega arith);
  }
  placed (suc (suc zero)) p = record {
    smaller = lit "B" ∷ lit "KB" ∷ [];
    greater = _;
    table = refl;
    place = refl;
    last = λ e. absurd (omega arith);
  }
  placed (suc (suc (suc zero))) p = record {
    smaller = lit "B" ∷ lit "KB" ∷ lit "MB" ∷ [];
    greater = [];
    table = refl;
    place = refl;
    last = λ e. refl;
  }
  placed (suc (suc (suc (suc k)))) p = absurd (omega arith)

  digits_of : Float → ℕ → Text
  digits_of y k = if ltb 0 k && below y 10 then to_fixed_1 y else rounded y

  digits_of-IsPrinted : (y : Float) (k : ℕ) → IsPrinted k y (digits_of y k)
  unfolding digits_of
  digits_of-IsPrinted y zero = inr (inl refl, refl)
  digits_of-IsPrinted y (suc k) =
      let more : ltb 0 (suc k) ≡ true = ground arith in
      elim (Bool-cases (below y 10)) [
        | inl z ↦ inl (omega arith, z, rw (more, z) refl)
        | inr z ↦ inr (inr z, rw (more, z) refl)
      ]

  pair-IsSize :
      (value : ℕ) (r : Float × ℕ)
      → Scaled (from_ℕ value) 0 r
      → IsSize value (digits_of r.0 r.1 ++ (lit " " ++ unit_at units r.1))
  pair-IsSize value (y, k) (n, e, bound, divided, large, fits) =
      let at = placed k bound in
      let same_number : n ≡ k = omega (arith, e) in
      let same : y ≡ thousandths k (from_ℕ value) =
        divided ∙ ap (λ j. thousandths j (from_ℕ value)) same_number in
      record {
        k = k;
        digits = digits_of y k;
        smaller = at.smaller;
        unit = unit_at units k;
        greater = at.greater;
        printed = refl;
        table = at.table;
        place = at.place;
        amount = subst (λ x. IsPrinted k x (digits_of y k)) same (digits_of-IsPrinted y k);
        large = λ j p. large j (omega (arith, e));
        fits = elim fits [
          | inl z ↦ inl (at.last z)
          | inr z ↦ inr (subst (λ x. at_least x 1000 ≡ false) same z)
        ];
      }

  -- A size is printed as the digits of an amount and one of the units B, KB, MB and GB. The amount
  -- is the size divided by 1000 once for each smaller unit of the table, each time because it was
  -- 1000 or more; it is less than 1000, or its unit is the last. It has one decimal if its unit is
  -- not the first and it is less than 10, and is rounded otherwise.
  pub format_bytes-IsSize : (value : ℕ) → IsSize value (format_bytes fl (some value))
  unfolding format_bytes digits_of
  format_bytes-IsSize value =
      pair-IsSize value _ (scale-Scaled 4 (from_ℕ value) 0 (omega arith) (omega arith))

round_div-pos : (h : Amount) → ltb h.size 24 ≡ false → 1 ≤ (round_div h 24).size
unfolding round_div
round_div-pos h p = elim (Bool-cases h.past) [
  | inl y ↦ rw y (ground arith)
  | inr n ↦ rw n (ground arith)
]

-- The unit that `relative` chooses.
abbrev unit_of : Amount → Amount → Amount → Amount × TimeUnit
unit_of s m h =
    if ltb s.size 60
    then (s, second)
    else if ltb m.size 60
    then (m, minute)
    else if ltb h.size 24
    then (h, hour)
    else (round_div h 24, day)

unit_of-InUnit : (s m h : Amount) → InUnit (unit_of s m h).0 (unit_of s m h).1
unit_of-InUnit s m h = elim (Bool-cases (ltb s.size 60)) [
  | inl y ↦ rw (y, unit_of) (ltb→lt _ _ y)
  | inr n ↦ elim (Bool-cases (ltb m.size 60)) [
    | inl y ↦ rw (n, y, unit_of) (ltb→lt _ _ y)
    | inr n' ↦ elim (Bool-cases (ltb h.size 24)) [
      | inl y ↦ rw (n, n', y, unit_of) (ltb→lt _ _ y)
      | inr n'' ↦ rw (n, n', n'', unit_of) (round_div-pos h n'')
    ]
  ]
]

-- A time difference is printed in less than 60 seconds, in less than 60 minutes, in less than 24
-- hours, or in at least one day.
relative-InUnit : (ms : Amount) → InUnit (relative ms).0 (relative ms).1
unfolding relative
relative-InUnit ms =
    let s = round_div ms 1000 in let m = round_div s 60 in unit_of-InUnit s m (round_div m 60)
