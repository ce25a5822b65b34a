-- ===== src/Text/Slug/Laws.antt =====
-- The test for slugs and the regular expression that the source writes.
use mathlib.Core.Path.{subst}
use oort.Prelude.{
  ℕ, suc, ◌≤◌, ◌≡◌, refl, sym, ap, ◌∙◌, ◌↔◌, Bool, true, false, ◌&&◌, [], ◌∷◌, ◌++◌, arith, leb,
  length, all, length-append, All, All-append,
}
use oort.Text.{Text}
use oort.Text.Slug.{is_alnum, is_slug_char, ends_alnum, starts_alnum, is_slug}

-- The regular expressions of the pattern: a character of a class, between `lo` and `hi` characters of
-- a class, and one expression behind another.
pub data Regex : Type 0 where
  one : (ℕ → Bool) → Regex
  between : (ℕ → Bool) → ℕ → ℕ → Regex
  behind : Regex → Regex → Regex

-- what it means that an expression matches a whole text
abbrev pub Matches : Regex → Text → Type 0
Matches (one p) s = (c : ℕ) × (s ≡ c ∷ []) × (p c ≡ true)
Matches (between p lo hi) s = (lo ≤ length s) × (length s ≤ hi) × All (λ c. p c ≡ true) s
Matches (behind r q) s = (u : Text) × (v : Text) × (s ≡ u ++ v) × Matches r u × Matches q v

-- `[a-z0-9][a-z0-9-]{1,61}[a-z0-9]`
abbrev pub slug_pattern : Regex
slug_pattern = behind (one is_alnum) (behind (between is_slug_char 1 61) (one is_alnum))

all-All : (s : Text) → (all is_slug_char s ≡ true) ↔ All (λ c. is_slug_char c ≡ true) s
all-All [] = ((λ _. tt), λ _. refl)
all-All (c ∷ s) = (
  (λ h. (ground (arith, h), (all-All s).0 (ground (arith, h)))),
  λ h. ground (arith, h.0, (all-All s).1 (h.1)),
)

alnum_slug_char : (c : ℕ) → is_alnum c ≡ true → is_slug_char c ≡ true
unfolding is_slug_char
alnum_slug_char c h = rw h refl

-- a text that ends in an alphanumeric character, cut before it
split_last :
    (s : Text)
    → ends_alnum s ≡ true
    → (u : Text) × (c : ℕ) × (s ≡ u ++ c ∷ []) × (is_alnum c ≡ true)
unfolding ends_alnum
split_last [] h = cc
split_last (c ∷ []) h = ([], c, refl, h)
split_last (c ∷ (d ∷ s)) h =
    let (u, e, q, k) = split_last (d ∷ s) h in (c ∷ u, e, ap (λ t. c ∷ t) q, k)

ends_last : (u : Text) (c : ℕ) → is_alnum c ≡ true → ends_alnum (u ++ c ∷ []) ≡ true
unfolding ends_alnum
ends_last [] c h = h
ends_last (d ∷ []) c h = h
ends_last (d ∷ (e ∷ u)) c h = ends_last (e ∷ u) c h

ends_tail : (c d : ℕ) (s : Text) → ends_alnum (c ∷ (d ∷ s)) ≡ true → ends_alnum (d ∷ s) ≡ true
unfolding ends_alnum
ends_tail c d s h = h

All-before : (P : ℕ → Type 0) (u v : Text) → All P (u ++ v) → All P u
All-before P [] v h = tt
All-before P (c ∷ u) v (p, h) = (p, All-before P u v h)

conjuncts :
    (a b c d e : Bool)
    → (a && b && c && d && e) ≡ true
    → (a ≡ true) × (b ≡ true) × (c ≡ true) × (d ≡ true) × (e ≡ true)
conjuncts true true true true true h = (refl, refl, refl, refl, refl)
conjuncts true true true true false h = cc
conjuncts true true true false e h = cc
conjuncts true true false d e h = cc
conjuncts true false c d e h = cc
conjuncts false b c d e h = cc

all_five :
    (a b c d e : Bool)
    → a ≡ true
    → b ≡ true
    → c ≡ true
    → d ≡ true
    → e ≡ true
    → (a && b && c && d && e) ≡ true
all_five a b c d e h i j k l = rw (h, i, j, k, l) refl

-- the five tests of `is_slug`
tests :
    (s : Text)
    → is_slug s ≡ true
    → (starts_alnum s ≡ true)
      × (ends_alnum s ≡ true)
      × (all is_slug_char s ≡ true)
      × (leb 3 (length s) ≡ true)
      × (leb (length s) 63 ≡ true)
unfolding is_slug
tests s h =
    conjuncts (starts_alnum s) (ends_alnum s) (all is_slug_char s) (leb 3 (length s))
      (leb (length s) 63) h

leb→le : (a b : ℕ) → leb a b ≡ true → a ≤ b
leb→le a b h = ground (arith, h)

le→leb : (a b : ℕ) → a ≤ b → leb a b ≡ true
le→leb a b h = ground (arith, h)

-- the length of a text with a character behind it
length-last : (u : Text) (c : ℕ) → length (u ++ c ∷ []) ≡ suc (length u)
length-last u c = omega (arith, length-append u (c ∷ []))

matched : (s : Text) → is_slug s ≡ true → Matches slug_pattern s
unfolding starts_alnum
matched [] h = let (first, _, _, _, _) = tests [] h in cc
matched (c ∷ []) h =
    let (_, _, _, long, _) = tests (c ∷ []) h in absurd (omega (arith, leb→le 3 1 long))
matched (c ∷ (d ∷ s)) h =
    let (first, last, chars, long, short) = tests (c ∷ (d ∷ s)) h in
    let (u, l, q, k) = split_last (d ∷ s) (ends_tail c d s last) in
    let size = ap length q ∙ length-last u l in
    let inner = subst (All (λ x. is_slug_char x ≡ true)) q (((all-All (c ∷ (d ∷ s))).0 chars).1) in
    (
      c ∷ [],
      d ∷ s,
      refl,
      (c, refl, first),
      (
        u,
        l ∷ [],
        q,
        (
          omega (arith, size, leb→le 3 (length (c ∷ (d ∷ s))) long),
          omega (arith, size, leb→le (length (c ∷ (d ∷ s))) 63 short),
          All-before _ u (l ∷ []) inner,
        ),
        (l, refl, k),
      ),
    )

found :
    (c : ℕ) (m : Text) (l : ℕ)
    → is_alnum c ≡ true
    → 1 ≤ length m
    → length m ≤ 61
    → All (λ x. is_slug_char x ≡ true) m
    → is_alnum l ≡ true
    → is_slug (c ∷ (m ++ l ∷ [])) ≡ true
unfolding is_slug starts_alnum
found c m l first lo hi chars last =
    let size = length-last m l in
    let s = c ∷ (m ++ l ∷ []) in
    all_five (starts_alnum s) (ends_alnum s) (all is_slug_char s) (leb 3 (length s))
      (leb (length s) 63) first (ends_last (c ∷ m) l last)
      ((all-All s).1 (
        alnum_slug_char c first,
        All-append (λ x. is_slug_char x ≡ true) m (l ∷ []) chars (alnum_slug_char l last, tt),
      ))
      (le→leb 3 (length s) (omega (arith, size, lo)))
      (le→leb (length s) 63 (omega (arith, size, hi)))

-- A text passes the test for slugs exactly if the regular expression
-- `[a-z0-9][a-z0-9-]{1,61}[a-z0-9]` matches the whole of it.
pub is_slug_iff : (s : Text) → (is_slug s ≡ true) ↔ Matches slug_pattern s
is_slug_iff s = (
  matched s,
  λ (u, v, e, (c, uc, pc), (m, w, f, (lo, hi, chars), (l, wl, pl))).
      subst (λ x. is_slug x ≡ true)
        (sym (e ∙ (ap (λ x. x ++ v) uc ∙ ap (λ x. c ∷ x) (f ∙ ap (λ x. m ++ x) wl))))
        (found c m l pc lo hi chars pl),
)
