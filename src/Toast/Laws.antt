-- ===== src/Toast/Laws.antt =====
-- The store of notices, with its identifiers and its timers.
use oort.Prelude.{
  ℕ, suc, ◌<◌, ◌≡◌, refl, ◌∙◌, inl, inr, not, List, [], ◌∷◌, ◌++◌, arith, ◌==◌, Bool-cases, filter,
  All, All-append,
}
use mathlib.Core.Path.{subst}
use oort.Toast.{Toast, Kind, Store, fresh, push, expire}

-- The identifiers rise from the first to the last, and stay below the bound.
abbrev pub Rising : List ℕ → ℕ → Type 0
Rising [] n = Unit
Rising (i ∷ is) n = (i < n) × All (λ j. i < j) is × Rising is n

abbrev pub ids : List Toast → List ℕ
ids [] = []
ids (t ∷ ts) = t.id ∷ ids ts

pub record IsValid (s : Store) : Type 0 where
  pub timed : ids s.toasts ≡ s.timers
  pub rising : Rising s.timers s.next_id

All-lt_trans :
    (i n : ℕ) (is : List ℕ) → All (λ j. i < j) is → i < n → All (λ j. i < j) (is ++ n ∷ [])
All-lt_trans i n is h p = All-append (λ j. i < j) is (n ∷ []) h (p, tt)

Rising-append : (is : List ℕ) (n : ℕ) → Rising is n → Rising (is ++ n ∷ []) (suc n)
Rising-append [] n h = (omega arith, tt, tt)
Rising-append (i ∷ is) n (p, a, r) = (omega arith, All-lt_trans i n is a p, Rising-append is n r)

ids-append : (ts : List Toast) (t : Toast) → ids (ts ++ t ∷ []) ≡ ids ts ++ t.id ∷ []
ids-append [] t = refl
ids-append (u ∷ ts) t = cc (ids-append ts t)

abbrev without : ℕ → List ℕ → List ℕ
without id = filter (λ i. not (i == id))

ids-filter :
    (id : ℕ) (ts : List Toast) → ids (filter (λ t. not (t.id == id)) ts) ≡ without id (ids ts)
ids-filter id [] = refl
ids-filter id (t ∷ ts) = ground (arith, ids-filter id ts)

All-without : (P : ℕ → Type 0) (id : ℕ) (is : List ℕ) → All P is → All P (without id is)
All-without P id [] h = tt
All-without P id (i ∷ is) (p, h) = elim (Bool-cases (i == id)) [
  | inl e ↦ rw e (All-without P id is h)
  | inr e ↦ rw e (p, All-without P id is h)
]

Rising-without : (id : ℕ) (is : List ℕ) (n : ℕ) → Rising is n → Rising (without id is) n
Rising-without id [] n h = tt
Rising-without id (i ∷ is) n (p, a, r) = elim (Bool-cases (i == id)) [
  | inl e ↦ rw e (Rising-without id is n r)
  | inr e ↦ rw e (p, All-without _ id is a, Rising-without id is n r)
]

pub fresh-IsValid : IsValid fresh
fresh-IsValid = record { timed = refl; rising = tt }

pub push-IsValid :
    (title detail : List ℕ) (kind : Kind) (s : Store)
    → IsValid s
    → IsValid (push title detail kind s)
unfolding push
push-IsValid title detail kind s v = record {
  timed = ids-append s.toasts _ ∙ cc (v.timed);
  rising = Rising-append s.timers s.next_id v.rising;
}

pub expire-IsValid : (id : ℕ) (s : Store) → IsValid s → IsValid (expire id s)
unfolding expire
expire-IsValid id s v = record {
  timed = ids-filter id s.toasts ∙ cc (v.timed);
  rising = Rising-without id s.timers s.next_id v.rising;
}

Rising-All : (is : List ℕ) (n : ℕ) → Rising is n → All (λ j. j < n) is
Rising-All [] n h = tt
Rising-All (i ∷ is) n (p, a, r) = (p, Rising-All is n r)

filter-ne_last :
    (ts : List Toast) (t : Toast)
    → All (λ j. j < t.id) (ids ts)
    → filter (λ u. not (u.id == t.id)) (ts ++ t ∷ []) ≡ ts
filter-ne_last [] t h = ground arith
filter-ne_last (u ∷ ts) t (p, h) = ground (arith, filter-ne_last ts t h)

without-ne_last : (is : List ℕ) (n : ℕ) → All (λ j. j < n) is → without n (is ++ n ∷ []) ≡ is
without-ne_last [] n h = ground arith
without-ne_last (i ∷ is) n (p, h) = ground (arith, without-ne_last is n h)

-- In a valid store, the timer of a new notice removes that notice and its own entry, and leaves the
-- other notices and timers.
expire-push :
    (title detail : List ℕ) (kind : Kind) (s : Store)
    → IsValid s
    → ((expire s.next_id (push title detail kind s)).toasts ≡ s.toasts)
      × ((expire s.next_id (push title detail kind s)).timers ≡ s.timers)
unfolding push expire
expire-push title detail kind s v =
    let below = Rising-All s.timers s.next_id v.rising in
    (filter-ne_last s.toasts _ (rw v.timed below), without-ne_last s.timers s.next_id below)

-- The timers of `is`, in that order.
abbrev pub expire_all : List ℕ → Store → Store
expire_all [] s = s
expire_all (i ∷ is) s = expire_all is (expire i s)

without-head : (i : ℕ) (is : List ℕ) → All (λ j. i < j) is → without i (i ∷ is) ≡ is
without-head i is h = ground (arith, without-above i is h)
  where
    without-above : (k : ℕ) (js : List ℕ) → All (λ j. k < j) js → without k js ≡ js
    without-above k [] h = refl
    without-above k (j ∷ js) (p, h) = ground (arith, without-above k js h)

timers-expire_head :
    (i : ℕ) (is : List ℕ) (s : Store) → IsValid s → s.timers ≡ i ∷ is → (expire i s).timers ≡ is
unfolding expire
timers-expire_head i is s v e =
    let rising : Rising (i ∷ is) s.next_id = subst (λ l. Rising l s.next_id) e v.rising in
    rw e (without-head i is rising.1)

ids-eq-nil : (ts : List Toast) → ids ts ≡ [] → ts ≡ []
ids-eq-nil [] e = refl
ids-eq-nil (t ∷ ts) e = cc

toasts-expire_all :
    (is : List ℕ) (s : Store) → IsValid s → s.timers ≡ is → (expire_all is s).toasts ≡ []
toasts-expire_all [] s v e = ids-eq-nil s.toasts (v.timed ∙ e)
toasts-expire_all (i ∷ is) s v e =
    toasts-expire_all is (expire i s) (expire-IsValid i s v) (timers-expire_head i is s v e)

-- In a valid store, when the timers fire one after the other, no notice is left.
expire_all-timers : (s : Store) → IsValid s → (expire_all s.timers s).toasts ≡ []
expire_all-timers s v = toasts-expire_all s.timers s v refl
