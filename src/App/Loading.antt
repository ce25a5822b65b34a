-- ===== src/App/Loading.antt =====
-- What a load of the workspace asks for, and what it leads to, for every answer.
use oort.Prelude.{
  ◌≡◌, refl, ap, ◌∙◌, ◌≢◌, ◌⊎◌, inl, inr, Bool, true, false, Option, none, some, List, [], ◌∷◌,
  if◌then◌else◌, Bool-cases, find, All,
}
use mathlib.Core.Path.{subst, sym}
use oort.Text.{Text, lit, text_eq, text_eq_iff}
use oort.Api.{Tenant, Dashboard, Failure, message_of}
use oort.Api.Call.{Call, list_tenants, get_dashboard}
use oort.Prog.{Result, ok, err, run, Result-cases}
use oort.Toast.{push, error}
use oort.World.{World}
use oort.App.{is_unauthorized, get_or, same_slug, or_else, nonempty, choose, load_workspace}
use oort.App.Laws.{
  Env, with_expired, with_opened, load_workspace_unlisted, load_workspace_empty,
  load_workspace_done,
}

-- `t` is the first tenant of the list with the wanted slug, or the head of the list if there is none.
abbrev IsFirst : Option Text → Tenant → List Tenant → Type 0
IsFirst wanted t [] = ⊥
IsFirst wanted t (x ∷ xs) =
    ((wanted ≡ some x.slug) × (t ≡ x)) ⊎ ((wanted ≢ some x.slug) × IsFirst wanted t xs)

abbrev pub IsChoice : Option Text → Tenant → List Tenant → Tenant → Type 0
IsChoice wanted first rest t =
    IsFirst wanted t (first ∷ rest)
    ⊎ (All (λ (x : Tenant). wanted ≢ some x.slug) (first ∷ rest) × (t ≡ first))

some-injective : {A : Type 0} (d a b : A) → some a ≡ some b → a ≡ b
some-injective d a b e = ap (get_or d) e

same_slug-cases :
    (wanted : Option Text) (x : Tenant)
    → ((same_slug wanted x ≡ true) × (wanted ≡ some x.slug))
      ⊎ ((same_slug wanted x ≡ false) × (wanted ≢ some x.slug))
same_slug-cases none x = inr (refl, λ e. cc)
same_slug-cases (some s) x = elim (Bool-cases (text_eq x.slug s)) [
  | inl y ↦ inl (y, ap some (sym ((text_eq_iff x.slug s).0 y)))
  | inr n ↦ inr (
    n,
    λ e.
        let q : text_eq x.slug s ≡ true =
          (text_eq_iff x.slug s).1 (sym (some-injective s s x.slug e)) in
        cc,
  )
]

find_hit :
    (p : Tenant → Bool) (d x : Tenant) (xs : List Tenant)
    → p x ≡ true
    → get_or d (find p (x ∷ xs)) ≡ x
find_hit p d x xs y = rw y refl

find_miss :
    (p : Tenant → Bool) (d x : Tenant) (xs : List Tenant)
    → p x ≡ false
    → get_or d (find p (x ∷ xs)) ≡ get_or d (find p xs)
find_miss p d x xs n = rw n refl

find-IsFirst :
    (wanted : Option Text) (d : Tenant) (xs : List Tenant)
    → IsFirst wanted (get_or d (find (same_slug wanted) xs)) xs
      ⊎ (All (λ (x : Tenant). wanted ≢ some x.slug) xs
          × (get_or d (find (same_slug wanted) xs) ≡ d))
find-IsFirst wanted d [] = inr (tt, refl)
find-IsFirst wanted d (x ∷ xs) = elim (same_slug-cases wanted x) [
  | inl (y, e) ↦ inl (inl (e, find_hit (same_slug wanted) d x xs y))
  | inr (n, e) ↦
      let skips = find_miss (same_slug wanted) d x xs n in
      elim (find-IsFirst wanted d xs) [
        | inl f ↦ inl (inr (e, subst (λ t. IsFirst wanted t xs) (sym skips) f))
        | inr (h, q) ↦ inr ((e, h), skips ∙ q)
      ]
]

choose-IsChoice :
    (preferred remembered : Option Text) (first : Tenant) (rest : List Tenant)
    → IsChoice
        (or_else (nonempty preferred) remembered)
        first
        rest
        (choose preferred remembered first rest)
unfolding choose
choose-IsChoice preferred remembered first rest =
    find-IsFirst (or_else (nonempty preferred) remembered) first (first ∷ rest)

module _ {P : Type 0} (env : Env) (preferred : Option Text) (w : World P) where
  -- the slug that was asked for, or else the remembered one
  abbrev wanted : Option Text
  wanted = or_else (nonempty preferred) w.app.remembered

  abbrev End : Type 0
  End = World P × Result Failure (Unit {0}) × List Call

  -- the state once the tenants came and one of them is opened
  abbrev listed : List Tenant → Tenant → World P
  listed ts t = record w { app = record w.app { tenants = ts; remembered = some t.slug } }

  -- A lost session is noticed above the form, any other failure by a notice.
  abbrev Fails : Failure → World P → World P → Type 0
  Fails f v u =
      ((is_unauthorized f ≡ true) × (u ≡ record v { app = with_expired v.app }))
      ⊎ ((is_unauthorized f ≡ false)
          × (u ≡ record v {
            toasts = push (lit "Workspace could not load") (message_of f) error v.toasts;
          }))

  pub data IsOutcome (e : End) : Type 0 where
    unlisted :
        (f : Failure)
        → env 0 list_tenants ≡ err f
        → Fails f w e.0
        → e.1 ≡ ok tt
        → e.2 ≡ list_tenants ∷ []
        → IsOutcome e
    homeless :
        (l : Option (List Tenant))
        → env 0 list_tenants ≡ ok l
        → get_or [] l ≡ []
        → e ≡ (
          record w { app = record w.app { tenants = []; dashboard = none } },
          ok tt,
          list_tenants ∷ [],
        )
        → IsOutcome e
    unopened :
        (first : Tenant) (rest : List Tenant) (t : Tenant) (f : Failure)
        → env 0 list_tenants ≡ ok (some (first ∷ rest))
        → IsChoice wanted first rest t
        → env 1 (get_dashboard t.slug) ≡ err f
        → Fails f (listed (first ∷ rest) t) e.0
        → e.1 ≡ ok tt
        → e.2 ≡ list_tenants ∷ get_dashboard t.slug ∷ []
        → IsOutcome e
    opened :
        (first : Tenant) (rest : List Tenant) (t : Tenant) (d : Dashboard)
        → env 0 list_tenants ≡ ok (some (first ∷ rest))
        → IsChoice wanted first rest t
        → env 1 (get_dashboard t.slug) ≡ ok d
        → e ≡ (
          record w { app = with_opened (first ∷ rest) t.slug d w.app },
          ok tt,
          list_tenants ∷ get_dashboard t.slug ∷ [],
        )
        → IsOutcome e

  abbrev ended : End
  ended = run env (load_workspace preferred) w

  abbrev selected : Tenant → List Tenant → Tenant
  selected first rest = choose preferred w.app.remembered first rest

  after_failure : Failure → World P → World P
  after_failure f v =
      if is_unauthorized f
      then record v { app = with_expired v.app }
      else record v { toasts = push (lit "Workspace could not load") (message_of f) error v.toasts }

  after_failure-Fails : (f : Failure) (v : World P) → Fails f v (after_failure f v)
  unfolding after_failure
  after_failure-Fails f v = elim (Bool-cases (is_unauthorized f)) [
    | inl y ↦ inl (y, rw y refl)
    | inr n ↦ inr (n, rw n refl)
  ]

  load_unlisted :
      (f : Failure)
      → env 0 list_tenants ≡ err f
      → ended ≡ (after_failure f w, ok tt, list_tenants ∷ [])
  unfolding after_failure
  load_unlisted f h = load_workspace_unlisted env preferred w f h

  load_unopened :
      (first : Tenant) (rest : List Tenant) (f : Failure)
      → env 0 list_tenants ≡ ok (some (first ∷ rest))
      → env 1 (get_dashboard (selected first rest).slug) ≡ err f
      → ended ≡ (
        after_failure f (listed (first ∷ rest) (selected first rest)),
        ok tt,
        list_tenants ∷ get_dashboard (selected first rest).slug ∷ [],
      )
  unfolding load_workspace after_failure
  load_unopened first rest f h g =
      rw h (rw g (elim (Bool-cases (is_unauthorized f)) [ inl y ↦ rw y refl | inr n ↦ rw n refl ]))

  unopened-IsOutcome :
      (first : Tenant) (rest : List Tenant) (f : Failure)
      → env 0 list_tenants ≡ ok (some (first ∷ rest))
      → env 1 (get_dashboard (selected first rest).slug) ≡ err f
      → IsOutcome ended
  unopened-IsOutcome first rest f h g =
      let t = selected first rest in
      subst IsOutcome (sym (load_unopened first rest f h g)) (
        unopened first rest t f h (choose-IsChoice preferred w.app.remembered first rest) g
          (after_failure-Fails f (listed (first ∷ rest) t)) refl refl)

  answered-IsOutcome : (l : Option (List Tenant)) → env 0 list_tenants ≡ ok l → IsOutcome ended
  answered-IsOutcome none h =
      homeless none h refl (load_workspace_empty env preferred w none refl h)
  answered-IsOutcome (some []) h =
      homeless (some []) h refl (load_workspace_empty env preferred w (some []) refl h)
  answered-IsOutcome (some (first ∷ rest)) h =
      elim (Result-cases (env 1 (get_dashboard (selected first rest).slug))) [
        | inr (f, g) ↦ unopened-IsOutcome first rest f h g
        | inl (d, g) ↦
            opened first rest (selected first rest) d h
              (choose-IsChoice preferred w.app.remembered first rest) g
              (load_workspace_done env preferred w first rest d h g)
      ]

  -- A load of the workspace, uninterrupted, for every answer of the server: it asks for the
  -- tenants; if they are refused, nothing else is called, and the failure is noticed, or the
  -- session ends if it was lost. An empty list leaves no tenants and no dashboard. Otherwise the
  -- load opens the first tenant with the wanted slug, which is the one that was asked for or else
  -- the remembered one, or the head of the list if no tenant has it: it remembers its slug, asks
  -- for its dashboard and nothing else, and then shows that dashboard, or treats a failure like the
  -- first. It never throws, and changes nothing else.
  pub load_workspace-IsOutcome : IsOutcome ended
  load_workspace-IsOutcome = elim (Result-cases (env 0 list_tenants)) [
    | inl (l, h) ↦ answered-IsOutcome l h
    | inr (f, h) ↦
        subst IsOutcome (sym (load_unlisted f h)) (unlisted f h (after_failure-Fails f w) refl refl)
  ]
