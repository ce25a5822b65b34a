-- ===== src/SqlEditor/Laws.antt =====
-- The editor and the draft of its parent stay in step.
use oort.Prelude.{
  ℕ, zero, suc, ◌≡◌, refl, sym, ap, ◌∙◌, ◌⊎◌, inl, inr, true, false, Option, none, some, List, [],
  ◌∷◌, Bool-cases,
}
use oort.Text.{Text, text_eq, text_eq_iff}
use mathlib.Core.Path.{subst}
use oort.Queries.{Draft}
use oort.SqlEditor.{Callbacks, Editor, render, sync_value, dispatch}

-- What a callback does to the parent's draft: `setDraft(current => ({...current, sql}))`.
abbrev pub Change : Type 0
Change = Draft → Draft

abbrev pub callbacks : Callbacks Change
callbacks = record { on_change = λ s d. record d { sql = s }; on_run = λ d. d }

abbrev pub Pair : Type 0
Pair = Editor Change × Draft

module _ (kept : Text → Text) where
  abbrev applied : Option Change → Draft → Draft
  applied none d = d
  applied (some f) d = f d

  -- The end of a round whose effect left `changed` and a report of the listener, if any.
  abbrev finish : Draft → Editor Change → Option Change → Option Pair → Option Pair
  finish d changed none rest = some (changed, d)
  finish d changed (some f) rest = rest

  -- Rounds of a render with the draft and the effect behind it, until one leaves the draft alone,
  -- but `fuel` rounds at most; `none` if they did not end.
  unfoldable pub settle : ℕ → Pair → Option Pair
  unfolding render sync_value
  settle zero p = none
  settle (suc fuel) (e, d) =
      let (changed, report) = sync_value kept d.sql (render kept callbacks e) in
      finish d changed report (settle fuel (changed, applied report d))

  -- An event: the parent replaces the draft, or the user makes the document `s`, which the listener
  -- reports.
  pub data Event : Type 0 where
    replaces : Draft → Event
    types : Text → Event

  abbrev pub happen : Event → Pair → Pair
  happen (replaces d) (e, _) = (e, d)
  happen (types s) (e, d) =
      let (changed, f) = dispatch kept s (render kept callbacks e) in (changed, f d)

  -- Two rounds after each event.
  abbrev pub session : List Event → Pair → Option Pair
  session [] p = settle 2 p
  session (v ∷ vs) p = elim (settle 2 p) [ none ↦ none | some q ↦ session vs (happen v q) ]

  -- The draft that the events ask for: the last one of the parent, with what was typed since.
  abbrev pub followed : List Event → Draft → Draft
  followed [] d = d
  followed (replaces d' ∷ vs) d = followed vs d'
  followed (types s ∷ vs) d = followed vs (record d { sql = kept s })

  -- The editor shows the text of the draft, which is the draft `d`, at most with its text as the
  -- editor keeps it.
  abbrev pub InStep : Draft → Pair → Type 0
  InStep d q = (q.0.doc ≡ q.1.sql) × ((q.1 ≡ d) ⊎ (q.1 ≡ record d { sql = kept d.sql }))

  shown : (s : Text) (e : Editor Change) → text_eq s e.doc ≡ true → sync_value kept s e ≡ (e, none)
  unfolding sync_value
  shown s e h = rw h refl

  replaced :
      (s : Text) (e : Editor Change)
      → text_eq s e.doc ≡ false
      → sync_value kept s e ≡ (record e { doc = kept s }, some (e.callbacks.on_change (kept s)))
  unfolding sync_value dispatch
  replaced s e h = rw h refl

  settle-round :
      (fuel : ℕ) (e : Editor Change) (d : Draft) (r : Editor Change × Option Change)
      → sync_value kept d.sql (record e { callbacks = callbacks }) ≡ r
      → settle (suc fuel) (e, d) ≡ finish d r.0 r.1 (settle fuel (r.0, applied r.1 d))
  unfolding settle render
  settle-round fuel e d r h = ap (λ x. finish d x.0 x.1 (settle fuel (x.0, applied x.1 d))) h

  settle-InStep :
      (e : Editor Change) (d : Draft) → (q : Pair) × (settle 2 (e, d) ≡ some q) × InStep d q
  settle-InStep e d =
      let e' : Editor Change = record e { callbacks = callbacks } in
      let new : Editor Change = record e' { doc = kept d.sql } in
      let draft : Draft = record d { sql = kept d.sql } in
      elim (Bool-cases (text_eq d.sql e.doc)) [
        | inl y ↦ (
          (e', d),
          settle-round 1 e d (e', none) (shown d.sql e' y),
          (sym ((text_eq_iff d.sql e.doc).0 y), inl refl),
        )
        | inr n ↦ (
          (new, draft),
          settle-round 1 e d (new, some (callbacks.on_change (kept d.sql))) (replaced d.sql e' n)
              ∙ settle-round 0 new draft (new, none)
                  (shown (kept d.sql) new ((text_eq_iff (kept d.sql) (kept d.sql)).1 refl)),
          (refl, inr refl),
        )
      ]

  draft_after : Event → Draft → Draft
  draft_after (replaces d') d = d'
  draft_after (types s) d = record d { sql = kept s }

  happen-draft : (v : Event) (d : Draft) (q : Pair) → InStep d q → (happen v q).1 ≡ draft_after v d
  unfolding draft_after dispatch render
  happen-draft (replaces d') d q i = refl
  happen-draft (types s) d q (i, inl e) = rw e refl
  happen-draft (types s) d q (i, inr e) = rw e refl

  followed-draft_after :
      (v : Event) (vs : List Event) (d : Draft)
      → followed (v ∷ vs) d ≡ followed vs (draft_after v d)
  unfolding draft_after
  followed-draft_after (replaces d') vs d = refl
  followed-draft_after (types s) vs d = refl

  -- Start with any editor and any draft, and let the parent replace the draft and the user type, in
  -- any order, with the renders and effects after each event: whatever the editor makes of line
  -- ends, the effects end within two rounds each time, and at the end the editor shows the text of
  -- the draft, which is the draft that the events ask for, at most with its text as the editor
  -- keeps it.
  pub session-InStep :
      (vs : List Event) (e : Editor Change) (d : Draft)
      → (q : Pair) × (session vs (e, d) ≡ some q) × InStep (followed vs d) q
  session-InStep [] e d = settle-InStep e d
  session-InStep (v ∷ vs) e d =
      let (q, ends, i) = settle-InStep e d in
      let (r, later, j) = session-InStep vs (happen v q).0 (happen v q).1 in
      (
        r,
        rw (ends, session) later,
        subst (λ x. InStep x r)
            (ap (followed vs) (happen-draft v d q i) ∙ sym (followed-draft_after v vs d)) j,
      )
