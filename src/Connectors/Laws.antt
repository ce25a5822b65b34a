-- ===== src/Connectors/Laws.antt =====
-- What the form of an edited connector sends.
use oort.Prelude.{ℕ, ◌≡◌, refl, sym, inl, inr, none, some, List, [], ◌∷◌}
use mathlib.Core.Path.{subst}
use oort.Text.{Text}
use oort.Api.{Connector, Failure}
use oort.Api.Call.{Call, list_connectors, update_connector}
use oort.Prog.{ok, err, run, Result, Result-cases}
use oort.World.{World}
use oort.App.Laws.{Env}
use oort.Connectors.{ConnectorsPage, FormValues, input_of, save, slug_of, while_busy, load}

module _ (env : Env) (tenant : Text) (c : Connector) (v : FormValues)
    (w : World ConnectorsPage) where
  abbrev pub update : Call
  update = update_connector tenant c.slug (input_of (some c) v)

  abbrev pub listing : Call
  listing = list_connectors tenant

  -- The update was refused, and the form stays; or it was accepted, the form is left, and the list
  -- is loaded again.
  pub data IsEdit (e : World ConnectorsPage × Result Failure (Unit {0}) × List Call) : Type 0 where
    refused :
        (f : Failure)
        → env 0 update ≡ err f
        → e.0.page ≡ record w.page { busy = [] }
        → e.2 ≡ update ∷ []
        → IsEdit e
    accepted :
        (k : Connector)
        → env 0 update ≡ ok k
        → e.0.page.editing ≡ none
        → e.0.page.busy ≡ []
        → e.2 ≡ update ∷ listing ∷ []
        → IsEdit e

  abbrev ended : World ConnectorsPage × Result Failure (Unit {0}) × List Call
  ended = run env (save tenant (some c) v) w

  named : (x : ℕ) (s : Text) → c.slug ≡ x ∷ s → slug_of (some c) v ≡ c.slug
  named x s e = rw e refl

  abbrev as_named : Text → Call
  as_named slug = update_connector tenant slug (input_of (some c) v)

  edit_refused :
      (f : Failure)
      → env 0 (as_named (slug_of (some c) v)) ≡ err f
      → (ended.0.page ≡ record w.page { busy = [] })
        × (ended.2 ≡ as_named (slug_of (some c) v) ∷ [])
  unfolding save while_busy
  edit_refused f h = rw (h, ended, run) (refl, refl)

  edit_accepted :
      (k : Connector)
      → env 0 (as_named (slug_of (some c) v)) ≡ ok k
      → (ended.0.page.editing ≡ none)
        × (ended.0.page.busy ≡ [])
        × (ended.2 ≡ as_named (slug_of (some c) v) ∷ listing ∷ [])
  unfolding save while_busy load
  edit_accepted k h = elim (Result-cases (env 1 listing)) [
    | inl (cs, g) ↦ rw (h, g, ended, run) (refl, refl, refl)
    | inr (f, g) ↦ rw (h, g, ended, run) (refl, refl, refl)
  ]

  -- For an edited connector whose slug is not empty, a save updates the connector of that slug,
  -- whatever the form says of its slug. If the update is refused, nothing else is called and only
  -- the busy mark of the page is reset; if it is accepted, the list is asked for once, the form is
  -- left, and the busy mark is reset, whatever becomes of the list.
  pub save-IsEdit : (x : ℕ) (s : Text) → c.slug ≡ x ∷ s → IsEdit ended
  save-IsEdit x s e =
      let same = named x s e in
      elim (Result-cases (env 0 update)) [
        | inl (k, h) ↦
            let (left, idle, calls) =
              edit_accepted k (subst (λ n. env 0 (as_named n) ≡ ok k) (sym same) h) in
            accepted k h left idle (subst (λ n. ended.2 ≡ as_named n ∷ listing ∷ []) same calls)
        | inr (f, h) ↦
            let (page, calls) =
              edit_refused f (subst (λ n. env 0 (as_named n) ≡ err f) (sym same) h) in
            refused f h page (subst (λ n. ended.2 ≡ as_named n ∷ []) same calls)
      ]
