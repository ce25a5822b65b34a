-- ===== src/Queries/Removal.antt =====
-- What a removal of the selected query sends, and what it changes.
use oort.Prelude.{
  suc, ◌≡◌, refl, ap, ◌∙◌, inl, inr, true, false, not, none, some, List, [], ◌∷◌, ◌++◌, Bool,
  Bool-cases, Option-cases, filter,
}
use mathlib.Core.Path.{sym, subst}
use oort.Text.{Text, lit, text_eq}
use oort.Api.{Dashboard, QueryRevision, Failure, message_of}
use oort.Api.Call.{Call, Handler, delete_query, list_tenants}
use oort.Prog.{ok, err, run, Result-cases, ◌>>◌}
use oort.Prog.Settles.{Settles, Settles-bind, after, changed, run_settled, run-Settles}
use oort.Prog.Frames.{Frames-bind, run-Frames}
use oort.Toast.{push, fine, error}
use oort.World.{World, toast, on_some, confirmed}
use oort.App.{load_workspace, nonempty}
use oort.App.Laws.{load_workspace-Settles}
use oort.App.Frames.{OnPage, load_workspace-Frames}
use oort.Queries.Effects.{Env, End}
use oort.Queries.{Workbench, draft_for, while_running, remove, remove_selected}

module _ (env : Env) (d : Dashboard) (rendered : Workbench) (confirm : Text → Bool)
    (w : World Workbench) where
  abbrev ended : End
  ended = run env (remove d rendered confirm) w

  abbrev question : Text → Text
  question s = lit "Delete query " ++ (s ++ lit " and all of its revisions?")

  abbrev deletion : Text → Call
  deletion s = delete_query d.tenant.slug s

  -- the page without the query
  abbrev cleared : Text → Bool → Workbench
  cleared s busy = record w.page {
    selected = none;
    draft =
        draft_for (filter (λ (q : QueryRevision). not (text_eq q.slug s)) d.queries) d.datasets
          none;
    result = none;
    running = busy;
  }

  -- Nothing is selected, or the user declines; the server refuses; or the query is gone.
  pub data IsRemoval (e : End) : Type 0 where
    unselected : nonempty rendered.selected ≡ none → e ≡ (w, ok tt, []) → IsRemoval e
    declined :
        (s : Text)
        → nonempty rendered.selected ≡ some s
        → confirm (question s) ≡ false
        → e ≡ (w, ok tt, [])
        → IsRemoval e
    refused :
        (s : Text) (f : Failure)
        → nonempty rendered.selected ≡ some s
        → confirm (question s) ≡ true
        → env 0 (deletion s) ≡ err f
        → e ≡ (
          record w {
            page = record w.page { running = false };
            toasts = push (lit "Query could not be deleted") (message_of f) error w.toasts;
          },
          ok tt,
          deletion s ∷ [],
        )
        → IsRemoval e
    removed :
        (s : Text) (rest : List Call)
        → nonempty rendered.selected ≡ some s
        → confirm (question s) ≡ true
        → env 0 (deletion s) ≡ ok tt
        → e.0.page ≡ cleared s false
        → e.1 ≡ ok tt
        → e.2 ≡ deletion s ∷ (list_tenants ∷ rest)
        → IsRemoval e

  remove_unselected : nonempty rendered.selected ≡ none → IsRemoval ended
  unfolding remove on_some
  remove_unselected e = unselected e (rw e refl)

  remove_declined :
      (s : Text)
      → nonempty rendered.selected ≡ some s
      → confirm (question s) ≡ false
      → IsRemoval ended
  unfolding remove on_some confirmed
  remove_declined s e n = declined s e n (rw (e, n) refl)

  remove_confirmed :
      (s : Text)
      → nonempty rendered.selected ≡ some s
      → confirm (question s) ≡ true
      → ended ≡ run env (remove_selected d rendered s) w
  unfolding remove on_some confirmed
  remove_confirmed s e y = rw (e, y) refl

  remove_refused :
      (s : Text) (f : Failure)
      → env 0 (deletion s) ≡ err f
      → run env (remove_selected d rendered s) w ≡ (
        record w {
          page = record w.page { running = false };
          toasts = push (lit "Query could not be deleted") (message_of f) error w.toasts;
        },
        ok tt,
        deletion s ∷ [],
      )
  unfolding while_running
  remove_refused s f e = rw e refl

  abbrev rest_of : Text → Handler (World Workbench)
  rest_of s = load_workspace (some d.tenant.slug) >> toast (lit "Query deleted") s fine

  rest_of-Settles : (s : Text) → Settles (rest_of s)
  rest_of-Settles s =
      Settles-bind (load_workspace (some d.tenant.slug)) _
        (load_workspace-Settles Workbench (some d.tenant.slug)) (λ _. tt)

  abbrev idle : World Workbench → World Workbench
  idle v = record v { page = record v.page { running = false } }

  -- the end of what follows the deletion
  abbrev rested : Text → End
  rested s = run (λ n. env (suc n)) (rest_of s) (record w { page = cleared s true })

  remove_accepted :
      (s : Text)
      → env 0 (deletion s) ≡ ok tt
      → run env (remove_selected d rendered s) w ≡ after (deletion s) (changed idle (rested s))
  unfolding while_running
  remove_accepted s e = rw e (
      ap (after (deletion s)) (
        run_settled (λ n. env (suc n)) (rest_of s)
          (λ f. toast (lit "Query could not be deleted") (message_of f) error) idle
          (record w { page = cleared s true }) (rest_of-Settles s)))

  rested-page : (s : Text) → (rested s).0.page ≡ cleared s true
  rested-page s =
      let stays : Workbench → Type 0 = λ p. p ≡ cleared s true in
      run-Frames (OnPage stays) (λ n. env (suc n)) (rest_of s) (record w { page = cleared s true })
        refl
        (Frames-bind (OnPage stays) (load_workspace (some d.tenant.slug)) _
          (load_workspace-Frames stays (some d.tenant.slug)) (λ _. (λ v q. q, tt)))

  rested-ok : (s : Text) → (rested s).1 ≡ ok tt
  rested-ok s =
      let (a, e) =
        run-Settles (λ n. env (suc n)) (rest_of s) (record w { page = cleared s true })
          (rest_of-Settles s) in
      e

  rested-calls : (s : Text) → (rest : List Call) × ((rested s).2 ≡ list_tenants ∷ rest)
  unfolding load_workspace
  rested-calls s = (_, refl)

  accepted-IsRemoval :
      (s : Text)
      → nonempty rendered.selected ≡ some s
      → confirm (question s) ≡ true
      → env 0 (deletion s) ≡ ok tt
      → IsRemoval (after (deletion s) (changed idle (rested s)))
  accepted-IsRemoval s chosen agreed e =
      let (rest, calls) = rested-calls s in
      removed s rest chosen agreed e
        (ap (λ (p : Workbench). record p { running = false }) (rested-page s)) (rested-ok s)
        (ap (λ cs. deletion s ∷ cs) calls)

  -- A removal of the selected query, uninterrupted, whatever the server answers: if nothing is
  -- selected or the user declines, it calls and changes nothing. Otherwise its first call deletes
  -- the selected query; if that is refused, it calls nothing else, adds the notice of the failure,
  -- and changes nothing else but to end the mark of a running query; if it is accepted, then in the
  -- end nothing is selected, the draft is the one for the queries without the deleted one, no
  -- result is shown, the mark is down, the workspace was loaded again behind the deletion, and no
  -- error is thrown.
  pub remove-IsRemoval : IsRemoval ended
  remove-IsRemoval = elim (Option-cases (nonempty rendered.selected)) [
    | inl e ↦ remove_unselected e
    | inr (s, e) ↦ elim (Bool-cases (confirm (question s))) [
      | inr n ↦ remove_declined s e n
      | inl y ↦ elim (Result-cases (env 0 (deletion s))) [
        | inr (f, h) ↦ refused s f e y h (remove_confirmed s e y ∙ remove_refused s f h)
        | inl (u, h) ↦
            subst IsRemoval (sym (remove_confirmed s e y ∙ remove_accepted s h))
              (accepted-IsRemoval s e y h)
      ]
    ]
  ]
