-- ===== src/Access/Laws.antt =====
-- Who is asked for invitations.
use oort.Prelude.{◌≡◌, refl, ap, inl, inr, true, false, List, [], ◌∷◌, Bool-cases}
use oort.Api.{Tenant, Member, ApiToken, Invitation, Failure}
use oort.Api.Call.{Call, list_members, list_tokens, list_invitations, both_of, all_of}
use oort.Prog.{Result, ok, err, run, Result-cases}
use oort.World.{World}
use oort.App.Laws.{Env}
use oort.Access.{AccessPage, can_manage, load}

module _ (env : Env) (t : Tenant) (w : World AccessPage) where
  abbrev pub lists : Call
  lists = both_of (list_members t.slug) (list_tokens t.slug)

  abbrev pub all_lists : Call
  all_lists = all_of (list_members t.slug) (list_tokens t.slug) (list_invitations t.slug)

  abbrev loaded : World AccessPage
  loaded = (run env (load t) w).0

  abbrev calls_of_load : List Call
  calls_of_load = (run env (load t) w).2

  -- What becomes of the answer: all lists of the page are those of the answer, or none is replaced.
  pub data IsLoad (page : AccessPage) (calls : List Call) : Type 0 where
    managed :
        (ms : List Member) (ts : List ApiToken) (is : List Invitation)
        → can_manage t ≡ true
        → env 0 all_lists ≡ ok (ms, ts, is)
        → page ≡ record w.page { members = ms; tokens = ts; invitations = is }
        → calls ≡ all_lists ∷ []
        → IsLoad page calls
    managed_refused :
        (f : Failure)
        → can_manage t ≡ true
        → env 0 all_lists ≡ err f
        → page ≡ w.page
        → calls ≡ all_lists ∷ []
        → IsLoad page calls
    viewed :
        (ms : List Member) (ts : List ApiToken)
        → can_manage t ≡ false
        → env 0 lists ≡ ok (ms, ts)
        → page ≡ record w.page { members = ms; tokens = ts; invitations = [] }
        → calls ≡ lists ∷ []
        → IsLoad page calls
    viewed_refused :
        (f : Failure)
        → can_manage t ≡ false
        → env 0 lists ≡ err f
        → page ≡ w.page
        → calls ≡ lists ∷ []
        → IsLoad page calls

  abbrev end_of_load : AccessPage → Call → World AccessPage × Result Failure (Unit {0}) × List Call
  end_of_load page c = (record w { page = page }, ok tt, c ∷ [])

  -- Each answer to the request, and what it leads to.
  loaded_all :
      (ms : List Member) (ts : List ApiToken) (is : List Invitation)
      → can_manage t ≡ true
      → env 0 all_lists ≡ ok (ms, ts, is)
      → run env (load t) w
        ≡ end_of_load (record w.page { members = ms; tokens = ts; invitations = is }) all_lists
  unfolding load
  loaded_all ms ts is m h = rw m (rw h)

  loaded_both :
      (ms : List Member) (ts : List ApiToken)
      → can_manage t ≡ false
      → env 0 lists ≡ ok (ms, ts)
      → run env (load t) w
        ≡ end_of_load (record w.page { members = ms; tokens = ts; invitations = [] }) lists
  unfolding load
  loaded_both ms ts m h = rw m (rw h)

  refused_all :
      (f : Failure)
      → can_manage t ≡ true
      → env 0 all_lists ≡ err f
      → (loaded.page ≡ w.page) × (calls_of_load ≡ all_lists ∷ [])
  unfolding load
  refused_all f m h = rw (m, h, loaded, calls_of_load, run) (refl, refl)

  refused_both :
      (f : Failure)
      → can_manage t ≡ false
      → env 0 lists ≡ err f
      → (loaded.page ≡ w.page) × (calls_of_load ≡ lists ∷ [])
  unfolding load
  refused_both f m h = rw (m, h, loaded, calls_of_load, run) (refl, refl)

  -- A load makes one joint request, which includes the invitations exactly if the role is owner or
  -- administrator. If it is answered, the page shows the members, the tokens and the invitations of
  -- the answer, or no invitations if they were not asked for; if it is refused, the page stays as
  -- it was.
  pub whole_or_nothing : IsLoad loaded.page calls_of_load
  whole_or_nothing = elim (Bool-cases (can_manage t)) [
    | inl y ↦ elim (Result-cases (env 0 all_lists)) [
      | inl ((ms, ts, is), h) ↦
          let e = loaded_all ms ts is y h in
          managed ms ts is y h (ap (λ r. r.0.page) e) (ap (λ r. r.2) e)
      | inr (f, h) ↦ let (p, c) = refused_all f y h in managed_refused f y h p c
    ]
    | inr n ↦ elim (Result-cases (env 0 lists)) [
      | inl ((ms, ts), h) ↦
          let e = loaded_both ms ts n h in viewed ms ts n h (ap (λ r. r.0.page) e) (ap (λ r. r.2) e)
      | inr (f, h) ↦ let (p, c) = refused_both f n h in viewed_refused f n h p c
    ]
  ]
