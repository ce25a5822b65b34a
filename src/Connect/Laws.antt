-- ===== src/Connect/Laws.antt =====
-- Connecting again after a session has expired.
use oort.Prelude.{◌≡◌, refl, sym, ap, ◌∙◌, true, Option, some, [], ◌∷◌}
use mathlib.Core.Path.{subst}
use oort.Text.{Text, lit}
use oort.Api.{User, Dashboard, Failure}
use oort.Api.Call.{connect, list_tenants}
use oort.Prog.{ok, err, run}
use oort.World.{World}
use oort.App.Laws.{Env, with_expired, load_workspace_unlisted}
use oort.App.{is_unauthorized, load_workspace, Screen, shell, connect_form, screen}
use oort.Connect.{ConnectForm, submit_token}

-- The connect form in front of a session's state.
abbrev pub at_form : {P : Type 0} → ConnectForm → World P → World ConnectForm
at_form form w = record { page = form; app = w.app; toasts = w.toasts }

-- A token that the server accepts.
pub submit_token_accepted :
    (env : Env) (token : Text) (w : World ConnectForm) (u : User)
    → env 0 (connect token) ≡ ok u
    → run env (submit_token token) w ≡ (
      record {
        page = record w.page { busy = true };
        app = record w.app { user = some u };
        toasts = w.toasts;
      },
      ok tt,
      connect token ∷ [],
    )
unfolding submit_token
submit_token_accepted env token w u accepted = rw accepted refl

refused_world :
    {P : Type 0} (env : Env) (preferred : Option Text) (w : World P) (e : Failure)
    → is_unauthorized e ≡ true
    → env 0 list_tenants ≡ err e
    → (run env (load_workspace preferred) w).0 ≡ record w { app = with_expired w.app }
refused_world env preferred w e unauthorized refused =
    ap (λ r. r.0) (load_workspace_unlisted env preferred w e refused) ∙ rw unauthorized refl

-- What two screens show: the one after the list was refused, and the one after a new log in.
abbrev Screens : {P : Type 0} → Env → Text → ConnectForm → Screen → Screen → World P → Type 0
Screens env token form before after w =
    (screen w.app ≡ before) × (screen (run env (submit_token token) (at_form form w)).0.app ≡ after)

refused-Screens :
    {P : Type 0} (env : Env) (w : World P) (form : ConnectForm) (token : Text) (u : User)
    (d : Dashboard)
    → w.app.checked ≡ true
    → w.app.dashboard ≡ some d
    → env 0 (connect token) ≡ ok u
    → Screens env token form
        (connect_form (lit "Your session expired. Connect again to continue."))
        (shell u d)
        (record w { app = with_expired w.app })
unfolding screen
refused-Screens env w form token u d checked shown accepted = (
  rw checked refl,
  rw
      (submit_token_accepted env token (at_form form (record w { app = with_expired w.app })) u
        accepted)
      (rw (checked, shown) refl),
)

-- When a workspace is shown and the list of tenants is refused because the session has expired, the
-- form to connect is shown; but when the server then accepts a token, the next screen is the old
-- workspace under the new user, before anything was loaded for them.
pub expired_workspace_shown :
    {P : Type 0} (env env' : Env) (preferred : Option Text) (w : World P) (form : ConnectForm)
    (token : Text) (u : User) (d : Dashboard) (e : Failure)
    → w.app.checked ≡ true
    → w.app.dashboard ≡ some d
    → is_unauthorized e ≡ true
    → env 0 list_tenants ≡ err e
    → env' 0 (connect token) ≡ ok u
    → let expired = (run env (load_workspace preferred) w).0 in
      (screen expired.app ≡ connect_form (lit "Your session expired. Connect again to continue."))
      × (screen (run env' (submit_token token) (at_form form expired)).0.app ≡ shell u d)
expired_workspace_shown env env' preferred w form token u d e checked shown unauthorized refused
      accepted =
    subst
      (Screens env' token form
        (connect_form (lit "Your session expired. Connect again to continue.")) (shell u d))
      (sym (refused_world env preferred w e unauthorized refused))
      (refused-Screens env' w form token u d checked shown accepted)
