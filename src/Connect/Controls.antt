-- ===== src/Connect/Controls.antt =====
-- What the controls of the two forms start, and that a form is sent once at a time.
use oort.Prelude.{◌≡◌, false, some, List}
use oort.Text.{Text, lit}
use oort.Api.Call.{Handler}
use oort.World.{World}
use oort.App.{nonempty}
use oort.View.{Turn, Action, fire}
use oort.View.Allows.{Allowed, allow, Allowed-given, fire-Allowed}
use oort.View.Laws.{is_idle, logo-Allowed}
use oort.View.Parts.{copy, problem, command}
use oort.Connect.{ConnectForm, CreateForm, submit_token, submit_tenant}
use oort.Connect.View.{connect_view, create_view}

pub data IsConnect (p : ConnectForm) : Handler (World ConnectForm) → Type 0 where
  connects : (token : Text) → p.busy ≡ false → IsConnect p (submit_token token)
  copies : IsConnect p (copy (lit "oort auth token"))

pub data IsCreate (p : CreateForm) : Handler (World CreateForm) → Type 0 where
  creates : (slug : Text) → p.busy ≡ false → IsCreate p (submit_tenant slug)

IsConnect-Allowed : (p : ConnectForm) → Allowed (IsConnect p) (connect_view p)
unfolding connect_view command
IsConnect-Allowed p = record {
  holds = allow (logo-Allowed (IsConnect p) _) (
      allow
        (Allowed-given (IsConnect p) (nonempty (some p.problem)) {f = problem}
          (λ s _. record { holds = tt }))
        ((λ v e. connects _ (is_idle p.busy e)), ((λ _. copies), tt)));
}

IsCreate-Allowed : (p : CreateForm) → Allowed (IsCreate p) (create_view p)
unfolding create_view
IsCreate-Allowed p = record {
  holds = allow (logo-Allowed (IsCreate p) _) ((λ v e. creates _ (is_idle p.busy e)), tt);
}

-- Whatever the user does with the form that connects starts a connection with the token that was
-- typed, and only while none is under way, or copies the command that prints a token; and whatever
-- the user does with the form that creates a tenant starts its creation, and only while none is
-- under way.
pub forms_fire :
    (p : ConnectForm) (q : CreateForm) (way : List Turn) (act : Action)
    (h : Handler (World ConnectForm)) (k : Handler (World CreateForm))
    → (fire (connect_view p) way act ≡ some h → IsConnect p h)
      × (fire (create_view q) way act ≡ some k → IsCreate q k)
forms_fire p q way act h k = (
  (λ e. fire-Allowed (IsConnect p) _ way act h (IsConnect-Allowed p) e),
  (λ e. fire-Allowed (IsCreate q) _ way act k (IsCreate-Allowed q) e),
)
