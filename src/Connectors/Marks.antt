-- ===== src/Connectors/Marks.antt =====
-- The busy mark of the page of connectors, under every interleaving of its handlers.
use oort.Prelude.{◌≡◌, refl, ◌⊎◌, inl, inr, Bool, Option, []}
use oort.Text.{Text}
use oort.Api.{Connector, Failure}
use oort.Api.Call.{Call, Answer, Handler}
use oort.Prog.{finally, Result-cases}
use oort.Prog.Machine.{Machine, Reach}
use oort.Prog.Quiet.{Rests, Leaves-Rests, Leaves-finally}
use oort.Prog.Marks.{Steady, Reach-rests}
use oort.Prog.Frames.{Frames-Steady}
use oort.App.{load_workspace}
use oort.App.Frames.{load_workspace-Frames}
use oort.World.{World, set_page}
use oort.World.Quiet.{confirmed-Rests}
use oort.Connectors.{ConnectorsPage, FormValues, while_busy, load, save, sync, remove}

-- What may start: the first load, a button, a change of the connector that is edited, or a load of
-- the workspace by its timer or the sidebar.
pub data Starts (tenant : Text) (confirm : Text → Bool) (w : World ConnectorsPage)
    : Handler (World ConnectorsPage) → Type 0 where
  loads : Starts tenant confirm w (load tenant)
  reloads : (preferred : Option Text) → Starts tenant confirm w (load_workspace preferred)
  edits :
      (c : Option Connector) → Starts tenant confirm w (set_page (λ p. record p { editing = c }))
  saves : (v : FormValues) → Starts tenant confirm w (save tenant w.page.editing v)
  syncs : (c : Connector) → Starts tenant confirm w (sync tenant w.page.editing c)
  removes : (c : Connector) → Starts tenant confirm w (remove tenant w.page.editing confirm c)

abbrev IsIdle : World ConnectorsPage → Type 0
IsIdle w = w.page.busy ≡ []

load-Steady : (tenant : Text) (w : World ConnectorsPage) → Steady IsIdle (load tenant) w (IsIdle w)
unfolding load
load-Steady tenant w = (
  (λ q. q),
  λ r t. elim (Result-cases r) [ inl (cs, e) ↦ rw e (λ q. q) | inr (f, e) ↦ rw e (λ q. q) ],
)

while_busy-Rests :
    (id : Text) (body : Handler (World ConnectorsPage)) (w : World ConnectorsPage) (q : Type 0)
    → Rests IsIdle (while_busy id body) w q
unfolding while_busy
while_busy-Rests id body w q =
    let reset = set_page (λ p. record p { busy = [] }) in
    Leaves-Rests IsIdle (finally body reset) _ q (Leaves-finally IsIdle body reset _ (λ t. refl))

starts_well :
    (tenant : Text) (confirm : Text → Bool) (w : World ConnectorsPage)
    (p : Handler (World ConnectorsPage))
    → Starts tenant confirm w p
    → Rests IsIdle p w (IsIdle w) ⊎ Steady IsIdle p w (IsIdle w)
unfolding save sync remove
starts_well tenant confirm w _ loads = inr (load-Steady tenant w)
starts_well tenant confirm w _ (reloads preferred) = inr (
    Frames-Steady IsIdle (load_workspace preferred) w (IsIdle w) (λ q. q)
      (load_workspace-Frames (λ p. p.busy ≡ []) preferred))
starts_well tenant confirm w _ (edits c) = inr (λ q. q)
starts_well tenant confirm w _ (saves v) = inl (while_busy-Rests _ _ w (IsIdle w))
starts_well tenant confirm w _ (syncs c) = inl (while_busy-Rests _ _ w (IsIdle w))
starts_well tenant confirm w _ (removes c) =
    inl (confirmed-Rests IsIdle _ _ w (while_busy-Rests _ _ w (IsIdle w)))

-- If the page of connectors starts with no busy mark and no handler waiting, then whatever saves,
-- syncs, deletions, edits and loads were started, and in whatever order their calls were answered:
-- once no handler is waiting, there is no busy mark.
pub busy_ends :
    (tenant : Text) (confirm : Text → Bool) (w : World ConnectorsPage)
    (m : Machine Call Answer Failure (World ConnectorsPage) (Unit {0}))
    → w.page.busy ≡ []
    → Reach (Starts tenant confirm) (record { state = w; waiting = [] }) m
    → m.waiting ≡ []
    → m.state.page.busy ≡ []
busy_ends tenant confirm w m q r e =
    Reach-rests IsIdle (Starts tenant confirm) (starts_well tenant confirm) w m q r e
