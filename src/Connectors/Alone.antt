-- ===== src/Connectors/Alone.antt =====
-- The writes of the page of connectors exclude each other.
use oort.Prelude.{
  ◌≤◌, ◌≡◌, refl, ◌≢◌, ◌⊎◌, inl, inr, Bool, true, false, Option, none, some, List, [], ◌∷◌,
  if◌then◌else◌, Bool-cases,
}
use mathlib.Core.List.{Memᴰ}
use oort.Text.{Text, lit}
use oort.Api.{Connector, Failure}
use oort.Api.Call.{
  Call, Answer, Handler, create_connector, update_connector, sync_connector, delete_connector,
}
use oort.Prog.{Result-cases}
use oort.Prog.Machine.{Machine, Reach}
use oort.Prog.Frames.{Frames, Frames-try_catch, Frames-bind}
use oort.Prog.Exclusive.{Aside, Marked, pending, Reach-alone, Marked-finally}
use oort.World.{World, confirmed, toast}
use oort.Toast.{fine}
use oort.Prog.{◌>>◌}
use oort.Text.{text_eq}
use oort.Connectors.{text_or}
use oort.App.{load_workspace}
use oort.App.Aside.{load_workspace-Aside}
use oort.View.{Turn, Action, fire}
use oort.View.Parts.{Printer}
use oort.Connectors.{
  ConnectorsPage, FormValues, while_busy, load, save, sync, remove, edited_or, write_connector,
}
use oort.Connectors.View.{connectors_view}
use oort.Connectors.Controls.{IsControl, saves, leaves, edits, syncs, removes, connectors_fire}

abbrev pub is_write : Call → Bool
is_write (create_connector _ _) = true
is_write (update_connector _ _ _) = true
is_write (sync_connector _ _) = true
is_write (delete_connector _ _) = true
is_write _ = false

abbrev Up : World ConnectorsPage → Type 0
Up w = w.page.busy ≢ []

-- What may start: the first load, a load of the workspace by its timer or the sidebar, or what an
-- event of the user starts on the page as it is rendered, while every connector of the list has an
-- identifier that is not empty.
pub data Starts (pr : Printer) (tenant : Text) (confirm : Text → Bool) (w : World ConnectorsPage)
    : Handler (World ConnectorsPage) → Type 0 where
  loads : Starts pr tenant confirm w (load tenant)
  reloads : (preferred : Option Text) → Starts pr tenant confirm w (load_workspace preferred)
  presses :
      (way : List Turn) (act : Action) (p : Handler (World ConnectorsPage))
      → ((c : Connector) → Memᴰ c w.page.connectors → c.id ≢ [])
      → fire (connectors_view pr tenant confirm w.page) way act ≡ some p
      → Starts pr tenant confirm w p

load-Aside : (tenant : Text) → Aside is_write Up (load tenant)
unfolding load
load-Aside tenant = (
  refl,
  λ r. elim (Result-cases r) [
    | inl (cs, e) ↦ rw e ((λ s q. q), tt)
    | inr (f, e) ↦ rw e ((λ s q. q), tt)
  ],
)

load-Frames : (tenant : Text) → Frames Up (load tenant)
unfolding load
load-Frames tenant r = elim (Result-cases r) [
  | inl (cs, e) ↦ rw e ((λ s q. q), tt)
  | inr (f, e) ↦ rw e ((λ s q. q), tt)
]

-- A busy mark that is a text is up while its handler works.
while_busy-Marked :
    (id : Text) (body : Handler (World ConnectorsPage)) (w : World ConnectorsPage)
    → id ≢ []
    → Frames Up body
    → Marked is_write Up (while_busy id body) w
unfolding while_busy
while_busy-Marked id body w h f =
    Marked-finally is_write Up body (λ v. record v { page = record (v.page) { busy = [] } }) _ h f

text_or_nonempty : (s : Text) → text_or s (lit "create") ≢ []
unfolding lit
text_or_nonempty [] e = cc
text_or_nonempty (c ∷ s) e = cc

name_nonempty : (c : Option Connector) → edited_or (λ x. x.id) c (lit "create") ≢ []
unfolding lit
name_nonempty none e = cc
name_nonempty (some c) e = text_or_nonempty c.id e

write_connector-Frames :
    (tenant : Text) (editing : Option Connector) (v : FormValues)
    → Frames Up (write_connector tenant editing v)
write_connector-Frames tenant none v =
    λ r. elim (Result-cases r) [ inl (c, e) ↦ rw e tt | inr (f, e) ↦ rw e tt ]
write_connector-Frames tenant (some x) v =
    λ r. elim (Result-cases r) [ inl (c, e) ↦ rw e tt | inr (f, e) ↦ rw e tt ]

save-Marked :
    (tenant : Text) (editing : Option Connector) (v : FormValues) (w : World ConnectorsPage)
    → Marked is_write Up (save tenant editing v) w
unfolding save
save-Marked tenant editing v w = while_busy-Marked _ _ w (name_nonempty editing) (
    Frames-try_catch Up _ _
      (Frames-bind Up (write_connector tenant editing v) _ (write_connector-Frames tenant editing v)
        (λ _. ((λ s q. q), ((λ s q. q), load-Frames tenant))))
      (λ e. ((λ s q. q), tt)))

sync-Marked :
    (tenant : Text) (editing : Option Connector) (c : Connector) (w : World ConnectorsPage)
    → c.id ≢ []
    → Marked is_write Up (sync tenant editing c) w
unfolding sync
sync-Marked tenant editing c w h = while_busy-Marked _ _ w h (λ r. elim (Result-cases r) [
  | inl (j, e) ↦
      rw e (
        (λ s q. q),
        Frames-try_catch Up (load tenant) _ (load-Frames tenant) (λ e. ((λ s q. q), tt)),
      )
  | inr (f, e) ↦ rw e ((λ s q. q), tt)
])

-- What a deletion does to the connector that is edited leaves the busy mark.
left_busy :
    (editing : Option Connector) (c : Connector) (p : ConnectorsPage)
    → p.busy ≢ []
    → (elim editing as (λ _. ConnectorsPage) [
      | none ↦ p
      | some x ↦ if text_eq x.id c.id then record p { editing = none } else p
    ]).busy
      ≢ []
left_busy none c p h = h
left_busy (some x) c p h = elim (Bool-cases (text_eq x.id c.id)) [ inl y ↦ rw y h | inr n ↦ rw n h ]

confirmed-Marked :
    (b : Bool) (p : Handler (World ConnectorsPage)) (w : World ConnectorsPage)
    → Marked is_write Up p w
    → Marked is_write Up (confirmed b p) w
unfolding confirmed
confirmed-Marked true p w h = h
confirmed-Marked false p w h = tt

remove-Marked :
    (tenant : Text) (editing : Option Connector) (confirm : Text → Bool) (c : Connector)
    (w : World ConnectorsPage)
    → c.id ≢ []
    → Marked is_write Up (remove tenant editing confirm c) w
unfolding remove
remove-Marked tenant editing confirm c w h = confirmed-Marked _ _ w (
    while_busy-Marked _ _ w h (λ r. elim (Result-cases r) [
      | inl (u, e) ↦ rw e (
        (λ s q. left_busy editing c s.page q),
        Frames-try_catch Up (load tenant >> toast (lit "Connector deleted") [] fine) _
            (Frames-bind Up (load tenant) _ (load-Frames tenant) (λ _. ((λ s q. q), tt)))
            (λ e. ((λ s q. q), tt)),
      )
      | inr (f, e) ↦ rw e ((λ s q. q), tt)
    ]))

control-starts :
    (tenant : Text) (confirm : Text → Bool) (w : World ConnectorsPage)
    (p : Handler (World ConnectorsPage))
    → ((c : Connector) → Memᴰ c w.page.connectors → c.id ≢ [])
    → IsControl tenant confirm w.page p
    → Aside is_write Up p ⊎ ((Up w → ⊥) × Marked is_write Up p w)
control-starts tenant confirm w _ ids (saves v q) =
    inr ((λ u. u q), save-Marked tenant w.page.editing v w)
control-starts tenant confirm w _ ids (leaves q) = inl ((λ s u. u), tt)
control-starts tenant confirm w _ ids (edits c m q) = inl ((λ s u. u), tt)
control-starts tenant confirm w _ ids (syncs c m q) =
    inr ((λ u. u q), sync-Marked tenant w.page.editing c w (ids c m))
control-starts tenant confirm w _ ids (removes c m q) =
    inr ((λ u. u q), remove-Marked tenant w.page.editing confirm c w (ids c m))

starts_well :
    (pr : Printer) (tenant : Text) (confirm : Text → Bool) (w : World ConnectorsPage)
    (p : Handler (World ConnectorsPage))
    → Starts pr tenant confirm w p
    → Aside is_write Up p ⊎ ((Up w → ⊥) × Marked is_write Up p w)
starts_well pr tenant confirm w _ loads = inl (load-Aside tenant)
starts_well pr tenant confirm w _ (reloads preferred) =
    inl (load_workspace-Aside is_write (λ p. p.busy ≢ []) refl (λ t. refl) preferred)
starts_well pr tenant confirm w _ (presses way act p ids e) =
    control-starts tenant confirm w p ids (connectors_fire pr tenant confirm w.page way act p e)

-- Start with no handler waiting. Whatever the user does with the page of connectors as it is
-- rendered, whatever is loaded, and in whatever order the calls are answered: at most one call that
-- creates, updates, syncs or deletes a connector waits at a time, and while it does there is a busy
-- mark. An event is taken to come only while every connector of the list has an identifier that is
-- not empty.
pub one_write :
    (pr : Printer) (tenant : Text) (confirm : Text → Bool) (w : World ConnectorsPage)
    (m : Machine Call Answer Failure (World ConnectorsPage) (Unit {0}))
    → Reach (Starts pr tenant confirm) (record { state = w; waiting = [] }) m
    → (pending is_write Up m.waiting ≤ 1)
      × (1 ≤ pending is_write Up m.waiting → m.state.page.busy ≢ [])
one_write pr tenant confirm w m r =
    Reach-alone is_write Up (Starts pr tenant confirm) (starts_well pr tenant confirm) w m r
