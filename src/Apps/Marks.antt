-- ===== src/Apps/Marks.antt =====
-- The marks of a rollback and of a deletion, under every interleaving of the handlers of the page
-- and of loads of the workspace.
use oort.Prelude.{ℕ, ◌≡◌, refl, ◌⊎◌, inl, inr, Bool, true, false, Option, some, [], ◌++◌}
use oort.Text.{Text, lit}
use oort.Api.{Dashboard, Failure}
use oort.Api.Call.{Call, Answer, Handler, rollback, delete_app}
use oort.Prog.{finally, try_catch, ◌>>◌, Result-cases}
use oort.Prog.Frames.{
  Frames, Frames-bind, Frames-call, Frames-try_catch, Frames-finally, Frames-Steady,
}
use oort.Prog.Machine.{Machine, Reach}
use oort.Prog.Quiet.{Rests, Leaves-Rests, Leaves-finally}
use oort.Prog.Marks.{Steady, Reach-rests}
use oort.Toast.{fine}
use oort.Json.{show}
use oort.World.{World, set_page, toast}
use oort.World.Quiet.{confirmed-Rests}
use oort.World.Frames.{confirmed-Frames}
use oort.App.{load_workspace}
use oort.App.Frames.{OnPage, load_workspace-Frames}
use oort.Apps.{
  reload, AppsPage, open_app, while_rolling_back, while_deleting, roll_back, remove, restore,
  restore_failed, delete, delete_failed,
}

-- What may start: a button of the page, or a load of the workspace by the timer or the sidebar.
pub data Starts (confirm : Text → Bool) (w : World AppsPage)
    : Handler (World AppsPage) → Type 0 where
  opens : (allowed : Bool) (tenant slug : Text) → Starts confirm w (open_app allowed tenant slug)
  rolls_back :
      (d : Dashboard) (deployment slug : Text) (version : ℕ)
      → w.app.dashboard ≡ some d
      → Starts confirm w (roll_back d confirm deployment slug version)
  removes :
      (d : Dashboard) (slug : Text)
      → w.app.dashboard ≡ some d
      → Starts confirm w (remove d confirm slug)
  loads : (preferred : Option Text) → Starts confirm w (load_workspace preferred)

abbrev NotRollingBack : AppsPage → Type 0
NotRollingBack p = p.rolling_back ≡ []

abbrev NotDeleting : AppsPage → Type 0
NotDeleting p = p.deleting ≡ []

-- The opening of an app keeps what holds of the other two fields.
module _ (M : Text → Text → Type 0) where
  abbrev OfMarks : World AppsPage → Type 0
  OfMarks w = M w.page.rolling_back w.page.deleting

  open_app-Frames :
      (allowed : Bool) (tenant slug : Text) → Frames OfMarks (open_app allowed tenant slug)
  unfolding open_app
  open_app-Frames true tenant slug = (
    (λ s q. q),
    λ r. elim (Result-cases r) [
      | inl (u, e) ↦ rw e ((λ s q. q), tt)
      | inr (f, e) ↦ rw e ((λ s q. q), ((λ s q. q), tt))
    ],
  )
  open_app-Frames false tenant slug = (
    (λ s q. q),
    λ r. elim (Result-cases r) [
      | inl (u, e) ↦ rw e ((λ s q. q), tt)
      | inr (f, e) ↦ rw e ((λ s q. q), ((λ s q. q), tt))
    ],
  )

-- A body between the setting and the resetting of a mark keeps what holds of the page.
restore-Frames :
    (M : AppsPage → Type 0) (d : Dashboard) (deployment slug : Text) (version : ℕ)
    → Frames (OnPage M) (try_catch (restore d deployment slug version) restore_failed)
restore-Frames M d deployment slug version =
    Frames-try_catch (OnPage M) (restore d deployment slug version) restore_failed
      (Frames-call (OnPage M) (rollback d.tenant.slug deployment)
        (λ _.
          toast (lit "Release restored")
            (slug ++ (lit " now serves v" ++ (show version ++ lit "."))) fine
          >> reload d)
        (λ _. ((λ s q. q), load_workspace-Frames M (some d.tenant.slug))))
      (λ e. ((λ s q. q), tt))

delete-Frames :
    (M : AppsPage → Type 0) (d : Dashboard) (slug : Text)
    → Frames (OnPage M) (try_catch (delete d slug) delete_failed)
delete-Frames M d slug =
    Frames-try_catch (OnPage M) (delete d slug) delete_failed
      (Frames-call (OnPage M) (delete_app d.tenant.slug slug) _ (λ _.
        Frames-bind (OnPage M) (load_workspace (some d.tenant.slug)) _
          (load_workspace-Frames M (some d.tenant.slug)) (λ _. ((λ s q. q), tt))))
      (λ e. ((λ s q. q), tt))

module _ (d : Dashboard) (confirm : Text → Bool) (w : World AppsPage) where
  roll_back-Rests :
      (deployment slug : Text) (version : ℕ)
      → Rests
          (OnPage NotRollingBack)
          (roll_back d confirm deployment slug version)
          w
          (OnPage NotRollingBack w)
  unfolding roll_back while_rolling_back
  roll_back-Rests deployment slug version =
      let Q = OnPage NotRollingBack in
      let body = try_catch (restore d deployment slug version) restore_failed in
      let reset = set_page (λ p. record p { rolling_back = [] }) in
      let started : World AppsPage = record w {
        page = record w.page { rolling_back = deployment };
      } in
      confirmed-Rests Q _ _ w (
        Leaves-Rests Q (finally body reset) started (Q w)
          (Leaves-finally Q body reset started (λ t. refl)))

  roll_back-Frames :
      (deployment slug : Text) (version : ℕ)
      → Frames (OnPage NotDeleting) (roll_back d confirm deployment slug version)
  unfolding roll_back while_rolling_back
  roll_back-Frames deployment slug version =
      let body = try_catch (restore d deployment slug version) restore_failed in
      let reset = set_page (λ p. record p { rolling_back = [] }) in
      confirmed-Frames (OnPage NotDeleting) _ _ (
        (λ s q. q),
        Frames-finally (OnPage NotDeleting) body reset
            (restore-Frames NotDeleting d deployment slug version) ((λ s q. q), tt),
      )

  remove-Rests :
      (slug : Text) → Rests (OnPage NotDeleting) (remove d confirm slug) w (OnPage NotDeleting w)
  unfolding remove while_deleting
  remove-Rests slug =
      let Q = OnPage NotDeleting in
      let body = try_catch (delete d slug) delete_failed in
      let reset = set_page (λ p. record p { deleting = [] }) in
      let started : World AppsPage = record w { page = record w.page { deleting = slug } } in
      confirmed-Rests Q _ _ w (
        Leaves-Rests Q (finally body reset) started (Q w)
          (Leaves-finally Q body reset started (λ t. refl)))

  remove-Frames : (slug : Text) → Frames (OnPage NotRollingBack) (remove d confirm slug)
  unfolding remove while_deleting
  remove-Frames slug =
      let body = try_catch (delete d slug) delete_failed in
      let reset = set_page (λ p. record p { deleting = [] }) in
      confirmed-Frames (OnPage NotRollingBack) _ _ (
        (λ s q. q),
        Frames-finally (OnPage NotRollingBack) body reset (delete-Frames NotRollingBack d slug)
            ((λ s q. q), tt),
      )

-- A handler either resets the mark at its end or leaves it alone.
abbrev EndsWell : (AppsPage → Type 0) → World AppsPage → Handler (World AppsPage) → Type 0
EndsWell M w p = Rests (OnPage M) p w (OnPage M w) ⊎ Steady (OnPage M) p w (OnPage M w)

leaves_alone :
    (M : AppsPage → Type 0) (w : World AppsPage) (p : Handler (World AppsPage))
    → Frames (OnPage M) p
    → EndsWell M w p
leaves_alone M w p f = inr (Frames-Steady (OnPage M) p w (OnPage M w) (λ q. q) f)

rolling_back_well :
    (confirm : Text → Bool) (w : World AppsPage) (p : Handler (World AppsPage))
    → Starts confirm w p
    → EndsWell NotRollingBack w p
rolling_back_well confirm w _ (opens allowed tenant slug) =
    leaves_alone NotRollingBack w (open_app allowed tenant slug)
      (open_app-Frames (λ r x. r ≡ []) allowed tenant slug)
rolling_back_well confirm w _ (rolls_back d deployment slug version e) =
    inl (roll_back-Rests d confirm w deployment slug version)
rolling_back_well confirm w _ (removes d slug e) =
    leaves_alone NotRollingBack w (remove d confirm slug) (remove-Frames d confirm w slug)
rolling_back_well confirm w _ (loads preferred) =
    leaves_alone NotRollingBack w (load_workspace preferred)
      (load_workspace-Frames NotRollingBack preferred)

deleting_well :
    (confirm : Text → Bool) (w : World AppsPage) (p : Handler (World AppsPage))
    → Starts confirm w p
    → EndsWell NotDeleting w p
deleting_well confirm w _ (opens allowed tenant slug) =
    leaves_alone NotDeleting w (open_app allowed tenant slug)
      (open_app-Frames (λ r x. x ≡ []) allowed tenant slug)
deleting_well confirm w _ (rolls_back d deployment slug version e) =
    leaves_alone NotDeleting w (roll_back d confirm deployment slug version)
      (roll_back-Frames d confirm w deployment slug version)
deleting_well confirm w _ (removes d slug e) = inl (remove-Rests d confirm w slug)
deleting_well confirm w _ (loads preferred) =
    leaves_alone NotDeleting w (load_workspace preferred)
      (load_workspace-Frames NotDeleting preferred)

-- If the page of apps starts with no mark of a rollback or a deletion and no handler waiting, then
-- whatever apps were opened, rolled back and deleted and whatever workspaces loaded, and in
-- whatever order the calls were answered: once no handler is waiting, there is neither mark.
pub marks_end :
    (confirm : Text → Bool) (w : World AppsPage)
    (m : Machine Call Answer Failure (World AppsPage) (Unit {0}))
    → w.page.rolling_back ≡ []
    → w.page.deleting ≡ []
    → Reach (Starts confirm) (record { state = w; waiting = [] }) m
    → m.waiting ≡ []
    → (m.state.page.rolling_back ≡ []) × (m.state.page.deleting ≡ [])
marks_end confirm w m q q' r e = (
  Reach-rests (OnPage NotRollingBack) (Starts confirm) (rolling_back_well confirm) w m q r e,
  Reach-rests (OnPage NotDeleting) (Starts confirm) (deleting_well confirm) w m q' r e,
)
