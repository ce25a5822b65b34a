-- ===== src/Queries/Notices.antt =====
-- The store of notices under every interleaving of the workbench with the timers of notices.
use oort.Prelude.{ℕ, inl, inr, Bool, false, Option, none, some, [], Bool-cases}
use oort.Text.{Text}
use oort.Text.Slug.{is_slug}
use oort.Text.Walk.{trim}
use oort.Json.{Json}
use oort.Api.{Dashboard, Failure, message_of}
use oort.Api.Call.{Call, Answer, Handler}
use oort.Prog.{◌>>=◌, call, update, try_catch}
use oort.Prog.Frames.{
  Frames, Frames-bind, Frames-call, Frames-try_catch, Frames-finally, Frames-Keeps,
}
use oort.Prog.Machine.{Machine, Reach, Keeps, Reach-IsKept}
use oort.Toast.{Kind, expire, error}
use oort.Toast.Laws.{IsValid, push-IsValid, expire-IsValid}
use oort.World.{World, toast}
use oort.World.Frames.{confirmed-Frames, on_some-Frames}
use oort.App.{load_workspace}
use oort.App.Frames.{loaded-Frames}
use oort.Queries.{Workbench, on_parsed, while_running, set_running, select, run_draft, save, remove}
use oort.Queries.Events
use oort.Queries.Events.{selects, edits, loads, runs, saves, removes}

-- What may start: an event of the workbench, or the timer of a notice.
pub data Starts (confirm : Text → Bool) (w : World Workbench)
    : Handler (World Workbench) → Type 0 where
  event : (p : Handler (World Workbench)) → Events.Starts confirm w p → Starts confirm w p
  expires : (id : ℕ) → Starts confirm w (update (λ v. record v { toasts = expire id v.toasts }))

abbrev Valid : World Workbench → Type 0
Valid w = IsValid w.toasts

toast-Valid : (title detail : Text) (kind : Kind) → Frames Valid (toast title detail kind)
toast-Valid title detail kind = ((λ s q. push-IsValid title detail kind s.toasts q), tt)

load-Valid : (preferred : Option Text) → Frames Valid (load_workspace preferred)
load-Valid = loaded-Frames Valid (λ f w q. q) (λ t d k w q. push-IsValid t d k w.toasts q)

-- A body that makes one call, goes on, and reports a failure.
running-Valid :
    (c : Call) (k : Answer c → Handler (World Workbench)) (title : Text)
    → ((a : Answer c) → Frames Valid (k a))
    → Frames Valid
        (while_running (try_catch (call c >>= k) (λ e. toast title (message_of e) error)))
unfolding while_running
running-Valid c k title h =
    let p = call c >>= k in
    let failed = λ (e : Failure). toast {P = Workbench} title (message_of e) error in
    (
      (λ s q. q),
      Frames-finally Valid (try_catch p failed) (set_running false)
          (Frames-try_catch Valid p failed (Frames-call Valid c k h)
            (λ e. toast-Valid title (message_of e) error))
          ((λ s q. q), tt),
    )

parsed-Valid :
    (parsed : Option Json) (k : Json → Handler (World Workbench))
    → ((v : Json) → Frames Valid (k v))
    → Frames Valid (on_parsed parsed k)
unfolding on_parsed
parsed-Valid none k h = toast-Valid _ _ _
parsed-Valid (some v) k h = h v

module _ (d : Dashboard) (rendered : Workbench) where
  run_draft-Valid : Frames Valid (run_draft d rendered)
  unfolding run_draft
  run_draft-Valid =
      parsed-Valid _ _ (λ v. running-Valid _ _ _ (λ r. ((λ s q. q), toast-Valid _ _ _)))

  save-Valid : Frames Valid (save d rendered)
  unfolding save
  save-Valid = elim (Bool-cases (is_slug (trim rendered.draft.name))) [
    | inr n ↦ rw n (toast-Valid _ _ _)
    | inl y ↦ rw y (
        parsed-Valid _ _ (λ v. running-Valid _ _ _ (λ q.
          ((λ s h. h), ((λ s h. push-IsValid _ _ _ s.toasts h), load-Valid (some d.tenant.slug))))))
  ]

  remove-Valid : (confirm : Text → Bool) → Frames Valid (remove d rendered confirm)
  unfolding remove
  remove-Valid confirm = on_some-Frames Valid _ _ (λ slug. confirmed-Frames Valid _ _ (
      running-Valid _ _ _ (λ _. (
        (λ s h. h),
        (
          (λ s h. h),
          (
            (λ s h. h),
            Frames-bind Valid (load_workspace (some d.tenant.slug)) _ (load-Valid _)
                (λ _. toast-Valid _ _ _),
          ),
        ),
      ))))

event-Valid :
    (confirm : Text → Bool) (w : World Workbench) (p : Handler (World Workbench))
    → Events.Starts confirm w p
    → Frames Valid p
unfolding select
event-Valid confirm w _ (selects d slug e) = ((λ s q. q), tt)
event-Valid confirm w _ (edits f) = ((λ s q. q), tt)
event-Valid confirm w _ (loads preferred) = load-Valid preferred
event-Valid confirm w _ (runs d e) = run_draft-Valid d w.page
event-Valid confirm w _ (saves d e) = save-Valid d w.page
event-Valid confirm w _ (removes d e) = remove-Valid d w.page confirm

Starts-Keeps :
    (confirm : Text → Bool) (w : World Workbench) (p : Handler (World Workbench))
    → Valid w
    → Starts confirm w p
    → Keeps Valid p w
Starts-Keeps confirm w _ v (expires id) = expire-IsValid id w.toasts v
Starts-Keeps confirm w p v (event _ s) = Frames-Keeps Valid p w v (event-Valid confirm w p s)

-- If the store is valid, that is, the notices have the identifiers of the running timers in the
-- same order, and these rise and are below the next identifier, then it is valid in every state
-- that the handlers of the workbench, loads of the workspace and timers of notices lead to, in any
-- order.
pub Reach-IsValid :
    (confirm : Text → Bool) (w : World Workbench)
    (m : Machine Call Answer Failure (World Workbench) (Unit {0}))
    → IsValid w.toasts
    → Reach (Starts confirm) (record { state = w; waiting = [] }) m
    → IsValid m.state.toasts
Reach-IsValid confirm w m v r =
    let kept =
      Reach-IsKept Valid (Starts confirm) (Starts-Keeps confirm) (record { holds = v; ready = tt })
        r in
    kept.holds
