-- ===== src/Toast.antt =====
-- internal/server/web/src/toast.ts: the store of notices, its listeners and its timers. A listener
-- is known by a number; `notified` records which listeners were called, the latest call first. A
-- timer is known by the notice that it removes.
pub mod Laws
pub mod Queue
use oort.Prelude.{ℕ, suc, List, [], ◌∷◌, ◌++◌, map, not, ◌==◌, filter}
use oort.Text.{Text}

pub data Kind : Type 0 where
  fine error : Kind

pub record Toast : Type 0 where
  pub id : ℕ
  pub title : Text
  pub detail : Text
  pub kind : Kind

pub record Store : Type 0 where
  pub toasts : List Toast
  pub next_id : ℕ
  pub listeners : List ℕ
  pub timers : List ℕ
  pub notified : List ℕ

abbrev pub fresh : Store
fresh = record { toasts = []; next_id = 1; listeners = []; timers = []; notified = [] }

call_all : List ℕ → List ℕ → List ℕ
call_all [] seen = seen
call_all (l ∷ ls) seen = call_all ls (l ∷ seen)

unfoldable pub publish : List Toast → Store → Store
unfolding call_all
publish new s = record s { toasts = new; notified = call_all s.listeners s.notified }

-- The function `toast`: the entry goes to the end, and a timer starts.
unfoldable pub push : Text → Text → Kind → Store → Store
unfolding publish
push title detail kind s =
    let entry : Toast = record { id = s.next_id; title = title; detail = detail; kind = kind } in
    let shown = publish (s.toasts ++ entry ∷ []) (record s { next_id = suc s.next_id }) in
    record shown { timers = s.timers ++ s.next_id ∷ [] }

-- The callback of the timer of the notice `id`.
unfoldable pub expire : ℕ → Store → Store
unfolding publish
expire id s =
    let rest = publish (filter (λ t. not (t.id == id)) s.toasts) s in
    record rest { timers = filter (λ i. not (i == id)) s.timers }

-- `listeners` is a set.
unfoldable pub subscribe : ℕ → Store → Store
subscribe l s = record s { listeners = filter (λ i. not (i == l)) s.listeners ++ l ∷ [] }

unfoldable pub unsubscribe : ℕ → Store → Store
unsubscribe l s = record s { listeners = filter (λ i. not (i == l)) s.listeners }
