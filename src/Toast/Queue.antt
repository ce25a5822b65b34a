-- ===== src/Toast/Queue.antt =====
-- The store of notices as a queue: what a reader sees is a queue of notices, of which the timers take
-- the oldest.
use oort.Prelude.{
  ℕ, ◌<◌, ◌≡◌, refl, sym, ap, ◌∙◌, not, List, [], ◌∷◌, ◌++◌, map, arith, ◌==◌, filter, All,
}
use mathlib.Core.Path.{subst}
use oort.Text.{Text}
use oort.Toast.{Toast, Kind, Store, push, expire}
use oort.Toast.Laws.{IsValid, ids, Rising, push-IsValid, expire-IsValid}

-- a notice without its identifier
abbrev pub Note : Type 0
Note = Text × Text × Kind

abbrev pub note : Toast → Note
note t = (t.title, t.detail, t.kind)

abbrev pub shown : Store → List Note
shown s = map note s.toasts

-- What happens to the store: a notice is shown, or the timer that was started first fires.
pub data Event : Type 0 where
  shows : Text → Text → Kind → Event
  fires : Event

abbrev fire_first : List ℕ → Store → Store
fire_first [] s = s
fire_first (i ∷ is) s = expire i s

abbrev pub happen : Event → Store → Store
happen (shows title detail kind) s = push title detail kind s
happen fires s = fire_first s.timers s

abbrev pub happen_all : List Event → Store → Store
happen_all [] s = s
happen_all (v ∷ vs) s = happen_all vs (happen v s)

-- the same for a queue
abbrev drop_first : List Note → List Note
drop_first [] = []
drop_first (n ∷ ns) = ns

abbrev pub queue_after : Event → List Note → List Note
queue_after (shows title detail kind) q = q ++ (title, detail, kind) ∷ []
queue_after fires q = drop_first q

abbrev pub queue_after_all : List Event → List Note → List Note
queue_after_all [] q = q
queue_after_all (v ∷ vs) q = queue_after_all vs (queue_after v q)

map-last : (ts : List Toast) (t : Toast) → map note (ts ++ t ∷ []) ≡ map note ts ++ note t ∷ []
map-last [] t = refl
map-last (u ∷ ts) t = cc (map-last ts t)

keep-above :
    (i : ℕ) (ts : List Toast) → All (λ j. i < j) (ids ts) → filter (λ t. not (t.id == i)) ts ≡ ts
keep-above i [] h = refl
keep-above i (t ∷ ts) (p, h) = ground (arith, keep-above i ts h)

drop-oldest :
    (t : Toast) (ts : List Toast)
    → All (λ j. t.id < j) (ids ts)
    → filter (λ u. not (u.id == t.id)) (t ∷ ts) ≡ ts
drop-oldest t ts h = ground (arith, keep-above t.id ts h)

-- the first timer removes the oldest notice
shown-fire_first :
    (ts : List Toast) (s : Store)
    → IsValid s
    → s.toasts ≡ ts
    → shown (fire_first s.timers s) ≡ drop_first (map note ts)
unfolding expire
shown-fire_first [] s v e =
    ap (λ is. shown (fire_first is s)) (sym v.timed ∙ ap ids e) ∙ ap (map note) e
shown-fire_first (t ∷ ts) s v e =
    let timers : s.timers ≡ ids (t ∷ ts) = sym v.timed ∙ ap ids e in
    let rising : Rising (ids (t ∷ ts)) s.next_id =
      subst (λ l. Rising l s.next_id) timers v.rising in
    ap (λ is. shown (fire_first is s)) timers
    ∙ (ap (λ l. map note (filter (λ u. not (u.id == t.id)) l)) e
        ∙ ap (map note) (drop-oldest t ts (rising.1)))

shown-happen : (v : Event) (s : Store) → IsValid s → shown (happen v s) ≡ queue_after v (shown s)
unfolding push
shown-happen (shows title detail kind) s h = map-last s.toasts _
shown-happen fires s h = shown-fire_first s.toasts s h refl

fire_first-IsValid : (is : List ℕ) (s : Store) → IsValid s → IsValid (fire_first is s)
fire_first-IsValid [] s v = v
fire_first-IsValid (i ∷ is) s v = expire-IsValid i s v

happen-IsValid : (v : Event) (s : Store) → IsValid s → IsValid (happen v s)
happen-IsValid (shows title detail kind) s h = push-IsValid title detail kind s h
happen-IsValid fires s h = fire_first-IsValid s.timers s h

-- In a valid store, whatever notices are shown and however often the first timer fires, and in
-- whatever order: what the store shows is the queue to which each notice was added at its end, and
-- from which each timer took the first.
pub happen_all-queue :
    (vs : List Event) (s : Store)
    → IsValid s
    → shown (happen_all vs s) ≡ queue_after_all vs (shown s)
happen_all-queue [] s h = refl
happen_all-queue (v ∷ vs) s h =
    happen_all-queue vs (happen v s) (happen-IsValid v s h)
    ∙ ap (queue_after_all vs) (shown-happen v s h)
