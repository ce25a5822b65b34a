-- ===== src/Prog/Machine.antt =====
-- Handlers interleaved in every possible way, and the rule that proves an invariant of the state
-- they share.
use oort.Prelude.{◌≡◌, List, [], ◌∷◌, ◌++◌, All, All-append}
use mathlib.Core.Path.{subst}
use oort.Prog.{Prog, ret, throw, read, write, await, Result}

-- A handler that waits for the reply to its call.
pub data Task (C : Type 0) (R : C → Type 0) (E S A : Type 0) : Type 0 where
  waits : (c : C) → (Result E (R c) → Prog C R E S A) → Task C R E S A

pub record Machine (C : Type 0) (R : C → Type 0) (E S A : Type 0) : Type 0 where
  pub state : S
  pub waiting : List (Task C R E S A)

module _ {C : Type 0} {R : C → Type 0} {E S A : Type 0} where
  -- Run up to the next `await`, or to the end, where an error that nothing catches is dropped.
  abbrev pub advance : Prog C R E S A → S → S × List (Task C R E S A)
  advance (ret a) s = (s, [])
  advance (throw e) s = (s, [])
  advance (read k) s = advance (k s) s
  advance (write g p) s = advance p (g s)
  advance (await c k) s = (s, waits c k ∷ [])

  abbrev pub spawn : Prog C R E S A → S → List (Task C R E S A) → Machine C R E S A
  spawn p s ts = let (t, new) = advance p s in record { state = t; waiting = ts ++ new }

  -- `Starts s p`: in the state `s` an event may start the handler `p`.
  module _ (Starts : S → Prog C R E S A → Type 0) where
    pub data Step (m : Machine C R E S A) : Machine C R E S A → Type 0 where
      begin : (p : Prog C R E S A) → Starts m.state p → Step m (spawn p m.state m.waiting)
      reply :
          (before after : List (Task C R E S A)) (c : C) (k : Result E (R c) → Prog C R E S A)
          (r : Result E (R c))
          → m.waiting ≡ before ++ waits c k ∷ after
          → Step m (spawn (k r) m.state (before ++ after))

    pub data Reach (m : Machine C R E S A) : Machine C R E S A → Type 0 where
      here : Reach m m
      next : {n o : Machine C R E S A} → Reach m n → Step n o → Reach m o

  module _ (P : S → Type 0) where
    -- `p`, started in `s`, meets `P` at each `await` and at its end, if `P` holds when a reply comes.
    abbrev pub Keeps : Prog C R E S A → S → Type 0
    Keeps (ret a) s = P s
    Keeps (throw e) s = P s
    Keeps (read k) s = Keeps (k s) s
    Keeps (write g p) s = Keeps p (g s)
    Keeps (await c k) s = P s × ((r : Result E (R c)) (t : S) → P t → Keeps (k r) t)

    abbrev pub Ready : Task C R E S A → Type 0
    Ready (waits c k) = (r : Result E (R c)) (t : S) → P t → Keeps (k r) t

    advance-Keeps :
        (p : Prog C R E S A) (s : S) → Keeps p s → P (advance p s).0 × All Ready (advance p s).1
    advance-Keeps (ret a) s h = (h, tt)
    advance-Keeps (throw e) s h = (h, tt)
    advance-Keeps (read k) s h = advance-Keeps (k s) s h
    advance-Keeps (write g p) s h = advance-Keeps p (g s) h
    advance-Keeps (await c k) s h = (h.0, (h.1, tt))

    All-split :
        (before : List (Task C R E S A)) (t : Task C R E S A) (after : List (Task C R E S A))
        → All Ready (before ++ t ∷ after)
        → Ready t × All Ready (before ++ after)
    All-split [] t after h = h
    All-split (x ∷ xs) t after (p, h) = let (q, k) = All-split xs t after h in (q, (p, k))

    -- The state satisfies `P`, and every waiting handler keeps it when its reply comes.
    pub record IsKept (m : Machine C R E S A) : Type 0 where
      pub holds : P m.state
      pub ready : All Ready m.waiting

    spawn-IsKept :
        (p : Prog C R E S A) (s : S) (ts : List (Task C R E S A))
        → Keeps p s
        → All Ready ts
        → IsKept (spawn p s ts)
    spawn-IsKept p s ts h k =
        let (held, new) = advance-Keeps p s h in
        record { holds = held; ready = All-append Ready ts _ k new }

    module _ (Starts : S → Prog C R E S A → Type 0)
        (keeps : (s : S) (p : Prog C R E S A) → P s → Starts s p → Keeps p s) where
      Step-IsKept : {m n : Machine C R E S A} → Step Starts m n → IsKept m → IsKept n
      Step-IsKept {m} (begin p h) v = spawn-IsKept p _ _ (keeps m.state p v.holds h) v.ready
      Step-IsKept {m} (reply before after c k r e) v =
          let (now, rest) = All-split before (waits c k) after (subst (All Ready) e v.ready) in
          spawn-IsKept (k r) _ _ (now r m.state v.holds) rest

      pub Reach-IsKept : {m n : Machine C R E S A} → IsKept m → Reach Starts m n → IsKept n
      Reach-IsKept v here = v
      Reach-IsKept v (next r st) = Step-IsKept st (Reach-IsKept v r)
