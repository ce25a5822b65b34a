-- ===== src/Prog/Trace.antt =====
-- Runs of a machine by the order of what happened: which handler was started, which call was
-- answered, and by what.
use oort.Prelude.{◌≡◌, List, [], ◌∷◌, ◌++◌, map}
use oort.Prog.{Prog, Result}
use oort.Prog.Machine.{Task, waits, Machine, spawn}

pub data Event (C : Type 0) (R : C → Type 0) (E S A : Type 0) : Type 0 where
  started : Prog C R E S A → Event C R E S A
  answered : (c : C) → Result E (R c) → Event C R E S A

module _ {C : Type 0} {R : C → Type 0} {E S A : Type 0} where
  -- `Trace Starts m es n`: from `m` the events `es`, in this order, lead to `n`.
  pub data Trace (Starts : S → Prog C R E S A → Type 0)
      : Machine C R E S A → List (Event C R E S A) → Machine C R E S A → Type 0 where
    done : {m : Machine C R E S A} → Trace Starts m [] m
    starts :
        {m n : Machine C R E S A} {es : List (Event C R E S A)} (p : Prog C R E S A)
        → Starts m.state p
        → Trace Starts (spawn p m.state m.waiting) es n
        → Trace Starts m (started p ∷ es) n
    answers :
        {m n : Machine C R E S A} {es : List (Event C R E S A)}
        (before after : List (Task C R E S A)) (c : C) (k : Result E (R c) → Prog C R E S A)
        (r : Result E (R c))
        → m.waiting ≡ before ++ waits c k ∷ after
        → Trace Starts (spawn (k r) m.state (before ++ after)) es n
        → Trace Starts m (answered c r ∷ es) n

  -- the calls that wait for their answers, the oldest first
  abbrev pub calls_waiting : Machine C R E S A → List C
  calls_waiting m = map (λ t. elim t [ waits c k ↦ c ]) m.waiting
