-- ===== src/Prog/Exclusive.antt =====
-- The rule for handlers that exclude each other by a mark: one that starts only while the mark is
-- down, and puts it up before its first `await`, is alone until it ends.
use mathlib.Core.Path.{subst}
use oort.Prelude.{
  ℕ, suc, ◌≤◌, ◌≡◌, refl, ◌⊎◌, inl, inr, Bool, false, List, [], ◌∷◌, ◌++◌, arith, if◌then◌else◌,
  All, All-append,
}
use oort.Prog.{Prog, ret, throw, read, write, await, Result, try_catch, finally, update}
use oort.Prog.Frames.{Frames}
use oort.Prog.Machine.{Task, waits, Machine, advance, spawn, Step, begin, reply, Reach, here, next}

-- `guarded` are the calls that only marked handlers make, `Up` says that the mark is up.
module _ {C : Type 0} {R : C → Type 0} {E S A : Type 0} (guarded : C → Bool) (Up : S → Type 0) where
  -- `p` makes no guarded call, and never takes the mark down.
  abbrev pub Aside : Prog C R E S A → Type 0
  Aside (ret a) = Unit
  Aside (throw e) = Unit
  Aside (read k) = (s : S) → Aside (k s)
  Aside (write g p) = ((s : S) → Up s → Up (g s)) × Aside p
  Aside (await c k) = (guarded c ≡ false) × ((r : Result E (R c)) → Aside (k r))

  -- `p`, started in `s`, has the mark up at each `await`.
  abbrev pub Marked : Prog C R E S A → S → Type 0
  Marked (ret a) s = Unit
  Marked (throw e) s = Unit
  Marked (read k) s = Marked (k s) s
  Marked (write g p) s = Marked p (g s)
  Marked (await c k) s = Up s × ((r : Result E (R c)) (t : S) → Up t → Marked (k r) t)

  abbrev IsAside : Task C R E S A → Type 0
  IsAside (waits c k) = (guarded c ≡ false) × ((r : Result E (R c)) → Aside (k r))

  abbrev IsMarked : Task C R E S A → Type 0
  IsMarked (waits c k) = (r : Result E (R c)) (t : S) → Up t → Marked (k r) t

  -- All handlers but one stand aside.
  abbrev Lone : List (Task C R E S A) → Type 0
  Lone [] = ⊥
  Lone (t ∷ ts) = (IsMarked t × All IsAside ts) ⊎ (IsAside t × Lone ts)

  -- No handler is marked, or one is, and the mark is up.
  abbrev Ordered : Machine C R E S A → Type 0
  Ordered m = All IsAside m.waiting ⊎ (Up m.state × Lone m.waiting)

  -- the guarded calls that wait
  abbrev pub pending : List (Task C R E S A) → ℕ
  pending [] = 0
  pending (waits c k ∷ ts) = let n = pending ts in if guarded c then suc n else n

  advance-Aside :
      (p : Prog C R E S A) (s : S)
      → Aside p
      → (Up s → Up (advance p s).0) × All IsAside (advance p s).1
  advance-Aside (ret a) s h = ((λ u. u), tt)
  advance-Aside (throw e) s h = ((λ u. u), tt)
  advance-Aside (read k) s h = advance-Aside (k s) s (h s)
  advance-Aside (write g p) s (w, h) =
      let (up, new) = advance-Aside p (g s) h in ((λ u. up (w s u)), new)
  advance-Aside (await c k) s h = ((λ u. u), (h, tt))

  append-Lone : (ts us : List (Task C R E S A)) → Lone ts → All IsAside us → Lone (ts ++ us)
  append-Lone [] us h k = absurd h
  append-Lone (t ∷ ts) us (inl (m, a)) k = inl (m, All-append IsAside ts us a k)
  append-Lone (t ∷ ts) us (inr (a, l)) k = inr (a, append-Lone ts us l k)

  Lone-last :
      (ts : List (Task C R E S A)) (t : Task C R E S A)
      → All IsAside ts
      → IsMarked t
      → Lone (ts ++ t ∷ [])
  Lone-last [] t a m = inl (m, tt)
  Lone-last (u ∷ ts) t (a, as') m = inr (a, Lone-last ts t as' m)

  spawn-Aside :
      (p : Prog C R E S A) (s : S) (ts : List (Task C R E S A))
      → Aside p
      → All IsAside ts ⊎ (Up s × Lone ts)
      → Ordered (spawn p s ts)
  spawn-Aside p s ts h (inl a) = inl (All-append IsAside ts _ a (advance-Aside p s h).1)
  spawn-Aside p s ts h (inr (u, l)) =
      let (up, new) = advance-Aside p s h in inr (up u, append-Lone ts _ l new)

  spawn-Marked :
      (p : Prog C R E S A) (s : S) (ts : List (Task C R E S A))
      → Marked p s
      → All IsAside ts
      → Ordered (spawn p s ts)
  spawn-Marked (ret a) s ts h k = inl (All-append IsAside ts [] k tt)
  spawn-Marked (throw e) s ts h k = inl (All-append IsAside ts [] k tt)
  spawn-Marked (read g) s ts h k = spawn-Marked (g s) s ts h k
  spawn-Marked (write g p) s ts h k = spawn-Marked p (g s) ts h k
  spawn-Marked (await c g) s ts (u, h) k = inr (u, Lone-last ts (waits c g) k h)

  All-take :
      (before : List (Task C R E S A)) (t : Task C R E S A) (after : List (Task C R E S A))
      → All IsAside (before ++ t ∷ after)
      → IsAside t × All IsAside (before ++ after)
  All-take [] t after h = h
  All-take (x ∷ xs) t after (p, h) = let (q, k) = All-take xs t after h in (q, (p, k))

  Lone-take :
      (before : List (Task C R E S A)) (t : Task C R E S A) (after : List (Task C R E S A))
      → Lone (before ++ t ∷ after)
      → (IsMarked t × All IsAside (before ++ after)) ⊎ (IsAside t × Lone (before ++ after))
  Lone-take [] t after h = h
  Lone-take (x ∷ xs) t after (inl (m, a)) =
      let (q, k) = All-take xs t after a in inr (q, inl (m, k))
  Lone-take (x ∷ xs) t after (inr (a, l)) = elim (Lone-take xs t after l) [
    | inl (m, k) ↦ inl (m, (a, k))
    | inr (q, k) ↦ inr (q, inr (a, k))
  ]

  pending-Aside : (ts : List (Task C R E S A)) → All IsAside ts → pending ts ≡ 0
  pending-Aside [] h = refl
  pending-Aside (waits c k ∷ ts) (a, h) = rw (a.0) (pending-Aside ts h)

  pending-Lone : (ts : List (Task C R E S A)) → Lone ts → pending ts ≤ 1
  pending-Lone [] h = absurd h
  pending-Lone (waits c k ∷ ts) (inl (m, a)) = ground (arith, pending-Aside ts a)
  pending-Lone (waits c k ∷ ts) (inr (a, l)) = ground (arith, a.0, pending-Lone ts l)

  module _ (Starts : S → Prog C R E S A → Type 0)
      (starts : (s : S) (p : Prog C R E S A)
        → Starts s p
        → Aside p ⊎ ((Up s → ⊥) × Marked p s)) where
    Step-Ordered : {m n : Machine C R E S A} → Step Starts m n → Ordered m → Ordered n
    Step-Ordered {m} (begin p h) v = elim (starts m.state p h) [
      | inl a ↦ spawn-Aside p m.state m.waiting a v
      | inr (down, k) ↦ elim v [
        | inl a ↦ spawn-Marked p m.state m.waiting k a
        | inr (u, l) ↦ absurd (down u)
      ]
    ]
    Step-Ordered {m} (reply before after c k r e) v = elim v [
      | inl a ↦
          let (t, rest) = All-take before (waits c k) after (subst (All IsAside) e a) in
          spawn-Aside (k r) m.state (before ++ after) (t.1 r) (inl rest)
      | inr (u, l) ↦ elim (Lone-take before (waits c k) after (subst Lone e l)) [
        | inl (t, rest) ↦ spawn-Marked (k r) m.state (before ++ after) (t r m.state u) rest
        | inr (t, rest) ↦ spawn-Aside (k r) m.state (before ++ after) (t.1 r) (inr (u, rest))
      ]
    ]

    Reach-Ordered : {m n : Machine C R E S A} → Ordered m → Reach Starts m n → Ordered n
    Reach-Ordered v here = v
    Reach-Ordered v (next r st) = Step-Ordered st (Reach-Ordered v r)

    -- From a state where nothing waits, at most one guarded call waits at a time, and while it does
    -- the mark is up.
    pub Reach-alone :
        (w : S) (m : Machine C R E S A)
        → Reach Starts (record { state = w; waiting = [] }) m
        → (pending m.waiting ≤ 1) × (1 ≤ pending m.waiting → Up m.state)
    Reach-alone w m r = elim (Reach-Ordered (inl tt) r) [
      | inl a ↦
          let none_waits = pending-Aside m.waiting a in
          (ground (arith, none_waits), λ h. absurd (ground (arith, none_waits, h)))
      | inr (u, l) ↦ (pending-Lone m.waiting l, λ _. u)
    ]

module _ {C : Type 0} {R : C → Type 0} {E S : Type 0} (guarded : C → Bool) (Up : S → Type 0) where
  pub Aside-try_catch :
      {A : Type 0} (p : Prog C R E S A) (h : E → Prog C R E S A)
      → Aside guarded Up p
      → ((e : E) → Aside guarded Up (h e))
      → Aside guarded Up (try_catch p h)
  Aside-try_catch (ret a) h f k = tt
  Aside-try_catch (throw e) h f k = k e
  Aside-try_catch (read g) h f k = λ s. Aside-try_catch (g s) h (f s) k
  Aside-try_catch (write g p) h (w, f) k = (w, Aside-try_catch p h f k)
  Aside-try_catch (await c g) h (a, f) k = (a, λ r. Aside-try_catch (g r) h (f r) k)

  -- The mark stays up until the `finally` block.
  pub Marked-finally :
      {A : Type 0} (p : Prog C R E S A) (g : S → S) (s : S)
      → Up s
      → Frames Up p
      → Marked guarded Up (finally p (update g)) s
  Marked-finally (ret a) g s u f = tt
  Marked-finally (throw e) g s u f = tt
  Marked-finally (read k) g s u f = Marked-finally (k s) g s u (f s)
  Marked-finally (write h p) g s u (w, f) = Marked-finally p g (h s) (w s u) f
  Marked-finally (await c k) g s u f = (u, λ r t u'. Marked-finally (k r) g t u' (f r))
