-- ===== src/Prog/Quiet.antt =====
-- Handlers that bring a property about at their end, such as a busy flag that is down.
use oort.Prog.{Prog, ret, throw, read, write, await, Result, ◌>>◌, finally}

module _ {C : Type 0} {R : C → Type 0} {E S A : Type 0} (Q : S → Type 0) where
  -- Wherever `p` ends, `Q` holds, whatever the state was when a reply came.
  abbrev pub Leaves : Prog C R E S A → S → Type 0
  Leaves (ret a) s = Q s
  Leaves (throw e) s = Q s
  Leaves (read k) s = Leaves (k s) s
  Leaves (write g p) s = Leaves p (g s)
  Leaves (await c k) s = (r : Result E (R c)) (t : S) → Leaves (k r) t

  -- So too, but if `p` ends before its first `await`, it may rely on `Q` at its start.
  abbrev pub Rests : Prog C R E S A → S → Type 0 → Type 0
  Rests (ret a) s q = q → Q s
  Rests (throw e) s q = q → Q s
  Rests (read k) s q = Rests (k s) s q
  Rests (write g p) s q = Rests p (g s) q
  Rests (await c k) s q = (r : Result E (R c)) (t : S) → Leaves (k r) t

  pub Leaves-Rests : (p : Prog C R E S A) (s : S) (q : Type 0) → Leaves p s → Rests p s q
  Leaves-Rests (ret a) s q h = λ _. h
  Leaves-Rests (throw e) s q h = λ _. h
  Leaves-Rests (read k) s q h = Leaves-Rests (k s) s q h
  Leaves-Rests (write g p) s q h = Leaves-Rests p (g s) q h
  Leaves-Rests (await c k) s q h = h

module _ {C : Type 0} {R : C → Type 0} {E S : Type 0} (Q : S → Type 0) where
  Leaves-then-ret :
      {A : Type 0} (a : A) (q : Prog C R E S (Unit {0})) (s : S)
      → Leaves Q q s
      → Leaves Q (q >> ret a) s
  Leaves-then-ret a (ret _) s h = h
  Leaves-then-ret a (throw e) s h = h
  Leaves-then-ret a (read k) s h = Leaves-then-ret a (k s) s h
  Leaves-then-ret a (write g p) s h = Leaves-then-ret a p (g s) h
  Leaves-then-ret a (await c k) s h = λ r t. Leaves-then-ret a (k r) t (h r t)

  Leaves-then-throw :
      (A : Type 0) (e : E) (q : Prog C R E S (Unit {0})) (s : S)
      → Leaves Q q s
      → Leaves {A = A} Q (q >> throw e) s
  Leaves-then-throw A e (ret _) s h = h
  Leaves-then-throw A e (throw _) s h = h
  Leaves-then-throw A e (read k) s h = Leaves-then-throw A e (k s) s h
  Leaves-then-throw A e (write g p) s h = Leaves-then-throw A e p (g s) h
  Leaves-then-throw A e (await c k) s h = λ r t. Leaves-then-throw A e (k r) t (h r t)

  -- What the `finally` block brings about holds wherever the whole ends.
  pub Leaves-finally :
      {A : Type 0} (p : Prog C R E S A) (q : Prog C R E S (Unit {0})) (s : S)
      → ((t : S) → Leaves Q q t)
      → Leaves Q (finally p q) s
  Leaves-finally (ret a) q s h = Leaves-then-ret a q s (h s)
  Leaves-finally {A} (throw e) q s h = Leaves-then-throw A e q s (h s)
  Leaves-finally (read k) q s h = Leaves-finally (k s) q s h
  Leaves-finally (write g p) q s h = Leaves-finally p q (g s) h
  Leaves-finally (await c k) q s h = λ r t. Leaves-finally (k r) q t h
