-- ===== src/Prog/Frames.antt =====
-- Handlers of which no step can break a property of the state.
use oort.Prelude.{inl, inr, ℕ, suc}
use oort.Prog.{
  Result-cases, Prog, ret, throw, read, write, await, Result, ◌>>=◌, try_catch, finally, call, run,
}
use oort.Prog.Machine.{Keeps}
use oort.Prog.Marks.{Steady}

module _ {C : Type 0} {R : C → Type 0} {E S : Type 0} (Q : S → Type 0) where
  abbrev pub Frames : {A : Type 0} → Prog C R E S A → Type 0
  Frames (ret a) = Unit
  Frames (throw e) = Unit
  Frames (read k) = (s : S) → Frames (k s)
  Frames (write g p) = ((s : S) → Q s → Q (g s)) × Frames p
  Frames (await c k) = (r : Result E (R c)) → Frames (k r)

  pub Frames-bind :
      {A B : Type 0} (p : Prog C R E S A) (f : A → Prog C R E S B)
      → Frames p
      → ((a : A) → Frames (f a))
      → Frames (p >>= f)
  Frames-bind (ret a) f h k = k a
  Frames-bind (throw e) f h k = tt
  Frames-bind (read g) f h k = λ s. Frames-bind (g s) f (h s) k
  Frames-bind (write g p) f (w, h) k = (w, Frames-bind p f h k)
  Frames-bind (await c g) f h k = λ r. Frames-bind (g r) f (h r) k

  pub Frames-try_catch :
      {A : Type 0} (p : Prog C R E S A) (h : E → Prog C R E S A)
      → Frames p
      → ((e : E) → Frames (h e))
      → Frames (try_catch p h)
  Frames-try_catch (ret a) h f k = tt
  Frames-try_catch (throw e) h f k = k e
  Frames-try_catch (read g) h f k = λ s. Frames-try_catch (g s) h (f s) k
  Frames-try_catch (write g p) h (w, f) k = (w, Frames-try_catch p h f k)
  Frames-try_catch (await c g) h f k = λ r. Frames-try_catch (g r) h (f r) k

  pub Frames-finally :
      {A : Type 0} (p : Prog C R E S A) (q : Prog C R E S (Unit {0}))
      → Frames p
      → Frames q
      → Frames (finally p q)
  Frames-finally (ret a) q h k = Frames-bind q _ k (λ _. tt)
  Frames-finally {A} (throw e) q h k = Frames-bind {B = A} q _ k (λ _. tt)
  Frames-finally (read g) q h k = λ s. Frames-finally (g s) q (h s) k
  Frames-finally (write g p) q (w, h) k = (w, Frames-finally p q h k)
  Frames-finally (await c g) q h k = λ r. Frames-finally (g r) q (h r) k

  pub Frames-call :
      {A : Type 0} (c : C) (k : R c → Prog C R E S A)
      → ((a : R c) → Frames (k a))
      → Frames (call c >>= k)
  Frames-call c k h = λ r. elim (Result-cases r) [ inl (a, e) ↦ rw e (h a) | inr (f, e) ↦ rw e tt ]

  pub Frames-Steady :
      {A : Type 0} (p : Prog C R E S A) (s : S) (q : Type 0) → (q → Q s) → Frames p → Steady Q p s q
  Frames-Steady (ret a) s q h f = h
  Frames-Steady (throw e) s q h f = h
  Frames-Steady (read k) s q h f = Frames-Steady (k s) s q h (f s)
  Frames-Steady (write g p) s q h (w, f) = Frames-Steady p (g s) q (λ x. w s (h x)) f
  Frames-Steady (await c k) s q h f = (h, λ r t. Frames-Steady (k r) t (Q t) (λ x. x) (f r))

  pub Frames-Keeps : {A : Type 0} (p : Prog C R E S A) (s : S) → Q s → Frames p → Keeps Q p s
  Frames-Keeps (ret a) s q f = q
  Frames-Keeps (throw e) s q f = q
  Frames-Keeps (read k) s q f = Frames-Keeps (k s) s q (f s)
  Frames-Keeps (write g p) s q (w, f) = Frames-Keeps p (g s) (w s q) f
  Frames-Keeps (await c k) s q f = (q, λ r t q'. Frames-Keeps (k r) t q' (f r))

  pub run-Frames :
      {A : Type 0} (env : ℕ → (c : C) → Result E (R c)) (p : Prog C R E S A) (s : S)
      → Q s
      → Frames p
      → Q (run env p s).0
  run-Frames env (ret a) s q f = q
  run-Frames env (throw e) s q f = q
  run-Frames env (read k) s q f = run-Frames env (k s) s q (f s)
  run-Frames env (write g p) s q (w, f) = run-Frames env p (g s) (w s q) f
  run-Frames env (await c k) s q f = run-Frames (λ n. env (suc n)) (k (env 0 c)) s q (f (env 0 c))
