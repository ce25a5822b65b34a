-- ===== src/Prog/Settles.antt =====
-- Handlers that never reject, whatever their calls are answered.
use oort.Prelude.{ℕ, suc, ◌≡◌, refl, ap, List, ◌∷◌}
use oort.Prog.{
  Result, ok, Prog, ret, throw, read, write, await, ◌>>=◌, try_catch, finally, run, update,
}

-- One call more, before the end of a run; and one more change, at its end.
abbrev pub after : {C E A S : Type 0} → C → S × Result E A × List C → S × Result E A × List C
after c (s, r, cs) = (s, r, c ∷ cs)

abbrev pub changed :
    {C E A S : Type 0} → (S → S) → S × Result E A × List C → S × Result E A × List C
changed g (s, r, cs) = (g s, r, cs)

module _ {C : Type 0} {R : C → Type 0} {E S : Type 0} where
  abbrev pub Settles : {A : Type 0} → Prog C R E S A → Type 0
  Settles (ret a) = Unit
  Settles (throw e) = ⊥
  Settles (read k) = (s : S) → Settles (k s)
  Settles (write g p) = Settles p
  Settles (await c k) = (r : Result E (R c)) → Settles (k r)

  pub Settles-try_catch :
      {A : Type 0} (p : Prog C R E S A) (h : E → Prog C R E S A)
      → ((e : E) → Settles (h e))
      → Settles (try_catch p h)
  Settles-try_catch (ret a) h k = tt
  Settles-try_catch (throw e) h k = k e
  Settles-try_catch (read f) h k = λ s. Settles-try_catch (f s) h k
  Settles-try_catch (write g p) h k = Settles-try_catch p h k
  Settles-try_catch (await c f) h k = λ r. Settles-try_catch (f r) h k

  pub Settles-bind :
      {A B : Type 0} (p : Prog C R E S A) (f : A → Prog C R E S B)
      → Settles p
      → ((a : A) → Settles (f a))
      → Settles (p >>= f)
  Settles-bind (ret a) f h k = k a
  Settles-bind (throw e) f h k = absurd h
  Settles-bind (read g) f h k = λ s. Settles-bind (g s) f (h s) k
  Settles-bind (write g p) f h k = Settles-bind p f h k
  Settles-bind (await c g) f h k = λ r. Settles-bind (g r) f (h r) k

  pub Settles-finally :
      {A : Type 0} (p : Prog C R E S A) (q : Prog C R E S (Unit {0}))
      → Settles p
      → Settles q
      → Settles (finally p q)
  Settles-finally (ret a) q h k = Settles-bind q _ k (λ _. tt)
  Settles-finally (throw e) q h k = absurd h
  Settles-finally (read g) q h k = λ s. Settles-finally (g s) q (h s) k
  Settles-finally (write g p) q h k = Settles-finally p q h k
  Settles-finally (await c g) q h k = λ r. Settles-finally (g r) q (h r) k

  pub run-Settles :
      {A : Type 0} (env : ℕ → (c : C) → Result E (R c)) (p : Prog C R E S A) (s : S)
      → Settles p
      → (a : A) × ((run env p s).1 ≡ ok a)
  run-Settles env (ret a) s h = (a, refl)
  run-Settles env (throw e) s h = absurd h
  run-Settles env (read k) s h = run-Settles env (k s) s (h s)
  run-Settles env (write g p) s h = run-Settles env p (g s) h
  run-Settles env (await c k) s h = run-Settles (λ n. env (suc n)) (k (env 0 c)) s (h (env 0 c))

  -- Around a handler that never rejects, `catch` does nothing, and `finally` comes last.
  pub run_settled :
      {A : Type 0} (env : ℕ → (c : C) → Result E (R c)) (p : Prog C R E S A)
      (h : E → Prog C R E S A) (g : S → S) (s : S)
      → Settles p
      → run env (finally (try_catch p h) (update g)) s ≡ changed g (run env p s)
  run_settled env (ret a) h g s k = refl
  run_settled env (throw e) h g s k = absurd k
  run_settled env (read f) h g s k = run_settled env (f s) h g s (k s)
  run_settled env (write f p) h g s k = run_settled env p h g (f s) k
  run_settled env (await c f) h g s k =
      ap (after c) (run_settled (λ n. env (suc n)) (f (env 0 c)) h g s (k (env 0 c)))
