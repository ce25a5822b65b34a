-- ===== src/Prog.antt =====
-- Asynchronous handlers. A handler runs without interruption up to its next `await`; there it
-- leaves a call with the environment and a continuation, and other handlers may run before the
-- reply comes. `try`/`catch`/`finally` are operations on handlers.
pub mod Machine
pub mod Quiet
pub mod Marks
pub mod Frames
pub mod Settles
pub mod Exclusive
pub mod Trace
use oort.Prelude.{ℕ, suc, List, [], ◌∷◌, ◌≡◌, refl, ◌⊎◌, inl, inr}

pub data Result (E A : Type 0) : Type 0 where
  ok : A → Result E A
  err : E → Result E A

-- `C` are the calls that can be awaited, `R c` what the call `c` resolves to, `E` what can be
-- thrown, and `S` the state that the handlers share.
pub data Prog (C : Type 0) (R : C → Type 0) (E S A : Type 0) : Type 0 where
  ret : A → Prog C R E S A
  throw : E → Prog C R E S A
  read : (S → Prog C R E S A) → Prog C R E S A
  write : (S → S) → Prog C R E S A → Prog C R E S A
  await : (c : C) → (Result E (R c) → Prog C R E S A) → Prog C R E S A

module _ {C : Type 0} {R : C → Type 0} {E S : Type 0} where
  infixl 5 ◌>>=◌ ◌>>◌
  abbrev pub ◌>>=◌ : {A B : Type 0} → Prog C R E S A → (A → Prog C R E S B) → Prog C R E S B
  ret a >>= f = f a
  throw e >>= f = throw e
  read k >>= f = read (λ s. k s >>= f)
  write g p >>= f = write g (p >>= f)
  await c k >>= f = await c (λ r. k r >>= f)

  abbrev pub ◌>>◌ : {A B : Type 0} → Prog C R E S A → Prog C R E S B → Prog C R E S B
  p >> q = p >>= λ _. q

  -- A setter of the state.
  abbrev pub update : (S → S) → Prog C R E S (Unit {0})
  update g = write g (ret tt)

  abbrev pub resolve : {A : Type 0} → Result E A → Prog C R E S A
  resolve (ok a) = ret a
  resolve (err e) = throw e

  -- `await` of one call; a rejection is thrown.
  abbrev pub call : (c : C) → Prog C R E S (R c)
  call c = await c resolve

  -- `try { p } catch (e) { h e }`
  abbrev pub try_catch : {A : Type 0} → Prog C R E S A → (E → Prog C R E S A) → Prog C R E S A
  try_catch (ret a) h = ret a
  try_catch (throw e) h = h e
  try_catch (read k) h = read (λ s. try_catch (k s) h)
  try_catch (write g p) h = write g (try_catch p h)
  try_catch (await c k) h = await c (λ r. try_catch (k r) h)

  -- `try { p } finally { q }`
  abbrev pub finally : {A : Type 0} → Prog C R E S A → Prog C R E S (Unit {0}) → Prog C R E S A
  finally (ret a) q = q >> ret a
  finally (throw e) q = q >> throw e
  finally (read k) q = read (λ s. finally (k s) q)
  finally (write g p) q = write g (finally p q)
  finally (await c k) q = await c (λ r. finally (k r) q)

  -- A run alone, the `n`-th call answered by `env n`: the final state, the result, and the calls
  -- made, in order.
  abbrev pub run :
      {A : Type 0} → (ℕ → (c : C) → Result E (R c)) → Prog C R E S A → S → S × Result E A × List C
  run env (ret a) s = (s, ok a, [])
  run env (throw e) s = (s, err e, [])
  run env (read k) s = run env (k s) s
  run env (write g p) s = run env p (g s)
  run env (await c k) s = let (t, r, cs) = run (λ n. env (suc n)) (k (env 0 c)) s in (t, r, c ∷ cs)

pub Result-cases :
    {E A : Type 0} (r : Result E A) → ((a : A) × (r ≡ ok a)) ⊎ ((e : E) × (r ≡ err e))
Result-cases (ok a) = inl (a, refl)
Result-cases (err e) = inr (e, refl)
