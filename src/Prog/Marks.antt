-- ===== src/Prog/Marks.antt =====
-- The rule for a mark that some handlers set and reset, while the others leave it alone.
use mathlib.Core.Path.{subst}
use oort.Prelude.{◌≡◌, ◌⊎◌, inl, inr, List, [], ◌∷◌, ◌++◌, All}
use oort.Prog.{Prog, ret, throw, read, write, await, Result}
use oort.Prog.Machine.{Task, waits, Machine, advance, spawn, Step, begin, reply, Reach, here, next}
use oort.Prog.Quiet.{Leaves, Rests, Leaves-Rests}

-- of the second kind
abbrev IsKeeping : {P P' : Type 0} → P ⊎ P' → Type 0
IsKeeping (inl _) = ⊥
IsKeeping (inr _) = Unit

module _ {C : Type 0} {R : C → Type 0} {E S A : Type 0} (Q : S → Type 0) where
  -- `p` keeps `Q` wherever it stops, if `Q` holds, on the hypothesis `q`, when it goes on.
  abbrev pub Steady : Prog C R E S A → S → Type 0 → Type 0
  Steady (ret a) s q = q → Q s
  Steady (throw e) s q = q → Q s
  Steady (read k) s q = Steady (k s) s q
  Steady (write g p) s q = Steady p (g s) q
  Steady (await c k) s q = (q → Q s) × ((r : Result E (R c)) (t : S) → Steady (k r) t (Q t))

  -- A waiting handler brings `Q` about at its end, or keeps it.
  abbrev IsMarked : Task C R E S A → Type 0
  IsMarked (waits c k) =
      ((r : Result E (R c)) (t : S) → Leaves Q (k r) t)
      ⊎ ((r : Result E (R c)) (t : S) → Steady (k r) t (Q t))

  -- All handlers of the list are of the second kind.
  abbrev AllKeep : (ts : List (Task C R E S A)) → All IsMarked ts → Type 0
  AllKeep [] h = Unit
  AllKeep (waits c k ∷ ts) (m, h) = IsKeeping m × AllKeep ts h

  -- `Q` holds unless a handler of the first kind is waiting.
  abbrev Holds : S → List (Task C R E S A) → Type 0 → Type 0
  Holds s ts q = (h : All IsMarked ts) × (AllKeep ts h → q → Q s)

  advance-Rests :
      (p : Prog C R E S A) (s : S) (q : Type 0)
      → Rests Q p s q
      → Holds (advance p s).0 (advance p s).1 q
  advance-Rests (ret a) s q h = (tt, λ _. h)
  advance-Rests (throw e) s q h = (tt, λ _. h)
  advance-Rests (read k) s q h = advance-Rests (k s) s q h
  advance-Rests (write g p) s q h = advance-Rests p (g s) q h
  advance-Rests (await c k) s q h = ((inl h, tt), λ n. absurd (n.0))

  advance-Steady :
      (p : Prog C R E S A) (s : S) (q : Type 0)
      → Steady p s q
      → Holds (advance p s).0 (advance p s).1 q
  advance-Steady (ret a) s q h = (tt, λ _. h)
  advance-Steady (throw e) s q h = (tt, λ _. h)
  advance-Steady (read k) s q h = advance-Steady (k s) s q h
  advance-Steady (write g p) s q h = advance-Steady p (g s) q h
  advance-Steady (await c k) s q h = ((inr h.1, tt), λ _. h.0)

  append-AllKeep :
      (xs ys : List (Task C R E S A)) (h : All IsMarked xs) (k : All IsMarked ys)
      → (m : All IsMarked (xs ++ ys)) × (AllKeep (xs ++ ys) m → AllKeep xs h × AllKeep ys k)
  append-AllKeep [] ys h k = (k, λ a. (tt, a))
  append-AllKeep (waits c f ∷ xs) ys (x, h) k =
      let (m, g) = append-AllKeep xs ys h k in ((x, m), λ a. ((a.0, (g a.1).0), (g a.1).1))

  split-AllKeep :
      (before : List (Task C R E S A)) (c : C) (k : Result E (R c) → Prog C R E S A)
      (after : List (Task C R E S A)) (h : All IsMarked (before ++ waits c k ∷ after))
      → (x : IsMarked (waits c k)) × ((m : All IsMarked (before ++ after)) × (AllKeep
              (before ++ after)
              m
            → IsKeeping x
            → AllKeep (before ++ waits c k ∷ after) h))
  split-AllKeep [] c k after (x, h) = (x, (h, λ a i. (i, a)))
  split-AllKeep (waits d f ∷ before) c k after (y, h) =
      let (x, (m, g)) = split-AllKeep before c k after h in (x, ((y, m), λ a i. (a.0, g a.1 i)))

  abbrev Marked : Machine C R E S A → Type 0
  Marked m = Holds m.state m.waiting Unit

  spawn-Marked :
      (p : Prog C R E S A) (s : S) (ts : List (Task C R E S A)) (q : Type 0)
      → Holds (advance p s).0 (advance p s).1 q
      → (h : All IsMarked ts) → (AllKeep ts h → q)
      → Marked (spawn p s ts)
  spawn-Marked p s ts q (new, ends) h k =
      let (m, g) = append-AllKeep ts (advance p s).1 h new in (m, λ a _. ends (g a).1 (k (g a).0))

  resume-Marked :
      (c : C) (k : Result E (R c) → Prog C R E S A) (r : Result E (R c)) (s : S)
      (ts : List (Task C R E S A)) (x : IsMarked (waits c k)) (h : All IsMarked ts)
      → (AllKeep ts h → IsKeeping x → Q s)
      → Marked (spawn (k r) s ts)
  resume-Marked c k r s ts (inl leaves) h g =
      spawn-Marked (k r) s ts Unit
        (advance-Rests (k r) s Unit (Leaves-Rests Q (k r) s Unit (leaves r s))) h (λ _. tt)
  resume-Marked c k r s ts (inr keeps) h g =
      spawn-Marked (k r) s ts (Q s) (advance-Steady (k r) s (Q s) (keeps r s)) h (λ a. g a tt)

  module _ (Starts : S → Prog C R E S A → Type 0)
      (starts : (s : S) (p : Prog C R E S A)
        → Starts s p
        → Rests Q p s (Q s) ⊎ Steady p s (Q s)) where
    begin-Holds :
        (s : S) (p : Prog C R E S A)
        → Rests Q p s (Q s) ⊎ Steady p s (Q s)
        → Holds (advance p s).0 (advance p s).1 (Q s)
    begin-Holds s p (inl h) = advance-Rests p s (Q s) h
    begin-Holds s p (inr h) = advance-Steady p s (Q s) h

    Step-Marked : {m n : Machine C R E S A} → Step Starts m n → Marked m → Marked n
    Step-Marked {m} (begin p h) v =
        spawn-Marked p m.state m.waiting (Q m.state) (begin-Holds m.state p (starts m.state p h))
          v.0 (λ a. v.1 a tt)
    Step-Marked {m} (reply before after c k r e) v =
        let (h, settled) = subst (λ ts. Holds m.state ts Unit) e v in
        let (x, (rest, g)) = split-AllKeep before c k after h in
        resume-Marked c k r m.state (before ++ after) x rest (λ a i. settled (g a i) tt)

    Reach-Marked : {m n : Machine C R E S A} → Marked m → Reach Starts m n → Marked n
    Reach-Marked v here = v
    Reach-Marked v (next r st) = Step-Marked st (Reach-Marked v r)

    -- If `Q` holds at the start and no handler waits, `Q` holds whenever no handler waits.
    pub Reach-rests :
        (s : S) (n : Machine C R E S A)
        → Q s
        → Reach Starts (record { state = s; waiting = [] }) n
        → n.waiting ≡ []
        → Q n.state
    Reach-rests s n q r e =
        let (h, settled) = subst (λ ts. Holds n.state ts Unit) e (Reach-Marked (tt, λ _ _. q) r) in
        settled tt tt
