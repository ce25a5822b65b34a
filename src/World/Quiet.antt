-- ===== src/World/Quiet.antt =====
-- The rule of `Prog.Quiet` for the guards of a handler.
use oort.Prelude.{Bool, true, false, Option, none, some}
use oort.Api.Call.{Handler}
use oort.Prog.Quiet.{Rests}
use oort.World.{World, confirmed, on_some}

module _ {P : Type 0} (Q : World P → Type 0) where
  pub confirmed-Rests :
      (b : Bool) (p : Handler (World P)) (s : World P)
      → Rests Q p s (Q s)
      → Rests Q (confirmed b p) s (Q s)
  unfolding confirmed
  confirmed-Rests true p s h = h
  confirmed-Rests false p s h = λ q. q

  pub on_some-Rests :
      {A : Type 0} (o : Option A) (k : A → Handler (World P)) (s : World P)
      → ((a : A) → Rests Q (k a) s (Q s))
      → Rests Q (on_some o k) s (Q s)
  unfolding on_some
  on_some-Rests none k s h = λ q. q
  on_some-Rests (some a) k s h = h a
