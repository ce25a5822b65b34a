-- ===== src/World/Frames.antt =====
-- The guards of a handler, for `Prog.Frames`.
use oort.Prelude.{Bool, true, false, Option, none, some}
use oort.Api.Call.{Handler}
use oort.Prog.Frames.{Frames}
use oort.World.{World, confirmed, on_some}

module _ {P : Type 0} (Q : World P → Type 0) where
  pub confirmed-Frames : (b : Bool) (p : Handler (World P)) → Frames Q p → Frames Q (confirmed b p)
  unfolding confirmed
  confirmed-Frames true p h = h
  confirmed-Frames false p h = tt

  pub on_some-Frames :
      {A : Type 0} (o : Option A) (k : A → Handler (World P))
      → ((a : A) → Frames Q (k a))
      → Frames Q (on_some o k)
  unfolding on_some
  on_some-Frames none k h = tt
  on_some-Frames (some a) k h = h a
