-- ===== src/Connection/Steps.antt =====
-- What the steps of the connection keep.
use ansible_go.Base.{List, ◌∷◌}
use ansible_go.Run.{Result}
use ansible_go.Run.Keeps.{Keeps}
use ansible_go.Env.{Step, Event, setup}
use ansible_go.World.{World}
use ansible_go.Connection.{step, act}

-- The property is kept where a step is logged.
abbrev pub Logs : (World → Type 0) → Type 0
Logs Q = (s : Step) (w : World) → Q w → Q (record w { log = setup s ∷ w.log })

module _ {Q : World → Type 0} (logs : Logs Q) where
  pub Keeps-step :
      {A : Type 0} (s : Step) (answer : List Event → Result A) → Keeps Q (step s answer)
  unfolding step
  Keeps-step s answer = record { at = logs s }

  pub Keeps-act : (s : Step) → Keeps Q (act s)
  unfolding act
  Keeps-act s = record { at = logs s }
