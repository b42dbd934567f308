-- ===== src/Agent/Cupti/Listen.antt =====
-- crates/perfweave-agent/src/sampler/cupti.rs, `CuptiReceiver::run`: which connections get a task that
-- handles them.
use perf_weave.Base.{Bool, true, false, Option, none, some, List, [], ◌∷◌}
use perf_weave.Base.Results.{Result, err, ok}
use perf_weave.Base.Text.{Text}

-- A turn of the loop: a change of the shutdown flag, or the end of an accept.
pub data Turn (Stream : Type 0) : Type 0 where
  told : Bool → Turn Stream
  accept : Result Text Stream → Turn Stream

module _ {Stream : Type 0} where
  -- A failed accept is warned of, and the loop goes on.
  unfoldable pub spawned : List (Turn Stream) → List Stream
  spawned [] = []
  spawned (told true ∷ ts) = []
  spawned (told false ∷ ts) = spawned ts
  spawned (accept (ok stream) ∷ ts) = stream ∷ spawned ts
  spawned (accept (err e) ∷ ts) = spawned ts

  -- `bind` is the error of the socket, if it has one.
  unfoldable pub run : Option Text → List (Turn Stream) → List Stream
  unfolding spawned
  run (some e) ts = []
  run none ts = spawned ts
