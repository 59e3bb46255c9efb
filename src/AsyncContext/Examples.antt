-- ===== src/AsyncContext/Examples.antt =====
-- Context 0 with a child 1 of its own; `cancel` has begun on 0, and not yet on 1.
use gsyncio.Common.{none, some, [], ◌∷◌}
use gsyncio.AsyncContext.{create, take}
use gsyncio.AsyncContext.System.{System, fresh}

abbrev two_contexts : System
two_contexts = record fresh { world = (create (some 0) (create none fresh.world).0).0 }

abbrev begun : System
begun = record two_contexts { world = take 0 two_contexts.world; under_way = 1 ∷ [] }
