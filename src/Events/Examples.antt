-- ===== src/Events/Examples.antt =====
-- Tests and instances for the event queue. The bytes of the tests are the queue.
use zinqq_kmp.Common.{String, ◌≡◌, refl, not, ◌=s◌, Option, none, some, List, [], ◌∷◌}
use zinqq_kmp.Events.{EventQueue, QueueOp}
use zinqq_kmp.Events.Restart.{run, plain, restarts_vanish}

abbrev to_vec : List String → List String
to_vec queue = queue

abbrev from_slice : List String → Option (List String)
from_slice bytes = some bytes

round_trip : (q : List String) → from_slice (to_vec q) ≡ some q
round_trip q = refl

abbrev empty_queue : EventQueue String (List String)
empty_queue = record { queue = []; stored = none; outcomes = [] }

abbrev ops : List (QueueOp String)
ops =
    QueueOp.pushed "a"
    ∷ QueueOp.pushed "b"
    ∷ QueueOp.acked
    ∷ QueueOp.pushed "stopped"
    ∷ QueueOp.restarted
    ∷ QueueOp.retained (λ e. not (e =s "stopped"))
    ∷ QueueOp.pushed "c"
    ∷ []

two_left : plain ops [] ≡ "b" ∷ "c" ∷ []
unfolding plain
two_left = refl

restarts_vanish_example : (run to_vec from_slice ops empty_queue).queue ≡ plain ops []
restarts_vanish_example = restarts_vanish to_vec from_slice round_trip ops empty_queue refl refl
