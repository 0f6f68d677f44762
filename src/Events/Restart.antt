-- ===== src/Events/Restart.antt =====
-- rust/src/events.rs, `EventQueue` over restarts of the process.
use zinqq_kmp.Common.{
  Bool, keep, length, length-keep-le, ◌≡◌, refl, ap, ◌∙◌, Option, some, List, [], ◌∷◌, ◌++◌, arith,
}
use zinqq_kmp.Events.{EventQueue, QueueOp, push, ack, restart, retain, persist, load, without_front}

-- The queue as a plain list: pushes at the back, acks at the front, a purge keeps the events of its
-- predicate; a restart is nothing.
unfoldable pub plain : {Event : Type 0} → List (QueueOp Event) → List Event → List Event
plain [] q = q
plain (QueueOp.pushed e ∷ ops) q = plain ops (q ++ e ∷ [])
plain (QueueOp.acked ∷ ops) q = plain ops (without_front q)
plain (QueueOp.restarted ∷ ops) q = plain ops q
plain (QueueOp.retained predicate ∷ ops) q = plain ops (keep predicate q)

keep_all :
    {Event : Type 0} (predicate : Event → Bool) (q : List Event)
    → length (keep predicate q) ≡ length q
    → keep predicate q ≡ q
keep_all predicate [] same = refl
keep_all predicate (e ∷ q) same = ground (arith, keep_all predicate q, length-keep-le predicate q)

module _ {Event Bytes : Type 0} (to_vec : List Event → Bytes)
    (from_slice : Bytes → Option (List Event)) where
  unfoldable pub run : List (QueueOp Event) → EventQueue Event Bytes → EventQueue Event Bytes
  unfolding push ack restart retain
  run [] s = s
  run (QueueOp.pushed e ∷ ops) s = run ops (push to_vec from_slice e s)
  run (QueueOp.acked ∷ ops) s = run ops (ack to_vec from_slice s).1
  run (QueueOp.restarted ∷ ops) s = run ops (restart to_vec from_slice s)
  run (QueueOp.retained predicate ∷ ops) s = run ops (retain to_vec from_slice predicate s)

  -- The store holds the queue, and its writes succeed.
  abbrev pub Mirrored : EventQueue Event Bytes → Type 0
  Mirrored s = (load to_vec from_slice s.stored ≡ s.queue) × (s.outcomes ≡ [])

  module _ (round_trip : (q : List Event) → from_slice (to_vec q) ≡ some q) where
    persist-Mirrored :
        (s : EventQueue Event Bytes) → s.outcomes ≡ [] → Mirrored (persist to_vec from_slice s)
    unfolding persist
    persist-Mirrored s h = ground (arith, h, round_trip s.queue)

    ack-Mirrored :
        (s : EventQueue Event Bytes)
        → Mirrored s
        → Mirrored (ack to_vec from_slice s).1
          × ((ack to_vec from_slice s).1.queue ≡ without_front s.queue)
    unfolding ack persist
    ack-Mirrored s h = ground (arith, h.0, h.1, round_trip (without_front s.queue))

    retain-Mirrored :
        (predicate : Event → Bool) (s : EventQueue Event Bytes)
        → Mirrored s
        → Mirrored (retain to_vec from_slice predicate s)
          × ((retain to_vec from_slice predicate s).queue ≡ keep predicate s.queue)
    unfolding retain persist
    retain-Mirrored predicate s h =
        ground (arith, h.0, h.1, round_trip (keep predicate s.queue), keep_all predicate s.queue)

    run-plain :
        (ops : List (QueueOp Event)) (s : EventQueue Event Bytes)
        → Mirrored s
        → Mirrored (run ops s) × ((run ops s).queue ≡ plain ops s.queue)
    unfolding run plain push restart persist
    run-plain [] s h = (h, refl)
    run-plain (QueueOp.pushed e ∷ ops) s h =
        run-plain ops (push to_vec from_slice e s)
          (persist-Mirrored (record s { queue = s.queue ++ e ∷ [] }) h.1)
    run-plain (QueueOp.acked ∷ ops) s h =
        let once = ack-Mirrored s h in
        let rest = run-plain ops (ack to_vec from_slice s).1 once.0 in
        (rest.0, rest.1 ∙ ap (plain ops) once.1)
    run-plain (QueueOp.restarted ∷ ops) s h =
        let rest = run-plain ops (restart to_vec from_slice s) (refl, h.1) in
        (rest.0, rest.1 ∙ ap (plain ops) h.0)
    run-plain (QueueOp.retained predicate ∷ ops) s h =
        let once = retain-Mirrored predicate s h in
        let rest = run-plain ops (retain to_vec from_slice predicate s) once.0 in
        (rest.0, rest.1 ∙ ap (plain ops) once.1)

    -- No event is lost, repeated or reordered over restarts: with a codec that reads back what it wrote
    -- and writes that succeed, pushes, acks, purges and restarts in any order leave the queue that
    -- the pushes, acks and purges alone leave of a plain list. So an event stays until it is acked or
    -- a purge drops it (as `start()` does with a `NodeStopped` of a former process), behind all that
    -- were pushed before it, also in later processes.
    pub restarts_vanish :
        (ops : List (QueueOp Event)) (s : EventQueue Event Bytes)
        → load to_vec from_slice s.stored ≡ s.queue
        → s.outcomes ≡ []
        → (run ops s).queue ≡ plain ops s.queue
    restarts_vanish ops s stored writes = (run-plain ops s (stored, writes)).1
