-- ===== src/Events.antt =====
-- rust/src/events.rs, `EventQueue`: the queue between the core and the application, with a
-- handle-then-ack protocol. `Event` is any type of events, serde_json is a parameter, and the outcome of
-- each write to the key-value store comes from the environment.
pub mod Restart
mod Examples
use zinqq_kmp.Common.{
  Bool, true, Option, none, some, List, [], ◌∷◌, ◌++◌, keep, length, ◌==◌, if◌then◌else◌, is_some,
}

-- What reading the stored queue gives: the bytes, nothing, or an error.
pub record EventQueue (Event Bytes : Type 0) : Type 0 where
  pub queue : List Event
  pub stored : Option Bytes
  -- the outcomes of the writes to come (a write beyond the list succeeds)
  pub outcomes : List Bool

abbrev pub write_succeeds : List Bool → Bool
write_succeeds [] = true
write_succeeds (b ∷ bs) = b

abbrev pub later_outcomes : List Bool → List Bool
later_outcomes [] = []
later_outcomes (b ∷ bs) = bs

abbrev pub front : {Event : Type 0} → List Event → Option Event
front [] = none
front (e ∷ es) = some e

abbrev pub without_front : {Event : Type 0} → List Event → List Event
without_front [] = []
without_front (e ∷ es) = es

module _ {Event Bytes : Type 0} (to_vec : List Event → Bytes)
    (from_slice : Bytes → Option (List Event)) where
  -- `persist`, with the queue under the lock
  unfoldable pub persist : EventQueue Event Bytes → EventQueue Event Bytes
  persist s = record s {
    stored = if write_succeeds s.outcomes then some (to_vec s.queue) else s.stored;
    outcomes = later_outcomes s.outcomes;
  }

  unfoldable pub push : Event → EventQueue Event Bytes → EventQueue Event Bytes
  unfolding persist
  push event s = persist (record s { queue = s.queue ++ event ∷ [] })

  unfoldable pub peek : EventQueue Event Bytes → Option Event
  peek s = front s.queue

  unfoldable pub retain : (Event → Bool) → EventQueue Event Bytes → EventQueue Event Bytes
  unfolding persist
  retain predicate s =
      let kept = record s { queue = keep predicate s.queue } in
      if length kept.queue == length s.queue then kept else persist kept

  unfoldable pub ack : EventQueue Event Bytes → Option Event × EventQueue Event Bytes
  unfolding persist
  ack s =
      let popped = front s.queue in
      let rest = record s { queue = without_front s.queue } in
      (popped, if is_some popped then persist rest else rest)

  abbrev pub or_empty : Option (List Event) → List Event
  or_empty none = []
  or_empty (some queue) = queue

  abbrev pub load : Option Bytes → List Event
  load none = []
  load (some bytes) = or_empty (from_slice bytes)

  -- `EventQueue::new` over the store that a former process left
  unfoldable pub restart : EventQueue Event Bytes → EventQueue Event Bytes
  restart s = record s { queue = load s.stored }

-- What happens to a queue.
pub data QueueOp (Event : Type 0) : Type 0 where
  pushed : Event → QueueOp Event
  acked restarted : QueueOp Event
  -- `start()` of rust/src/api.rs purges the terminal event that a former process left
  retained : (Event → Bool) → QueueOp Event
