-- ===== src/Queue/Tests.antt =====
-- The queue of user_queue.c on concrete inputs.
use device_service_zigbee.Prelude.{
  ◌≡◌, refl, none, some, List, [], ◌∷◌, arith, codes, ◌==◌, if◌then◌else◌,
}
use device_service_zigbee.Prelude.Outcome.{done}
use device_service_zigbee.Queue.{Heap, Queue, create_queue, free_queue}
use device_service_zigbee.Queue.Spec
use device_service_zigbee.Queue.Spec.{
  Op, enqueue, dequeue, read, clear, size, Reply, nothing, text, number,
}
use device_service_zigbee.Queue.Chain.{Nodes, node, IsQueue}
use device_service_zigbee.Queue.Refine.{RunsAs, create_queue-performs}
use device_service_zigbee.Queue.Free.{IsFreed, free_queue-IsFreed}

abbrev empty_heap : Heap
empty_heap = record { fresh = 0; cell = λ a. none }

-- three entries into a queue of two
abbrev script : List Op
script =
    enqueue (codes "a")
    ∷ enqueue (codes "b")
    ∷ enqueue (codes "c")
    ∷ size
    ∷ read
    ∷ dequeue
    ∷ clear
    ∷ dequeue
    ∷ []

drops_oldest :
    (Spec.calls 2 [] script).0
    ≡ nothing
      ∷ nothing
      ∷ nothing
      ∷ number 2
      ∷ text (some (codes "b"))
      ∷ text (some (codes "b"))
      ∷ nothing
      ∷ text none
      ∷ []
unfolding Spec.calls Spec.call
drops_oldest = refl

create_queue-performs_example : RunsAs 2 [] (create_queue empty_heap 2) script
create_queue-performs_example =
    create_queue-performs empty_heap 2 script (omega arith) (omega arith)

-- two nodes at addresses 3 and 5
abbrev two : Nodes
two = (3, codes "x") ∷ (5, codes "y") ∷ []

abbrev two_heap : Heap
two_heap = record {
  fresh = 6;
  cell = λ a.
      if a == 3
      then some (node (codes "x") (some 5))
      else if a == 5
      then some (node (codes "y") none)
      else none;
}

abbrev two_queue : Queue
two_queue = record { heap = two_heap; cap = 10; size = 2; front = some 3; rear = some 5 }

two_queue-IsQueue : IsQueue two_queue two
two_queue-IsQueue = record {
  front = refl;
  rear = refl;
  size = refl;
  cells = (refl, (refl, tt));
  distinct = omega arith;
  below = omega arith;
  within = omega arith;
  positive = omega arith;
  small = omega arith;
}

free_queue-IsFreed_example :
    (h : Heap) × (free_queue two_queue ≡ done (some h)) × IsFreed two_heap h two
free_queue-IsFreed_example = free_queue-IsFreed two_queue two two_queue-IsQueue
