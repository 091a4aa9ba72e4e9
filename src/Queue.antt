-- ===== src/Queue.antt =====
-- random/user_queue.c and random/user_queue.h: the bounded queue of strings that links the threads
-- of the driver, as a singly linked list on an explicit heap. A call that locks the mutex is one
-- step; `readQNode` and `clearQNode` run inside the caller's lock. `malloc` does not fail.
pub mod Chain
pub mod Link
pub mod Free
pub mod Refine
pub mod Spec
mod Tests
use device_service_zigbee.Prelude.{
  ℕ, zero, suc, ◌+◌, ◌%◌, ◌^◌, Bool, Option, none, some, List, [], ◌∷◌, Bytes, ◌==◌, if◌then◌else◌,
}
use device_service_zigbee.Prelude.Outcome.{Outcome, done, fault, Fault, bad_pointer, ◌>>=◌}

-- `QNode`; the string is a copy that the node owns
pub record QNode : Type 0 where
  pub str : Bytes
  pub next : Option ℕ

-- the nodes that are allocated, and the address that `malloc` gives next
pub record Heap : Type 0 where
  pub fresh : ℕ
  pub cell : ℕ → Option QNode

-- `Queue` without its mutex, beside the heap that it lives in
pub record Queue : Type 0 where
  pub heap : Heap
  pub cap : ℕ
  pub size : ℕ
  pub front : Option ℕ
  pub rear : Option ℕ

-- a store into the heap; `none` frees the cell
abbrev pub update : (ℕ → Option QNode) → ℕ → Option QNode → ℕ → Option QNode
update f p v q = if p == q then v else f q

-- `uint16_t` arithmetic
abbrev pub incr : ℕ → ℕ
incr n = (n + 1) % 2 ^ 16

abbrev pub decr : ℕ → ℕ
decr n = (n + 65535) % 2 ^ 16

-- `*p`: a fault at a freed or unknown address
load : Heap → ℕ → Outcome QNode
load h p = elim (h.cell p) [ none ↦ fault bad_pointer | some n ↦ done n ]

-- `newNode`
new_node : Bytes → Heap → ℕ × Heap
new_node s h = (
  h.fresh,
  record {
    fresh = suc h.fresh;
    cell = update h.cell h.fresh (some (record { str = s; next = none }));
  },
)

-- `freeQNode`, on a node that is there
free_q_node : ℕ → Heap → Heap
free_q_node p h = record h { cell = update h.cell p none }

-- `createQueue`
pub create_queue : Heap → ℕ → Queue
create_queue h cap = record { heap = h; cap = cap; size = 0; front = none; rear = none }

-- the common part of `clearQNode` and `deQueue`: move `front` one node ahead, and free the node
pub pop_front : Queue → ℕ → QNode → Queue
unfolding free_q_node
pop_front q p n = record q {
  heap = free_q_node p q.heap;
  size = decr q.size;
  front = n.next;
  rear = elim n.next [ none ↦ none | some r ↦ q.rear ];
}

-- `clearQNode`: drop the oldest entry, if there is one
pub clear_q_node : Queue → Outcome Queue
unfolding load pop_front
clear_q_node q = elim q.front [
  | none ↦ done q
  | some p ↦ do n ← load q.heap p; done (pop_front q p n)
]

-- the end of `enQueue`: hang the new node `t` behind the last one
link : Queue → ℕ → Outcome Queue
unfolding load
link q t = elim q.rear [
  | none ↦ done (record q { size = incr q.size; front = some t; rear = some t })
  | some r ↦ do
    n ← load q.heap r
    done (record q {
      heap = record q.heap { cell = update q.heap.cell r (some (record n { next = some t })) };
      size = incr q.size;
      rear = some t;
    })
]

-- `enQueue`: a full queue loses its oldest entry
pub en_queue : Queue → Bytes → Outcome Queue
unfolding new_node clear_q_node link
en_queue q s =
    let (t, h) = new_node s q.heap in
    let q' = record q { heap = h } in
    do q'' ← if q.size == q.cap then clear_q_node q' else done q'; link q'' t

-- `readQNode`: a copy of the oldest entry
pub read_q_node : Queue → Outcome (Option Bytes)
unfolding load
read_q_node q = elim q.front [ none ↦ done none | some p ↦ do n ← load q.heap p; done (some n.str) ]

-- `deQueue`
pub de_queue : Queue → Outcome (Option Bytes × Queue)
unfolding load pop_front
de_queue q = elim q.front [
  | none ↦ done (none, q)
  | some p ↦ do n ← load q.heap p; done (some n.str, pop_front q p n)
]

-- `sizeQueue`
pub size_queue : Queue → ℕ
size_queue q = q.size

-- the loop of `freeQueue`; it makes one round for each node, and `none` is a loop that goes on
free_nodes : ℕ → Option ℕ → Heap → Outcome (Option Heap)
unfolding load free_q_node
free_nodes fuel none h = done (some h)
free_nodes zero (some p) h = done none
free_nodes (suc fuel) (some p) h = do n ← load h p; free_nodes fuel n.next (free_q_node p h)

-- `freeQueue`, given room for `size` rounds
pub free_queue : Queue → Outcome (Option Heap)
unfolding free_nodes
free_queue q = free_nodes q.size q.front q.heap
